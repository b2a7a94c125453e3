-- ===== src/Blocks/Types.antt =====
-- The data types of blocks.py. A byte is a number below 256, a `str` is the list of its UTF-8 bytes,
-- an integer enum is its number, since every one of them keeps a value that it does not define.
use python_zipline.Base.{ℕ, List, Option}
use python_zipline.Base.Int.{ℤ}

abbrev pub Bytes : Type 0
Bytes = List ℕ

abbrev pub Text : Type 0
Text = List ℕ

pub record RawOption : Type 0 where
  pub option_id : ℕ
  pub value : Bytes

pub record Span : Type 0 where
  pub source_id : ℕ
  pub session_id : ℕ
  pub participant_id : ℕ
  pub off_start : ℕ
  pub off_end : ℕ

pub record InputExtent : Type 0 where
  pub source_id : ℕ
  pub session_id : ℕ
  pub participant_id : ℕ
  pub extent : ℕ

pub record FileHeader : Type 0 where
  pub tick_hz : ℕ
  pub version_major : ℕ
  pub version_minor : ℕ
  pub time_epoch : Option ℤ
  pub creator : Option Text
  pub produced_by : Option Text
  pub produced_at : Option ℤ
  pub transform_params_digest : Option Text
  pub comment : Option Text
  pub extra_options : List RawOption

pub record Source : Type 0 where
  pub source_id : ℕ
  pub kind : ℕ
  pub uri : Option Text
  pub digest : Option Text
  pub link_type : Option ℕ
  pub comment : Option Text
  pub extra_options : List RawOption

pub record Decoder : Type 0 where
  pub decoder_id : ℕ
  pub output_layer : ℕ
  pub name : Option Text
  pub version : Option Text
  pub params_digest : Option Text
  pub comment : Option Text
  pub extra_options : List RawOption

pub record Session : Type 0 where
  pub session_id : ℕ
  pub proto : Option Text
  pub flow_key : Option Text
  pub flags : ℕ
  pub external_session_id : Option Bytes
  pub comment : Option Text
  pub extra_options : List RawOption

pub record Participant : Type 0 where
  pub session_id : ℕ
  pub participant_id : ℕ
  pub adjacency : ℕ
  pub endpoints : List Text
  pub isn : Option ℕ
  pub identity : Option Text
  pub tcp_role : Option ℕ
  pub comment : Option Text
  pub extra_options : List RawOption

pub record SessionEnd : Type 0 where
  pub session_id : ℕ
  pub reason : Option Text
  pub input_extents : List InputExtent
  pub comment : Option Text
  pub extra_options : List RawOption

pub record Record : Type 0 where
  pub session_id : ℕ
  pub sender_pid : ℕ
  pub source_id : ℕ
  pub timestamp : ℤ
  pub payload : Bytes
  pub flags : ℕ
  pub seq_start : Option ℕ
  pub ack : Option ℕ
  pub ts_first : Option ℤ
  pub spans : List Span
  pub decoder_id : Option ℕ
  pub content_type : Option Text
  pub role : Option Text
  pub comment : Option Text
  pub extra_options : List RawOption

pub record Undecoded : Type 0 where
  pub source_id : ℕ
  pub session_id : ℕ
  pub participant_id : ℕ
  pub off_start : ℕ
  pub off_end : ℕ
  pub reason : Option Text
  pub reason_class : Option Text
  pub decoder_id : Option ℕ
  pub comment : Option Text
  pub extra_options : List RawOption

pub record Discontinuity : Type 0 where
  pub session_id : ℕ
  pub participant_id : ℕ
  pub width : Option ℕ
  pub reason : Option Text
  pub comment : Option Text
  pub extra_options : List RawOption

pub record NameResolution : Type 0 where
  pub session_id : ℕ
  pub participant_id : ℕ
  pub label : Option Text
  pub kind : Option Text
  pub comment : Option Text
  pub extra_options : List RawOption

pub record End : Type 0 where
  pub comment : Option Text
  pub extra_options : List RawOption

pub record Custom : Type 0 where
  pub pen : ℕ
  pub subtype : ℕ
  pub payload : Bytes

pub data Block : Type 0 where
  file_header : FileHeader → Block
  source : Source → Block
  decoder : Decoder → Block
  session : Session → Block
  participant : Participant → Block
  session_end : SessionEnd → Block
  record_block : Record → Block
  undecoded : Undecoded → Block
  discontinuity : Discontinuity → Block
  name_resolution : NameResolution → Block
  end : End → Block
  custom : Custom → Block
  unknown_block : ℕ → Bytes → Block
