-- ===== src/Blocks/Parse.antt =====
-- `_parse` of each block of blocks.py, `from_content` with its cache, and `parse_block`.
use python_zipline.Base.{
  ℕ, ◌+◌, not, ◌&&◌, Option, none, some, List, [], ◌∷◌, ltb, leb, ◌==◌, if◌then◌else◌, length, take,
  drop,
}
use python_zipline.Base.Outcome.{Outcome, ok, raised, structural, ◌>>=◌, ◌>>◌, guard}
use python_zipline.Blocks.Types.{
  Bytes, Block, file_header, source, decoder, session, participant, session_end, record_block,
}
use python_zipline.Blocks.Values.{str, u8, u16, u32, i64, opaque, span_list, extent_list, field_at}
use python_zipline.Blocks.Options.{
  OptSpec, spec, single, many, concat, parse_options, text_of, raw_of, number_of, integer_of,
  texts_of, spans_of, extents_of,
}
use python_zipline.Blocks.Check.{
  checked, unsupported_version, file_header_fits, source_fits, decoder_fits, session_fits,
  participant_fits, session_end_fits, record_fits,
}
use python_zipline.Blocks.Encode.{magic}
use python_zipline.Frame.{unpack_i64, pad4}

-- `cls._body` and the slice behind it.
abbrev pub body : ℕ → Bytes → (Bytes → Outcome Block) → Outcome Block
body size content rest = if ltb (length content) size then raised structural else rest content

abbrev pub comment_spec : OptSpec
comment_spec = spec 0x01 str single

abbrev pub file_header_table : List OptSpec
file_header_table =
    comment_spec
    ∷ spec 0x10 i64 single
    ∷ spec 0x11 str single
    ∷ spec 0x12 str single
    ∷ spec 0x13 i64 single
    ∷ spec 0x15 str single
    ∷ []

abbrev pub swapped_magic : ℕ
swapped_magic = 0x4650495A

unfoldable pub parse_file_header : Bytes → Outcome Block
parse_file_header content = do
  guard (not (field_at 0 4 content == swapped_magic)) structural
  guard (field_at 0 4 content == magic) structural
  guard (not (unsupported_version (field_at 4 2 content) (field_at 6 2 content))) structural
  guard (not (field_at 8 8 content == 0)) structural
  (f, extras) ← parse_options file_header_table (drop 16 content)
  h ← checked file_header_fits (record {
    tick_hz = field_at 8 8 content;
    version_major = field_at 4 2 content;
    version_minor = field_at 6 2 content;
    time_epoch = integer_of (f 0x10);
    creator = text_of (f 0x11);
    produced_by = text_of (f 0x12);
    produced_at = integer_of (f 0x13);
    transform_params_digest = text_of (f 0x15);
    comment = text_of (f 0x01);
    extra_options = extras;
  })
  ok (file_header h)

abbrev pub source_table : List OptSpec
source_table =
    comment_spec ∷ spec 0x20 str single ∷ spec 0x21 str single ∷ spec 0x22 u16 single ∷ []

unfoldable pub parse_source : Bytes → Outcome Block
parse_source content = do
  (f, extras) ← parse_options source_table (drop 4 content)
  s ← checked source_fits (record {
    source_id = field_at 0 2 content;
    kind = field_at 2 1 content;
    uri = text_of (f 0x20);
    digest = text_of (f 0x21);
    link_type = number_of (f 0x22);
    comment = text_of (f 0x01);
    extra_options = extras;
  })
  ok (source s)

abbrev pub decoder_table : List OptSpec
decoder_table =
    comment_spec ∷ spec 0x41 str single ∷ spec 0x42 str single ∷ spec 0x43 str single ∷ []

unfoldable pub parse_decoder : Bytes → Outcome Block
parse_decoder content = do
  (f, extras) ← parse_options decoder_table (drop 4 content)
  d ← checked decoder_fits (record {
    decoder_id = field_at 0 2 content;
    output_layer = field_at 2 1 content;
    name = text_of (f 0x41);
    version = text_of (f 0x42);
    params_digest = text_of (f 0x43);
    comment = text_of (f 0x01);
    extra_options = extras;
  })
  ok (decoder d)

abbrev pub session_table : List OptSpec
session_table =
    comment_spec
    ∷ spec 0x50 str single
    ∷ spec 0x51 str single
    ∷ spec 0x52 u16 single
    ∷ spec 0x54 opaque single
    ∷ []

abbrev pub flags_of : Option ℕ → ℕ
flags_of none = 0
flags_of (some n) = n

unfoldable pub parse_session : Bytes → Outcome Block
parse_session content = do
  (f, extras) ← parse_options session_table (drop 8 content)
  s ← checked session_fits (record {
    session_id = field_at 0 8 content;
    proto = text_of (f 0x50);
    flow_key = text_of (f 0x51);
    flags = flags_of (number_of (f 0x52));
    external_session_id = raw_of (f 0x54);
    comment = text_of (f 0x01);
    extra_options = extras;
  })
  ok (session s)

abbrev pub participant_table : List OptSpec
participant_table =
    comment_spec
    ∷ spec 0x60 str many
    ∷ spec 0x61 u32 single
    ∷ spec 0x62 str single
    ∷ spec 0x63 u8 single
    ∷ []

unfoldable pub parse_participant : Bytes → Outcome Block
parse_participant content = do
  (f, extras) ← parse_options participant_table (drop 12 content)
  p ← checked participant_fits (record {
    session_id = field_at 0 8 content;
    participant_id = field_at 8 2 content;
    adjacency = field_at 10 1 content;
    endpoints = texts_of (f 0x60);
    isn = number_of (f 0x61);
    identity = text_of (f 0x62);
    tcp_role = number_of (f 0x63);
    comment = text_of (f 0x01);
    extra_options = extras;
  })
  ok (participant p)

abbrev pub session_end_table : List OptSpec
session_end_table = comment_spec ∷ spec 0xC0 str single ∷ spec 0xC1 extent_list concat ∷ []

unfoldable pub parse_session_end : Bytes → Outcome Block
parse_session_end content = do
  (f, extras) ← parse_options session_end_table (drop 8 content)
  s ← checked session_end_fits (record {
    session_id = field_at 0 8 content;
    reason = text_of (f 0xC0);
    input_extents = extents_of (f 0xC1);
    comment = text_of (f 0x01);
    extra_options = extras;
  })
  ok (session_end s)

abbrev pub record_table : List OptSpec
record_table =
    comment_spec
    ∷ spec 0x70 u32 single
    ∷ spec 0x72 u32 single
    ∷ spec 0x73 i64 single
    ∷ spec 0x80 span_list concat
    ∷ spec 0x90 u16 single
    ∷ spec 0x91 str single
    ∷ spec 0x92 str single
    ∷ []

unfoldable pub parse_record : Bytes → Outcome Block
parse_record content = do
  let payload_len = field_at 24 4 content
  let options_start = 28 + payload_len + pad4 payload_len
  guard (leb (28 + payload_len) (length content) && leb options_start (length content)) structural
  (f, extras) ← parse_options record_table (drop options_start content)
  r ← checked record_fits (record {
    session_id = field_at 0 8 content;
    sender_pid = field_at 8 2 content;
    source_id = field_at 10 2 content;
    timestamp = unpack_i64 (take 8 (drop 12 content));
    payload = take payload_len (drop 28 content);
    flags = field_at 22 2 content;
    seq_start = number_of (f 0x70);
    ack = number_of (f 0x72);
    ts_first = integer_of (f 0x73);
    spans = spans_of (f 0x80);
    decoder_id = number_of (f 0x90);
    content_type = text_of (f 0x91);
    role = text_of (f 0x92);
    comment = text_of (f 0x01);
    extra_options = extras;
  })
  ok (record_block r)
