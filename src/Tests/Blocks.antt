-- ===== src/Tests/Blocks.antt =====
-- The round trip, the alignment and the fixed encoder of blocks.py at a concrete record.
use python_zipline.Base.{◌≡◌, refl, none, some, [], ◌∷◌, ◌++◌, arith}
use python_zipline.Base.Int.{pos, negsuc}
use python_zipline.Blocks.Types.{RawOption, Record, record_block, unknown_block}
use python_zipline.Blocks.Values.{is_utf8, chunks, chunks_loop, pack_span, join_packed}
use python_zipline.Blocks.Options.{find_spec}
use python_zipline.Blocks.Check.{record_fits, span_fits}
use python_zipline.Blocks.Encode.{
  encode_block, encode_record, record_body, record_options, with_body,
}
use python_zipline.Blocks.FixedEncoder.{encode_record-record_options}
use python_zipline.Blocks.Aligned.{IsAligned, encode_block-IsAligned}
use python_zipline.Blocks.RoundTrip.{ReadsBack}
use python_zipline.Blocks.RoundTrip.Records.{IsRecord}
use python_zipline.Blocks.RoundTrip.Every.{block-ReadsBack}
use python_zipline.Frame.{pack, pack_i64, padded}

abbrev pub strange : RawOption
strange = record { option_id = 0x7777; value = 1 ∷ 2 ∷ 3 ∷ [] }

abbrev pub the_record : Record
the_record = record {
  session_id = 7;
  sender_pid = 2;
  source_id = 1;
  timestamp = negsuc 4;
  payload = 65 ∷ 66 ∷ 67 ∷ [];
  flags = 3;
  seq_start = some 900;
  ack = none;
  ts_first = some (pos 12);
  spans =
      record { source_id = 1; session_id = 7; participant_id = 2; off_start = 10; off_end = 25 }
      ∷ [];
  decoder_id = some 4;
  content_type = none;
  role = some (114 ∷ []);
  comment = none;
  extra_options = strange ∷ [];
}

encode_record-record_options_example :
    encode_record the_record
    ≡ with_body (record_body the_record ++ padded the_record.payload) (record_options the_record)
encode_record-record_options_example = encode_record-record_options the_record

pub the_record-IsRecord : IsRecord the_record
unfolding record_fits is_utf8 record_options find_spec pack pack_i64 chunks chunks_loop join_packed
    pack_span span_fits
the_record-IsRecord = record {
  fits = refl;
  comment = tt;
  spans = (refl, tt);
  content_type = tt;
  role = refl;
  options = (
    (omega arith, omega arith),
    (
      (omega arith, omega arith),
      (
        (omega arith, omega arith),
        (
          (omega arith, omega arith),
          ((omega arith, omega arith), ((omega arith, omega arith), tt)),
        ),
      ),
    ),
  );
  extras = (refl, tt);
}

block-ReadsBack_example : ReadsBack (record_block the_record)
block-ReadsBack_example = block-ReadsBack (record_block the_record) the_record-IsRecord

encode_block-IsAligned_example : IsAligned (1 ∷ 2 ∷ 3 ∷ 4 ∷ [])
encode_block-IsAligned_example =
    encode_block-IsAligned (unknown_block 0x50 (1 ∷ 2 ∷ 3 ∷ 4 ∷ [])) (1 ∷ 2 ∷ 3 ∷ 4 ∷ [])
      (omega arith) (unfold encode_block in refl)
