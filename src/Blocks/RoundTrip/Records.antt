-- ===== src/Blocks/RoundTrip/Records.antt =====
-- The round trip of Record of blocks.py, from its fixed encoder.
use mathlib.Core.List.{append_assoc}
use python_zipline.Base.Int.{ℤ, pos, negsuc}
use python_zipline.Blocks.FixedEncoder.{encode_record-record_options}
use python_zipline.Base.{
  ℕ, ◌+◌, ◌^◌, ◌<◌, ◌≡◌, refl, sym, ap, ◌∙◌, true, false, ◌&&◌, [], ◌++◌, ltb, leb, All, length,
  arith, take, drop, length-append, drop-drop,
}
use python_zipline.Base.Outcome.{ok}
use python_zipline.Blocks.Types.{Bytes, Record, record_block}
use python_zipline.Blocks.Values.{u16, u32, span_list, pack_span, chunks, field_at}
use python_zipline.Blocks.RoundTrip.Chunks.{
  IsSpan, span_groups, chunks-span_groups, spans_of-span_groups,
}
use python_zipline.Blocks.Options.{concat, parse_each, no_values, assign, find_spec, spans_of}
use python_zipline.Blocks.Options.Fold.{
  text_values, number_values, integer_values, IsText, HasWidth, IsI64Option, Unknown, fold_text,
  fold_number, fold_integer, fold_repeated, fold_extras,
}
use python_zipline.Blocks.Check.{record_fits}
use python_zipline.Blocks.Encode.{encode_block, record_options, record_body, max_spans_per_option}
use python_zipline.Blocks.Dispatch.{block_type_of, parse_block}
use python_zipline.Blocks.Parse.{record_table, parse_record}
use python_zipline.Blocks.RoundTrip.{
  parse_options-region_of, fold_then, fields_back, u16-IsUint, u32-IsUint, fits_opt-HasWidth,
  fits_i64_opt-IsI64Option, fits_i64-IsI64, encode_with_body, ReadsBack,
}
use python_zipline.Frame.{pack, unpack, pack_i64, unpack_i64, padded, pad4}
use python_zipline.Frame.Words.{unpack-pack, IsI64, unpack_i64-pack_i64}
use python_zipline.Frame.Options.{IsOption, region_of, length-padded, take-padded, drop-padded}

abbrev head : ℕ → ℕ → ℕ → ℤ → ℕ → ℕ → Bytes
head sid pid src time flags len =
    pack 8 sid
    ++ (pack 2 pid ++ (pack 2 src ++ (pack_i64 time ++ (pack 2 0 ++ (pack 2 flags ++ pack 4 len)))))

-- The fixed fields of a record, from its bytes.
abbrev Fields : ℕ → ℕ → ℕ → ℤ → ℕ → ℕ → Bytes → Type 0
Fields sid pid src time flags len content =
    (field_at 0 8 content ≡ unpack (pack 8 sid))
    × (field_at 8 2 content ≡ unpack (pack 2 pid))
    × (field_at 10 2 content ≡ unpack (pack 2 src))
    × (take 8 (drop 12 content) ≡ pack_i64 time)
    × (field_at 22 2 content ≡ unpack (pack 2 flags))
    × (field_at 24 4 content ≡ unpack (pack 4 len))

head-Fields :
    (sid pid src : ℕ) (time : ℤ) (flags len : ℕ) (rest : Bytes)
    → Fields sid pid src time flags len (head sid pid src time flags len ++ rest)
unfolding pack pack_i64
head-Fields sid pid src (pos n) flags len rest = (refl, refl, refl, refl, refl, refl)
head-Fields sid pid src (negsuc n) flags len rest = (refl, refl, refl, refl, refl, refl)

length-head :
    (sid pid src : ℕ) (time : ℤ) (flags len : ℕ) → length (head sid pid src time flags len) ≡ 28
unfolding pack pack_i64
length-head sid pid src (pos n) flags len = omega arith
length-head sid pid src (negsuc n) flags len = omega arith

drop-head :
    (sid pid src : ℕ) (time : ℤ) (flags len : ℕ) (rest : Bytes)
    → drop 28 (head sid pid src time flags len ++ rest) ≡ rest
unfolding pack pack_i64
drop-head sid pid src (pos n) flags len rest = refl
drop-head sid pid src (negsuc n) flags len rest = refl

-- The values that a Record can hold: its constructor takes them, its texts are UTF-8, TLV can hold every
-- option, and the preserved options have ids that its table does not.
pub record IsRecord (x : Record) : Type 0 where
  pub fits : record_fits x ≡ true
  pub comment : IsText x.comment
  pub spans : All IsSpan x.spans
  pub content_type : IsText x.content_type
  pub role : IsText x.role
  pub options : All IsOption (record_options x)
  pub extras : Unknown record_table x.extra_options

module _ (x : Record) (v : IsRecord x) where
  seq_start_width : HasWidth 4 x.seq_start
  unfolding record_fits
  seq_start_width = fits_opt-HasWidth 32 4 x.seq_start refl (ground (arith, v.fits))

  ack_width : HasWidth 4 x.ack
  unfolding record_fits
  ack_width = fits_opt-HasWidth 32 4 x.ack refl (ground (arith, v.fits))

  ts_first_range : IsI64Option x.ts_first
  unfolding record_fits
  ts_first_range = fits_i64_opt-IsI64Option x.ts_first (ground (arith, v.fits))

  decoder_id_width : HasWidth 2 x.decoder_id
  unfolding record_fits
  decoder_id_width = fits_opt-HasWidth 16 2 x.decoder_id refl (ground (arith, v.fits))

  timestamp_range : IsI64 x.timestamp
  unfolding record_fits
  timestamp_range = fits_i64-IsI64 x.timestamp (ground (arith, v.fits))

  record_fold : parse_each record_table (record_options x) (no_values, []) ≡ (
    assign 0x92 (text_values x.role) (
        assign 0x91 (text_values x.content_type) (
          assign 0x90 (number_values x.decoder_id) (
            assign 0x80 (span_groups max_spans_per_option x.spans) (
              assign 0x73 (integer_values x.ts_first) (
                assign 0x72 (number_values x.ack) (
                  assign 0x70
                    (number_values x.seq_start)
                    (assign 0x01 (text_values x.comment) no_values))))))),
    x.extra_options,
  )
  unfolding record_options find_spec
  record_fold =
      fold_then _ _ _ _ _ _ (fold_text record_table 0x01 _ [] x.comment refl v.comment refl) (
        fold_then _ _ _ _ _ _
          (fold_number record_table 0x70 _ [] u32 4 x.seq_start refl u32-IsUint seq_start_width
            refl)
          (fold_then _ _ _ _ _ _
            (fold_number record_table 0x72 _ [] u32 4 x.ack refl u32-IsUint ack_width refl)
            (fold_then _ _ _ _ _ _
              (fold_integer record_table 0x73 _ [] x.ts_first refl ts_first_range refl)
              (fold_then _ _ _ _ _ _
                (fold_repeated record_table 0x80 [] span_list concat
                  (chunks pack_span max_spans_per_option x.spans)
                  (span_groups max_spans_per_option x.spans) _ tt refl
                  (chunks-span_groups max_spans_per_option x.spans v.spans))
                (fold_then _ _ _ _ _ _
                  (fold_number record_table 0x90 _ [] u16 2 x.decoder_id refl u16-IsUint
                    decoder_id_width refl)
                  (fold_then _ _ _ _ _ _
                    (fold_text record_table 0x91 _ [] x.content_type refl v.content_type refl)
                    (fold_then _ _ _ _ _ _
                      (fold_text record_table 0x92 _ [] x.role refl v.role refl)
                      (fold_extras record_table x.extra_options _ [] v.extras))))))))

  session_id_width : x.session_id < 256 ^ 8
  unfolding record_fits
  session_id_width = ground (arith, v.fits)

  sender_pid_width : x.sender_pid < 256 ^ 2
  unfolding record_fits
  sender_pid_width = ground (arith, v.fits)

  source_id_width : x.source_id < 256 ^ 2
  unfolding record_fits
  source_id_width = ground (arith, v.fits)

  flags_width : x.flags < 256 ^ 2
  unfolding record_fits
  flags_width = ground (arith, v.fits)

  payload_width : length x.payload < 256 ^ 4
  unfolding record_fits
  payload_width = ground (arith, v.fits)

  abbrev content : Bytes
  content = (record_body x ++ padded x.payload) ++ region_of (record_options x)

  content-head :
      content
      ≡ head x.session_id x.sender_pid x.source_id x.timestamp x.flags (length x.payload)
        ++ (padded x.payload ++ region_of (record_options x))
  unfolding record_body
  content-head =
      append_assoc
        (head x.session_id x.sender_pid x.source_id x.timestamp x.flags (length x.payload))
        (padded x.payload) (region_of (record_options x))

  fields :
      Fields x.session_id x.sender_pid x.source_id x.timestamp x.flags (length x.payload) content
  fields = rw content-head (
      head-Fields x.session_id x.sender_pid x.source_id x.timestamp x.flags (length x.payload)
        (padded x.payload ++ region_of (record_options x)))

  behind_body : drop 28 content ≡ padded x.payload ++ region_of (record_options x)
  behind_body =
      ap (drop 28) content-head
      ∙ drop-head x.session_id x.sender_pid x.source_id x.timestamp x.flags (length x.payload)
          (padded x.payload ++ region_of (record_options x))

  behind_payload :
      drop (28 + length x.payload + pad4 (length x.payload)) content ≡ region_of (record_options x)
  behind_payload =
      let sum : 28 + length x.payload + pad4 (length x.payload)
          ≡ 28 + (length x.payload + pad4 (length x.payload)) =
        omega arith in
      ap (λ t. drop t content) sum
      ∙ sym (drop-drop 28 (length x.payload + pad4 (length x.payload)) content)
      ∙ ap (drop (length x.payload + pad4 (length x.payload))) behind_body
      ∙ drop-padded x.payload (region_of (record_options x))

  length-content :
      length content
      ≡ 28 + (length x.payload + pad4 (length x.payload) + length (region_of (record_options x)))
  length-content =
      ap length content-head
      ∙ omega (
        arith,
        length-append
            (head x.session_id x.sender_pid x.source_id x.timestamp x.flags (length x.payload))
            (padded x.payload ++ region_of (record_options x)),
        length-head x.session_id x.sender_pid x.source_id x.timestamp x.flags (length x.payload),
        length-append (padded x.payload) (region_of (record_options x)),
        length-padded x.payload,
      )

  record_back : parse_record content ≡ ok (record_block x)
  unfolding parse_record
  record_back =
      let (f₁, f₂, f₃, f₄, f₅, f₆) = fields in
      let sid : field_at 0 8 content ≡ x.session_id =
        f₁ ∙ unpack-pack 8 x.session_id session_id_width in
      let pid : field_at 8 2 content ≡ x.sender_pid =
        f₂ ∙ unpack-pack 2 x.sender_pid sender_pid_width in
      let src : field_at 10 2 content ≡ x.source_id =
        f₃ ∙ unpack-pack 2 x.source_id source_id_width in
      let time : unpack_i64 (take 8 (drop 12 content)) ≡ x.timestamp =
        ap unpack_i64 f₄ ∙ unpack_i64-pack_i64 x.timestamp timestamp_range in
      let flags : field_at 22 2 content ≡ x.flags = f₅ ∙ unpack-pack 2 x.flags flags_width in
      let len : field_at 24 4 content ≡ length x.payload =
        f₆ ∙ unpack-pack 4 (length x.payload) payload_width in
      let payload : take (length x.payload) (drop 28 content) ≡ x.payload =
        ap (take (length x.payload)) behind_body
        ∙ take-padded x.payload (region_of (record_options x)) in
      let holds : (leb (28 + length x.payload) (length content)
            && leb (28 + length x.payload + pad4 (length x.payload)) (length content))
          ≡ true =
        ground (arith, length-content) in
      let spans_back : spans_of (span_groups max_spans_per_option x.spans) ≡ x.spans =
        spans_of-span_groups max_spans_per_option x.spans (omega arith) in
      rw (len, holds)
        (rw
          (
            behind_payload,
            parse_options-region_of record_table (record_options x) v.options,
            record_fold,
          )
          (simp (sid, pid, src, time, flags, payload, spans_back, fields_back) (rw v.fits)))

  -- A Record is written, and what is written is read back as it was.
  pub record-ReadsBack : ReadsBack (record_block x)
  unfolding encode_block block_type_of parse_block
  record-ReadsBack =
      let enough : ltb (length content) 28 ≡ false = ground (arith, length-content) in
      (
        content,
        encode_record-record_options x
            ∙ encode_with_body (record_body x ++ padded x.payload) (record_options x) v.options,
        rw (enough, record_back),
      )
