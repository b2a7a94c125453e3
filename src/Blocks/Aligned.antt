-- ===== src/Blocks/Aligned.antt =====
-- The length of what `to_bytes` of blocks.py returns.
use python_zipline.Base.{
  ℕ, ◌%◌, ◌≡◌, sym, ◌∙◌, true, List, [], ◌∷◌, ◌++◌, ltb, ◌==◌, length, arith, length-append,
  Bool-cases, inl, inr,
}
use python_zipline.Base.Outcome.{ok, >>=-eq-ok, ok-injective}
use python_zipline.Blocks.Types.{
  Bytes, RawOption, Record, Custom, Block, file_header, source, decoder, session, participant,
  session_end, record_block, undecoded, discontinuity, name_resolution, end, custom, unknown_block,
}
use python_zipline.Blocks.Values.{pack_span}
use python_zipline.Blocks.Options.{encode_raws}
use python_zipline.Blocks.Check.{custom_fits}
use python_zipline.Blocks.Encode.{
  with_body, encode_block, record_body, record_options, custom_content, file_header_body,
  source_body, decoder_body, participant_body, region_of_input, stream_body, end_magic,
}
use python_zipline.Blocks.FixedEncoder.{encode_record-record_options}
use python_zipline.Frame.{pack, pack_i64, padded, encode_option, option_bytes, max_option_value}
use python_zipline.Frame.Words.{length-pack_i64, pad4_lem}
use python_zipline.Frame.Options.{length-padded}

abbrev pub IsAligned : Bytes → Type 0
IsAligned bs = length bs % 4 ≡ 0

IsAligned-append : (xs ys : Bytes) → IsAligned xs → IsAligned ys → IsAligned (xs ++ ys)
IsAligned-append xs ys h k = omega (arith, length-append xs ys, h, k)

padded-IsAligned : (bs : Bytes) → IsAligned (padded bs)
padded-IsAligned bs = let size = length-padded bs in omega (arith, size, (pad4_lem (length bs)).1)

option_bytes-IsAligned : (id : ℕ) (v : Bytes) → IsAligned (option_bytes id v)
unfolding option_bytes pack
option_bytes-IsAligned id v = omega (arith, padded-IsAligned v)

encode_option-IsAligned : (id : ℕ) (v c : Bytes) → encode_option id v ≡ ok c → IsAligned c
unfolding encode_option
encode_option-IsAligned id v c h = elim (Bool-cases (ltb max_option_value (length v))) [
  | inl t ↦ cc (rw t at h)
  | inr t ↦ rw (← ok-injective (rw t at h)) (option_bytes-IsAligned id v)
]

encode_raws-IsAligned : (os : List RawOption) (c : Bytes) → encode_raws os ≡ ok c → IsAligned c
unfolding encode_raws
encode_raws-IsAligned [] c h = rw (← ok-injective h) (omega arith)
encode_raws-IsAligned (o ∷ os) c h =
    let (first, p, h₁) = >>=-eq-ok (encode_option o.option_id o.value) _ h in
    let (rest, q, h₂) = >>=-eq-ok (encode_raws os) _ h₁ in
    rw (← ok-injective h₂) (
      IsAligned-append first rest (encode_option-IsAligned o.option_id o.value first p)
        (encode_raws-IsAligned os rest q))

with_body-IsAligned :
    (bd : Bytes) (os : List RawOption) (c : Bytes)
    → IsAligned bd
    → with_body bd os ≡ ok c
    → IsAligned c
with_body-IsAligned bd os c a h =
    let (rest, q, h₁) = >>=-eq-ok (encode_raws os) (λ rest. ok (bd ++ rest)) h in
    rw (← ok-injective h₁) (IsAligned-append bd rest a (encode_raws-IsAligned os rest q))

record_body-IsAligned : (r : Record) → IsAligned (record_body r)
unfolding record_body pack
record_body-IsAligned r =
    let tail : Bytes = pack 2 0 ++ (pack 2 r.flags ++ pack 4 (length r.payload)) in
    omega (arith, length-append (pack_i64 r.timestamp) tail, length-pack_i64 r.timestamp)

-- The two classes whose constructor or caller gives the content.
abbrev pub HoldsWhole : Block → Type 0
HoldsWhole (custom c) = custom_fits c ≡ true
HoldsWhole (unknown_block t c) = IsAligned c
HoldsWhole b = Unit {0}

custom-IsAligned : (c : Custom) → custom_fits c ≡ true → IsAligned (custom_content c)
unfolding custom_content custom_fits pack
custom-IsAligned c h =
    let whole : (length c.payload % 4 == 0) ≡ true = ground (arith, h) in ground (arith, whole)

-- What a block of any class encodes to is a multiple of 4 bytes; of an unknown block this holds where
-- it holds of the content that it was built with.
pub encode_block-IsAligned :
    (b : Block) (c : Bytes) → HoldsWhole b → encode_block b ≡ ok c → IsAligned c
unfolding encode_block pack file_header_body source_body decoder_body participant_body pack_span
encode_block-IsAligned (file_header x) c v h =
    with_body-IsAligned (file_header_body x) _ c (omega arith) h
encode_block-IsAligned (source x) c v h = with_body-IsAligned (source_body x) _ c (omega arith) h
encode_block-IsAligned (decoder x) c v h = with_body-IsAligned (decoder_body x) _ c (omega arith) h
encode_block-IsAligned (session x) c v h =
    with_body-IsAligned (pack 8 x.session_id) _ c (omega arith) h
encode_block-IsAligned (participant x) c v h =
    with_body-IsAligned (participant_body x) _ c (omega arith) h
encode_block-IsAligned (session_end x) c v h =
    with_body-IsAligned (pack 8 x.session_id) _ c (omega arith) h
encode_block-IsAligned (record_block r) c v h =
    with_body-IsAligned (record_body r ++ padded r.payload) (record_options r) c
      (IsAligned-append (record_body r) (padded r.payload) (record_body-IsAligned r)
        (padded-IsAligned r.payload))
      (sym (encode_record-record_options r) ∙ h)
encode_block-IsAligned (undecoded x) c v h =
    with_body-IsAligned (pack_span (region_of_input x)) _ c (omega arith) h
encode_block-IsAligned (discontinuity x) c v h =
    with_body-IsAligned (stream_body x.session_id x.participant_id) _ c (omega arith) h
encode_block-IsAligned (name_resolution x) c v h =
    with_body-IsAligned (stream_body x.session_id x.participant_id) _ c (omega arith) h
encode_block-IsAligned (end x) c v h = with_body-IsAligned (pack 4 end_magic) _ c (omega arith) h
encode_block-IsAligned (custom x) c v h = rw (← ok-injective h) (custom-IsAligned x v)
encode_block-IsAligned (unknown_block t x) c v h = rw (← ok-injective h) v
