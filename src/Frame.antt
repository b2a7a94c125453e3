-- ===== src/Frame.antt =====
-- _frame.py: little-endian numbers, 4-byte alignment and TLV options. A `struct` code packs each
-- number to its width; the values are in range there, since every block checks its fields.
pub mod Words
pub mod Options
use python_zipline.Base.{
  ℕ, zero, suc, ◌+◌, ◌-◌, ◌*◌, ◌/◌, ◌%◌, ◌^◌, Bool, List, [], ◌∷◌, ◌++◌, ltb, leb, if◌then◌else◌,
  length, take, drop, replicate,
}
use python_zipline.Base.Int.{ℤ, pos, negsuc}
use python_zipline.Base.Outcome.{Outcome, ok, raised, structural, encode, ◌>>=◌}
use python_zipline.Blocks.Types.{Bytes, RawOption}

-- The little-endian codes: `<B`, `<H`, `<I`, `<Q` for the widths 1, 2, 4 and 8.
unfoldable pub pack : ℕ → ℕ → Bytes
pack zero value = []
pack (suc width) value = (value % 256) ∷ pack width (value / 256)

unfoldable pub unpack : Bytes → ℕ
unpack [] = 0
unpack (b ∷ bs) = b + 256 * unpack bs

-- `<q`
unfoldable pub pack_i64 : ℤ → Bytes
pack_i64 (pos n) = pack 8 n
pack_i64 (negsuc n) = pack 8 (2 ^ 64 - 1 - n)

unfoldable pub signed_64 : ℕ → ℤ
signed_64 u = if ltb u (2 ^ 63) then pos u else negsuc (2 ^ 64 - 1 - u)

unfoldable pub unpack_i64 : Bytes → ℤ
unfolding signed_64
unpack_i64 bs = signed_64 (unpack bs)

-- `-length % 4`, which Python takes of the negative number.
unfoldable pub pad4 : ℕ → ℕ
pad4 length = (4 - length % 4) % 4

unfoldable pub padded : Bytes → Bytes
padded data' = data' ++ replicate (pad4 (length data')) 0

abbrev pub max_option_value : ℕ
max_option_value = 0xFFFF

unfoldable pub option_bytes : ℕ → Bytes → Bytes
option_bytes option_id value = pack 2 option_id ++ (pack 2 (length value) ++ padded value)

unfoldable pub encode_option : ℕ → Bytes → Outcome Bytes
encode_option option_id value =
    if ltb max_option_value (length value) then raised encode else ok (option_bytes option_id value)

abbrev pub cons_option : RawOption → Outcome (List RawOption) → Outcome (List RawOption)
cons_option o (ok os) = ok (o ∷ os)
cons_option o (raised e) = raised e

-- One turn of the loop of `iter_options` behind an option header, over the bytes that follow it;
-- `next` is the loop from the next option on.
option_turn : ℕ → ℕ → Bytes → (Bytes → Outcome (List RawOption)) → Outcome (List RawOption)
option_turn option_id value_len rest next =
    let more = next (drop (value_len + pad4 value_len) rest) in
    if ltb (length rest) value_len
    then raised structural
    else cons_option (record { option_id = option_id; value = take value_len rest }) more

-- The loop over what `pos` has not passed.
pub iter_turn : Bytes → (Bytes → Outcome (List RawOption)) → Outcome (List RawOption)
unfolding option_turn
iter_turn (a ∷ b ∷ c ∷ d ∷ rest) next =
    option_turn (unpack (a ∷ b ∷ [])) (unpack (c ∷ d ∷ [])) rest next
iter_turn [] next = ok []
iter_turn short next = raised structural

iter_loop : ℕ → Bytes → Outcome (List RawOption)
unfolding iter_turn
iter_loop zero region = ok []
iter_loop (suc fuel) region = iter_turn region (iter_loop fuel)

-- Each turn takes four bytes at least; the loop is given a turn per byte and one more.
unfoldable pub iter_options : Bytes → Outcome (List RawOption)
unfolding iter_loop
iter_options region = iter_loop (suc (length region)) region
