-- ===== src/Content/Integers.antt =====
-- The integers of the prim: scheme.
use python_zipline.Base.{
  ℕ, ◌-◌, ◌*◌, ◌^◌, ◌<◌, ◌≤◌, ◌≡◌, refl, sym, ◌∙◌, Bool, true, false, none, some, length, arith,
  Bool-cases, inl, inr,
}
use python_zipline.Base.Int.{ℤ, pos, negsuc, pos_part, neg_part}
use python_zipline.Base.Dict.{nat_eq, list_eq, lookup}
use python_zipline.Blocks.Types.{Bytes, Text}
use python_zipline.Frame.{pack}
use python_zipline.Frame.Words.{length-pack, unpack-pack}
use python_zipline.Content.{
  prim_widths, prim_bytes, width_fault, prim_fault, is_signed, integer_value, int_from_bytes,
  decode_prim,
}

-- The little-endian two's complement code of an integer.
unfoldable pub two_complement : ℕ → ℤ → Bytes
two_complement width (pos n) = pack width n
two_complement width (negsuc n) = pack width (256 ^ width - 1 - n)

-- The range of the integers of one width and signedness.
abbrev pub Fits : Bool → ℕ → ℤ → Type 0
Fits false width z = (neg_part z ≡ 0) × (pos_part z < 256 ^ width)
Fits true width z = (2 * pos_part z < 256 ^ width) × (2 * neg_part z ≤ 256 ^ width)

int_from_bytes-two_complement :
    (signed : Bool) (width : ℕ) (z : ℤ)
    → Fits signed width z
    → int_from_bytes (two_complement width z) signed ≡ z
unfolding int_from_bytes two_complement
int_from_bytes-two_complement false width (pos n) h = rw (unpack-pack width n (omega arith)) refl
int_from_bytes-two_complement false width (negsuc n) h = absurd (omega arith)
int_from_bytes-two_complement true width (pos n) h =
    ground (arith, unpack-pack width n (omega arith), length-pack width n)
int_from_bytes-two_complement true width (negsuc n) h = ground (
  arith,
  unpack-pack width (256 ^ width - 1 - n) (omega arith),
  length-pack width (256 ^ width - 1 - n),
)

length-two_complement : (width : ℕ) (z : ℤ) → length (two_complement width z) ≡ width
unfolding two_complement
length-two_complement width (pos n) = length-pack width n
length-two_complement width (negsuc n) = length-pack width (256 ^ width - 1 - n)

lookup-prim_bytes : lookup prim_bytes prim_widths ≡ none
unfolding lookup
lookup-prim_bytes = refl

-- `bytes` is no integer token.
integer_token :
    (token : Text) (width : ℕ)
    → lookup token prim_widths ≡ some width
    → list_eq.beq token prim_bytes ≡ false
integer_token token width h = elim (Bool-cases (list_eq.beq token prim_bytes)) [
  | inl same ↦
      let e : token ≡ prim_bytes = (list_eq.beq_iff token prim_bytes).0 same in
      let found : lookup prim_bytes prim_widths ≡ some width = rw (← e) h in
      let clash : none ≡ some width = sym lookup-prim_bytes ∙ found in cc
  | inr other ↦ other
]

-- An integer that fits the width and the signedness of an integer token is read back from its
-- little-endian two's complement code.
pub decode_prim-two_complement :
    (token : Text) (width : ℕ) (z : ℤ)
    → lookup token prim_widths ≡ some width
    → Fits (is_signed token) width z
    → decode_prim (two_complement width z) token ≡ some (integer_value z)
unfolding decode_prim prim_fault width_fault
decode_prim-two_complement token width z h fits =
    let other = integer_token token width h in
    let size = length-two_complement width z in
    let value = int_from_bytes-two_complement (is_signed token) width z fits in
    ground (arith, other, h, size, value)
