-- ===== src/Blocks/RoundTrip.antt =====
-- Writing and reading a block of blocks.py: the steps that every class shares.
pub mod Descriptors
pub mod Streams
pub mod Container
pub mod Chunks
pub mod SessionEnds
pub mod Records
pub mod Every
pub mod Sessions
use mathlib.Core.List.{append_assoc}
use python_zipline.Base.{
  ℕ, zero, suc, ◌+◌, ◌^◌, ◌≤◌, ◌<◌, ◌≡◌, refl, sym, ap, ◌∙◌, Bool, true, false, Option, none, some,
  List, [], ◌∷◌, ◌++◌, ◌&&◌, ltb, ltb→lt, if◌then◌else◌, All, length, arith, length-append,
}
use python_zipline.Base.Int.{ℤ}
use python_zipline.Base.Outcome.{Outcome, ok, raised, encode, ◌>>=◌}
use python_zipline.Blocks.Types.{Bytes, Text, RawOption, Block}
use python_zipline.Blocks.Values.{Codec, decode, number, u8, u16, u32, u64}
use python_zipline.Blocks.Options.{
  OptSpec, Values, Parsed, parse_each, parse_options, no_values, text_of, raw_of, number_of,
  integer_of, encode_raws,
}
use python_zipline.Blocks.Options.Fold.{
  parse_each-append, text_values, raw_values, number_values, integer_values, IsUint, HasWidth,
  IsI64Option,
}
use python_zipline.Blocks.Check.{checked, fits_opt, fits_i64, fits_i64_opt}
use python_zipline.Blocks.Encode.{encode_block, with_body}
use python_zipline.Blocks.Dispatch.{BlockObject, block_type_of, parse_block}
use python_zipline.Frame.{pack, unpack, encode_option, option_bytes, max_option_value}
use python_zipline.Frame.Words.{IsI64}
use python_zipline.Frame.Options.{IsOption, region_of, iter_options-region_of}

-- Options that TLV can hold are encoded one after the other.
pub encode_raws-region_of :
    (os : List RawOption) → All IsOption os → encode_raws os ≡ ok (region_of os)
unfolding encode_raws region_of encode_option
encode_raws-region_of [] h = refl
encode_raws-region_of (o ∷ os) h =
    let short : ltb max_option_value (length o.value) ≡ false = ground arith in
    rw short (rw (encode_raws-region_of os h.1))

-- Their region is parsed as they stand.
pub parse_options-region_of :
    (table : List OptSpec) (os : List RawOption)
    → All IsOption os
    → parse_options table (region_of os) ≡ ok (parse_each table os (no_values, []))
unfolding parse_options
parse_options-region_of table os h = rw (iter_options-region_of os h)

-- One field's options, and then the rest.
pub fold_then :
    (table : List OptSpec) (xs ys : List RawOption) (p p' p'' : Parsed)
    → parse_each table xs p ≡ p'
    → parse_each table ys p' ≡ p''
    → parse_each table (xs ++ ys) p ≡ p''
fold_then table xs ys p p' p'' h k =
    parse_each-append table xs ys p ∙ ap (parse_each table ys) h ∙ k

pub text_of-values : (o : Option Text) → text_of (text_values o) ≡ o
text_of-values none = refl
text_of-values (some t) = refl

pub raw_of-values : (o : Option Bytes) → raw_of (raw_values o) ≡ o
raw_of-values none = refl
raw_of-values (some b) = refl

pub number_of-values : (o : Option ℕ) → number_of (number_values o) ≡ o
number_of-values none = refl
number_of-values (some n) = refl

pub integer_of-values : (o : Option ℤ) → integer_of (integer_values o) ≡ o
integer_of-values none = refl
integer_of-values (some z) = refl

pub ruleset fields_back = (text_of-values, raw_of-values, number_of-values, integer_of-values)

pub checked-ok {ℓ} : {A : Type ℓ} (test : A → Bool) (a : A) → test a ≡ true → checked test a ≡ ok a
checked-ok test a h = rw h

pub u8-IsUint : IsUint u8 1
unfolding decode
u8-IsUint bs h = ground arith

pub u16-IsUint : IsUint u16 2
unfolding decode
u16-IsUint bs h = ground arith

pub u32-IsUint : IsUint u32 4
unfolding decode
u32-IsUint bs h = ground arith

pub u64-IsUint : IsUint u64 8
unfolding decode
u64-IsUint bs h = ground arith

pub and_true : (a b : Bool) → (a && b) ≡ true → (a ≡ true) × (b ≡ true)
and_true a b h = ground arith

-- The checks of the constructors, as widths.
pub fits_opt-HasWidth :
    (bits width : ℕ) (o : Option ℕ)
    → 2 ^ bits ≡ 256 ^ width
    → fits_opt bits o ≡ true
    → HasWidth width o
fits_opt-HasWidth bits width none e h = tt
fits_opt-HasWidth bits width (some n) e h = rw (← e) (ltb→lt n (2 ^ bits) h)

pub fits_i64-IsI64 : (z : ℤ) → fits_i64 z ≡ true → IsI64 z
fits_i64-IsI64 z h = ground arith

pub fits_i64_opt-IsI64Option : (o : Option ℤ) → fits_i64_opt o ≡ true → IsI64Option o
fits_i64_opt-IsI64Option none h = tt
fits_i64_opt-IsI64Option (some z) h = fits_i64-IsI64 z h

pub encode_with_body :
    (bd : Bytes) (os : List RawOption) → All IsOption os → with_body bd os ≡ ok (bd ++ region_of os)
encode_with_body bd os h = rw (encode_raws-region_of os h)

-- What a block writes is read back as that block, with the bytes cached.
abbrev pub ReadsBack : Block → Type 0
ReadsBack b =
    (content : Bytes) × (encode_block b ≡ ok content)
    × (parse_block (block_type_of b) content ≡ ok (record { block = b; content = some content }))
