-- ===== src/Blocks/Options.antt =====
-- `_OptSpec`, `_parse_options` and `_encode_options` of blocks.py. A field of a block is named by the
-- id of its option, since no two options of a block share a field.
pub mod Fold
use python_zipline.Base.{
  ℕ, zero, suc, ◌+◌, Bool, true, false, Option, none, some, List, [], ◌∷◌, ◌++◌, map, ◌==◌,
  if◌then◌else◌,
}
use python_zipline.Base.Int.{ℤ}
use python_zipline.Base.Outcome.{Outcome, ok, raised, ◌>>=◌}
use python_zipline.Blocks.Types.{Bytes, Text, RawOption, Span, InputExtent}
use python_zipline.Blocks.Values.{Value, text, raw, number, integer, spans, extents, Codec, decode}
use python_zipline.Frame.{pack, pack_i64, encode_option, iter_options}

pub data Mode : Type 0 where
  single many concat : Mode

pub record OptSpec : Type 0 where
  pub option_id : ℕ
  pub codec : Codec
  pub mode : Mode

abbrev pub spec : ℕ → Codec → Mode → OptSpec
spec option_id codec mode = record { option_id = option_id; codec = codec; mode = mode }

-- `specs_by_id.get(option_id)`
unfoldable pub find_spec : ℕ → List OptSpec → Option OptSpec
find_spec option_id [] = none
find_spec option_id (s ∷ rest) =
    if s.option_id == option_id then some s else find_spec option_id rest

-- The values of a block's options so far, in file order, by option id.
abbrev pub Values : Type 0
Values = ℕ → List Value

abbrev pub no_values : Values
no_values id = []

abbrev pub assign : ℕ → List Value → Values → Values
assign id vs f j = if id == j then vs else f j

abbrev pub Parsed : Type 0
Parsed = Values × List RawOption

unfoldable pub keep_raw : RawOption → Parsed → Parsed
keep_raw o (f, extras) = (f, extras ++ (o ∷ []))

store_single : RawOption → Value → List Value → Parsed → Parsed
unfolding keep_raw
store_single o v [] (f, extras) = (assign o.option_id (v ∷ []) f, extras)
store_single o v (w ∷ ws) p = keep_raw o p

store : RawOption → Value → Mode → Parsed → Parsed
unfolding store_single
store o v single p = store_single o v (p.0 o.option_id) p
store o v many (f, extras) = (assign o.option_id (f o.option_id ++ (v ∷ [])) f, extras)
store o v concat (f, extras) = (assign o.option_id (f o.option_id ++ (v ∷ [])) f, extras)

store_decoded : RawOption → Mode → Option Value → Parsed → Parsed
unfolding store keep_raw
store_decoded o mode none p = keep_raw o p
store_decoded o mode (some v) p = store o v mode p

-- One turn of the loop of `_parse_options`.
parse_one : RawOption → Option OptSpec → Parsed → Parsed
unfolding store_decoded keep_raw
parse_one o none p = keep_raw o p
parse_one o (some s) p = store_decoded o s.mode (decode s.codec o.value) p

unfoldable pub parse_each : List OptSpec → List RawOption → Parsed → Parsed
unfolding parse_one
parse_each table [] p = p
parse_each table (o ∷ os) p = parse_each table os (parse_one o (find_spec o.option_id table) p)

unfoldable pub parse_options : List OptSpec → Bytes → Outcome Parsed
unfolding parse_each
parse_options table region = iter_options region >>= λ os. ok (parse_each table os (no_values, []))

-- What the constructor is given for a field: the value of a single option, the tuple of a repeated
-- one, the concatenation of a packed one.
abbrev pub text_of : List Value → Option Text
text_of (text t ∷ vs) = some t
text_of vs = none

abbrev pub raw_of : List Value → Option Bytes
raw_of (raw b ∷ vs) = some b
raw_of vs = none

abbrev pub number_of : List Value → Option ℕ
number_of (number n ∷ vs) = some n
number_of vs = none

abbrev pub integer_of : List Value → Option ℤ
integer_of (integer z ∷ vs) = some z
integer_of vs = none

abbrev pub texts_of : List Value → List Text
texts_of [] = []
texts_of (text t ∷ vs) = t ∷ texts_of vs
texts_of (v ∷ vs) = texts_of vs

abbrev pub spans_of : List Value → List Span
spans_of [] = []
spans_of (spans ss ∷ vs) = ss ++ spans_of vs
spans_of (v ∷ vs) = spans_of vs

abbrev pub extents_of : List Value → List InputExtent
extents_of [] = []
extents_of (extents es ∷ vs) = es ++ extents_of vs
extents_of (v ∷ vs) = extents_of vs

-- One option for each of the encoded values.
abbrev pub options : ℕ → List Bytes → List RawOption
options id [] = []
options id (b ∷ bs) = record { option_id = id; value = b } ∷ options id bs

-- The options of an optional field: `_pack_str` and `_pack_bytes` write the bytes themselves.
abbrev pub bytes_option : ℕ → Option Bytes → List RawOption
bytes_option id none = []
bytes_option id (some b) = options id (b ∷ [])

abbrev pub uint_option : ℕ → ℕ → Option ℕ → List RawOption
uint_option id width none = []
uint_option id width (some n) = options id (pack width n ∷ [])

abbrev pub i64_option : ℕ → Option ℤ → List RawOption
i64_option id none = []
i64_option id (some z) = options id (pack_i64 z ∷ [])

-- `parts.extend(encode_option(…))` and the join.
unfoldable pub encode_raws : List RawOption → Outcome Bytes
encode_raws [] = ok []
encode_raws (o ∷ os) = do
  first ← encode_option o.option_id o.value
  rest ← encode_raws os
  ok (first ++ rest)
