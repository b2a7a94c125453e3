-- ===== src/Blocks/Options/Fold.antt =====
-- `_parse_options` of blocks.py over the options that `_encode_options` writes for one field.
use mathlib.Core.Path.{fun_ext}
use mathlib.Core.List.{append-nil, append_assoc}
use python_zipline.Base.{
  ℕ, ◌^◌, ◌<◌, ◌≡◌, refl, sym, ap, ◌∙◌, true, Option, none, some, List, [], ◌∷◌, ◌++◌, ◌==◌,
  Bool-cases, inl, inr, ==_iff, length,
}
use python_zipline.Base.Int.{ℤ}
use python_zipline.Blocks.Types.{Bytes, Text, RawOption}
use python_zipline.Blocks.Values.{
  Value, text, raw, number, integer, Codec, decode, is_utf8, str, i64, opaque,
}
use python_zipline.Blocks.Options.{
  Mode, single, many, concat, OptSpec, spec, find_spec, Values, assign, Parsed, parse_one,
  parse_each, options, bytes_option, uint_option, i64_option,
}
use python_zipline.Frame.{pack, unpack, pack_i64}
use python_zipline.Frame.Words.{
  unpack-pack, length-pack, unpack_i64-pack_i64, length-pack_i64, IsI64,
}

pub parse_each-append :
    (table : List OptSpec) (xs ys : List RawOption) (p : Parsed)
    → parse_each table (xs ++ ys) p ≡ parse_each table ys (parse_each table xs p)
unfolding parse_each
parse_each-append table [] ys p = refl
parse_each-append table (x ∷ xs) ys p =
    parse_each-append table xs ys (parse_one x (find_spec x.option_id table) p)

assign_self : (id : ℕ) (f : Values) → assign id (f id) f ≡ f
assign_self id f =
    fun_ext λ j. elim (Bool-cases (id == j)) [
      | inl t ↦ rw t (ap f ((==_iff id j).0 t))
      | inr t ↦ rw t refl
    ]

assign_nil : (id : ℕ) (f : Values) → f id ≡ [] → assign id [] f ≡ f
assign_nil id f h = ap (λ vs. assign id vs f) (sym h) ∙ assign_self id f

assign-assign :
    (id : ℕ) (vs ws : List Value) (f : Values) → assign id ws (assign id vs f) ≡ assign id ws f
assign-assign id vs ws f = fun_ext λ j. elim (Bool-cases (id == j)) [ inl t ↦ rw t | inr t ↦ rw t ]

assign_here : (id : ℕ) (vs : List Value) (f : Values) → assign id vs f id ≡ vs
assign_here id vs f = let t : (id == id) ≡ true = (==_iff id id).1 refl in rw t

module _ (table : List OptSpec) (id : ℕ) (f : Values) (extras : List RawOption) where
  fold_single :
      (codec : Codec) (b : Bytes) (v : Value)
      → find_spec id table ≡ some (spec id codec single)
      → decode codec b ≡ some v
      → f id ≡ []
      → parse_each table (options id (b ∷ [])) (f, extras) ≡ (assign id (v ∷ []) f, extras)
  unfolding parse_each
  fold_single codec b v s d h = rw (s, parse_one) (rw (d, parse_one) (rw h))

-- The values of one field.
abbrev pub text_values : Option Text → List Value
text_values none = []
text_values (some t) = text t ∷ []

abbrev pub raw_values : Option Bytes → List Value
raw_values none = []
raw_values (some b) = raw b ∷ []

abbrev pub number_values : Option ℕ → List Value
number_values none = []
number_values (some n) = number n ∷ []

abbrev pub integer_values : Option ℤ → List Value
integer_values none = []
integer_values (some z) = integer z ∷ []

abbrev pub IsText : Option Text → Type 0
IsText none = Unit {0}
IsText (some t) = is_utf8 t ≡ true

abbrev pub HasWidth : ℕ → Option ℕ → Type 0
HasWidth width none = Unit {0}
HasWidth width (some n) = n < 256 ^ width

abbrev pub IsI64Option : Option ℤ → Type 0
IsI64Option none = Unit {0}
IsI64Option (some z) = IsI64 z

-- The codec of an unsigned number of so many bytes.
abbrev pub IsUint : Codec → ℕ → Type 0
IsUint codec width = (bs : Bytes) → length bs ≡ width → decode codec bs ≡ some (number (unpack bs))

decode_uint :
    (codec : Codec) (width n : ℕ)
    → IsUint codec width
    → n < 256 ^ width
    → decode codec (pack width n) ≡ some (number n)
decode_uint codec width n c h =
    c (pack width n) (length-pack width n) ∙ ap (λ t. some (number t)) (unpack-pack width n h)

decode_i64 : (z : ℤ) → IsI64 z → decode i64 (pack_i64 z) ≡ some (integer z)
unfolding decode
decode_i64 z h =
    let eight : (length (pack_i64 z) == 8) ≡ true = (==_iff _ 8).1 (length-pack_i64 z) in
    rw eight (ap (λ t. some (integer t)) (unpack_i64-pack_i64 z h))

decode_str : (t : Text) → is_utf8 t ≡ true → decode str t ≡ some (text t)
unfolding decode
decode_str t h = rw h

module _ (table : List OptSpec) (id : ℕ) (f : Values) (extras : List RawOption) where
  fold_none : f id ≡ [] → ◌≡◌ {A = Parsed} (f, extras) (assign id [] f, extras)
  fold_none h = ap (λ t. (t, extras)) (sym (assign_nil id f h))

  pub fold_text :
      (o : Option Text)
      → find_spec id table ≡ some (spec id str single)
      → IsText o
      → f id ≡ []
      → parse_each table (bytes_option id o) (f, extras) ≡ (assign id (text_values o) f, extras)
  fold_text none s t h = unfold parse_each in fold_none h
  fold_text (some b) s t h = fold_single table id f extras str b (text b) s (decode_str b t) h

  pub fold_raw :
      (o : Option Bytes)
      → find_spec id table ≡ some (spec id opaque single)
      → f id ≡ []
      → parse_each table (bytes_option id o) (f, extras) ≡ (assign id (raw_values o) f, extras)
  fold_raw none s h = unfold parse_each in fold_none h
  fold_raw (some b) s h = fold_single table id f extras opaque b (raw b) s (unfold decode in refl) h

  pub fold_number :
      (codec : Codec) (width : ℕ) (o : Option ℕ)
      → find_spec id table ≡ some (spec id codec single)
      → IsUint codec width
      → HasWidth width o
      → f id ≡ []
      → parse_each table (uint_option id width o) (f, extras)
        ≡ (assign id (number_values o) f, extras)
  fold_number codec width none s c t h = unfold parse_each in fold_none h
  fold_number codec width (some n) s c t h =
      fold_single table id f extras codec (pack width n) (number n) s
        (decode_uint codec width n c t) h

  pub fold_integer :
      (o : Option ℤ)
      → find_spec id table ≡ some (spec id i64 single)
      → IsI64Option o
      → f id ≡ []
      → parse_each table (i64_option id o) (f, extras) ≡ (assign id (integer_values o) f, extras)
  fold_integer none s t h = unfold parse_each in fold_none h
  fold_integer (some z) s t h =
      fold_single table id f extras i64 (pack_i64 z) (integer z) s (decode_i64 z t) h

-- The values that a repeated option decodes to.
abbrev pub DecodeTo : Codec → List Bytes → List Value → Type 0
DecodeTo codec [] [] = Unit {0}
DecodeTo codec (b ∷ bs) (v ∷ vs) = (decode codec b ≡ some v) × DecodeTo codec bs vs
DecodeTo codec [] (v ∷ vs) = ⊥
DecodeTo codec (b ∷ bs) [] = ⊥

-- A repeatable mode: `many` or `concat`.
abbrev pub Repeats : Mode → Type 0
Repeats single = ⊥
Repeats many = Unit {0}
Repeats concat = Unit {0}

assign_twice :
    (id : ℕ) (vs ws : List Value) (f : Values)
    → assign id (assign id (f id ++ vs) f id ++ ws) (assign id (f id ++ vs) f)
      ≡ assign id (f id ++ (vs ++ ws)) f
assign_twice id vs ws f =
    ap (λ t. assign id (t ++ ws) (assign id (f id ++ vs) f)) (assign_here id (f id ++ vs) f)
    ∙ assign-assign id _ _ f
    ∙ ap (λ t. assign id t f) (append_assoc (f id) vs ws)

module _ (table : List OptSpec) (id : ℕ) (extras : List RawOption) (codec : Codec) where
  store_repeated :
      (mode : Mode) (b : Bytes) (v : Value) (f : Values)
      → Repeats mode
      → decode codec b ≡ some v
      → parse_one (record { option_id = id; value = b }) (some (spec id codec mode)) (f, extras)
        ≡ (assign id (f id ++ (v ∷ [])) f, extras)
  unfolding parse_one
  store_repeated single b v f m d = absurd m
  store_repeated many b v f m d = rw d
  store_repeated concat b v f m d = rw d

  pub fold_repeated :
      (mode : Mode) (bs : List Bytes) (vs : List Value) (f : Values)
      → Repeats mode
      → find_spec id table ≡ some (spec id codec mode)
      → DecodeTo codec bs vs
      → parse_each table (options id bs) (f, extras) ≡ (assign id (f id ++ vs) f, extras)
  unfolding parse_each
  fold_repeated mode [] [] f m s d = ap (λ t. (t, extras)) (sym (rw append-nil (assign_self id f)))
  fold_repeated mode [] (v ∷ vs) f m s d = absurd d
  fold_repeated mode (b ∷ bs) [] f m s d = absurd d
  fold_repeated mode (b ∷ bs) (v ∷ vs) f m s d =
      ap (parse_each table (options id bs)) (
        ap (λ t. parse_one (record { option_id = id; value = b }) t (f, extras)) s
        ∙ store_repeated mode b v f m d.0)
      ∙ fold_repeated mode bs vs (assign id (f id ++ (v ∷ [])) f) m s d.1
      ∙ ap (λ t. (t, extras)) (assign_twice id (v ∷ []) vs f)

-- Extras whose ids the table does not have are kept, in file order.
abbrev pub Unknown : List OptSpec → List RawOption → Type 0
Unknown table [] = Unit {0}
Unknown table (o ∷ os) = (find_spec o.option_id table ≡ none) × Unknown table os

pub fold_extras :
    (table : List OptSpec) (os : List RawOption) (f : Values) (extras : List RawOption)
    → Unknown table os
    → parse_each table os (f, extras) ≡ (f, extras ++ os)
unfolding parse_each
fold_extras table [] f extras u = ap (λ t. (f, t)) (sym (append-nil extras))
fold_extras table (o ∷ os) f extras u =
    rw (u.0, parse_one) (rw (fold_extras table os f (extras ++ (o ∷ [])) u.1) (rw append_assoc))
