-- ===== src/Content/Labels.antt =====
-- The grammar of the label: what ContentType.parse makes of a text.
use python_zipline.Base.{
  ℕ, ◌≡◌, refl, ◌⊎◌, inl, inr, false, Option, none, some, [], ◌∷◌, ◌++◌, arith, ==_iff,
}
use python_zipline.Base.Dict.{nat_eq, contains}
use python_zipline.Blocks.Types.{Text}
use python_zipline.Content.{colon, partition, ContentType, parsed, parse}

-- A text without the separator is whole; any other is cut at the first one.
abbrev Partition : ℕ → Text → Option (Text × Text) → Type 0
Partition separator text' none = contains text' separator ≡ false
Partition separator text' (some (before, after)) =
    (contains before separator ≡ false) × (text' ≡ before ++ (separator ∷ after))

partition-Partition :
    (separator : ℕ) (text' : Text) → Partition separator text' (partition separator text')
unfolding partition
partition-Partition separator [] = refl
partition-Partition separator (c ∷ cs) =
    ground (arith, partition-Partition separator cs, ==_iff c separator)

-- The two readings of a label, of which one holds: no colon and no scheme, or a scheme up to the
-- first colon.
abbrev pub Reads : Text → ContentType → Type 0
Reads label t =
    ((contains label colon ≡ false) × (t.scheme ≡ []) × (t.value ≡ label))
    ⊎ ((contains t.scheme colon ≡ false) × (label ≡ t.scheme ++ (colon ∷ t.value)))

parsed-Reads :
    (label : Text) (o : Option (Text × Text))
    → Partition colon label o
    → Reads label (parsed label o)
unfolding parsed
parsed-Reads label none h = inl (h, refl, refl)
parsed-Reads label (some (scheme, value)) h = inr h

-- Every label parses: one without a colon has no scheme and is all value, and any other is its
-- scheme, which holds no colon, a colon, and its value as written.
pub parse-Reads : (label : Text) → Reads label (parse label)
unfolding parse
parse-Reads label = parsed-Reads label (partition colon label) (partition-Partition colon label)
