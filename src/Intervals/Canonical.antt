-- ===== src/Intervals/Canonical.antt =====
-- Coalesced lists of _intervals.py and the offsets that they cover.
use python_zipline.Base.{
  ℕ, suc, ◌≤◌, ◌<◌, ◌≡◌, refl, sym, ◌∙◌, Bool, true, false, ◌||◌, List, [], ◌∷◌, arith,
}
use python_zipline.Intervals.Spec.{
  Interval, inside, covers, CoalescedFrom, IsCoalesced, covers_below,
}
use python_zipline.Intervals.Add.{covers-add, covers-coalesce}
use python_zipline.Intervals.{add, coalesce}

abbrev pub SameOffsets : List Interval → List Interval → Type 0
SameOffsets xs ys = (o : ℕ) → covers xs o ≡ covers ys o

covers_first : (a b : ℕ) (xs : List Interval) → a < b → covers ((a, b) ∷ xs) a ≡ true
unfolding covers
covers_first a b xs h = ground arith

covers_nil : (o : ℕ) → covers [] o ≡ false
unfolding covers
covers_nil o = refl

or_left_comm : (p q r : Bool) → (p || (q || r)) ≡ (q || (p || r))
or_left_comm p q r = ground arith

module _ (a b c d : ℕ) (xs ys : List Interval) where
  start_le :
      CoalescedFrom a ((a, b) ∷ xs)
      → CoalescedFrom c ((c, d) ∷ ys)
      → SameOffsets ((a, b) ∷ xs) ((c, d) ∷ ys)
      → c ≤ a
  start_le k l h = ground (arith, h a, covers_first a b xs k.1, covers_below c a ((c, d) ∷ ys) l)

  end_le :
      CoalescedFrom a ((a, b) ∷ xs)
      → CoalescedFrom c ((c, d) ∷ ys)
      → a ≡ c
      → SameOffsets ((a, b) ∷ xs) ((c, d) ∷ ys)
      → d ≤ b
  unfolding covers
  end_le k l e h = ground (arith, h b, covers_below (suc b) b xs k.2)

  tail_same :
      CoalescedFrom a ((a, b) ∷ xs)
      → CoalescedFrom c ((c, d) ∷ ys)
      → a ≡ c
      → b ≡ d
      → SameOffsets ((a, b) ∷ xs) ((c, d) ∷ ys)
      → SameOffsets xs ys
  unfolding covers
  tail_same k l e f h o =
      ground (arith, h o, covers_below (suc b) o xs k.2, covers_below (suc d) o ys l.2)

pub CoalescedFrom-unique :
    (lo hi : ℕ) (xs ys : List Interval)
    → CoalescedFrom lo xs
    → CoalescedFrom hi ys
    → SameOffsets xs ys
    → xs ≡ ys
CoalescedFrom-unique lo hi [] [] k l h = refl
CoalescedFrom-unique lo hi [] ((c, d) ∷ ys) k l h = cc (h c, covers_first c d ys l.1, covers_nil c)
CoalescedFrom-unique lo hi ((a, b) ∷ xs) [] k l h = cc (h a, covers_first a b xs k.1, covers_nil a)
CoalescedFrom-unique lo hi ((a, b) ∷ xs) ((c, d) ∷ ys) k l h =
    let k' : CoalescedFrom a ((a, b) ∷ xs) = (omega arith, k.1, k.2) in
    let l' : CoalescedFrom c ((c, d) ∷ ys) = (omega arith, l.1, l.2) in
    let h' : SameOffsets ((c, d) ∷ ys) ((a, b) ∷ xs) = λ o. sym (h o) in
    let starts : a ≡ c =
      omega (arith, start_le a b c d xs ys k' l' h, start_le c d a b ys xs l' k' h') in
    let ends : b ≡ d =
      omega
        (arith, end_le a b c d xs ys k' l' starts h, end_le c d a b ys xs l' k' (sym starts) h') in
    let tails : xs ≡ ys =
      CoalescedFrom-unique (suc b) (suc d) xs ys k.2 l.2
        (tail_same a b c d xs ys k' l' starts ends h) in
    cc

-- `coalesce` depends only on which offsets its ranges cover: two lists that cover the same offsets,
-- in whatever order and with whatever overlaps, have the same result.
pub coalesce_canonical : (xs ys : List Interval) → SameOffsets xs ys → coalesce xs ≡ coalesce ys
coalesce_canonical xs ys h =
    let (cx, hx) = covers-coalesce xs in
    let (cy, hy) = covers-coalesce ys in
    CoalescedFrom-unique 0 0 _ _ cx cy (λ o. hx o ∙ h o ∙ sym (hy o))

-- Two ranges may be added to a coalesced list in either order: the lists are equal.
pub add_comm_ranges :
    (xs : List Interval) (s e s' e' : ℕ)
    → IsCoalesced xs
    → add (add xs s e) s' e' ≡ add (add xs s' e') s e
add_comm_ranges xs s e s' e' c =
    let (c₁, h₁) = covers-add xs s e c in
    let (c₂, h₂) = covers-add (add xs s e) s' e' c₁ in
    let (c₃, h₃) = covers-add xs s' e' c in
    let (c₄, h₄) = covers-add (add xs s' e') s e c₃ in
    CoalescedFrom-unique 0 0 _ _ c₂ c₄ (λ o.
      h₂ o ∙ rw (h₁ o, h₄ o, h₃ o) (or_left_comm (inside s' e' o) (inside s e o) (covers xs o)))
