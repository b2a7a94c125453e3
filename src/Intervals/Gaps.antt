-- ===== src/Intervals/Gaps.antt =====
-- The theorems on `complement` and `intersections` of _intervals.py.
use python_zipline.Base.{
  ℕ, suc, ◌≤◌, ◌<◌, ◌≡◌, refl, ◌∙◌, min, max, Bool, false, not, ◌&&◌, ◌||◌, List, [], ◌∷◌, ltb, leb,
  arith, if◌then◌else◌, Bool-cases, inl, inr, ltb→lt, leb→le, leb→gt,
}
use python_zipline.Intervals.Spec.{
  Interval, inside, covers, CoalescedFrom, IsCoalesced, covers_below, SortedFrom,
}
use python_zipline.Intervals.{complement_loop, nonempty, complement, intersections}

covers-nonempty : (xs : List Interval) (o : ℕ) → covers (nonempty xs) o ≡ covers xs o
unfolding covers nonempty
covers-nonempty [] o = refl
covers-nonempty ((a, b) ∷ xs) o = ground (arith, covers-nonempty xs o)

-- Sorted ranges cover nothing below the first start.
covers_below_sorted :
    (lo o : ℕ) (xs : List Interval) → SortedFrom lo xs → o < lo → covers xs o ≡ false
unfolding covers
covers_below_sorted lo o [] c h = refl
covers_below_sorted lo o ((a, b) ∷ xs) c h = ground (arith, covers_below_sorted a o xs c.1)

covers-one_gap :
    (later : List Interval) (a extent position o : ℕ)
    → covers (if ltb position a then (position, min a extent) ∷ later else later) o ≡ (
        if ltb position a
        then inside position (min a extent) o || covers later o
        else covers later o)
unfolding covers
covers-one_gap later a extent position o = elim (Bool-cases (ltb position a)) [
  | inl p ↦ rw p
  | inr p ↦ rw p
]

-- One round of the loop, over what the rest covers: `r` in the list, `more` in the gaps.
module _ (a b extent position o : ℕ) (r more : Bool) (below : o < a → r ≡ false) where
  abbrev one_gap : Bool → Bool
  one_gap later = if ltb position a then inside position (min a extent) o || later else later

  abbrev uncovered : Bool
  uncovered = inside position extent o && not (inside a b o || r)

  reached : extent ≤ max position b → one_gap false ≡ uncovered
  reached h = ground arith

  goes_on :
      max position b < extent
      → more ≡ (inside (max position b) extent o && not r)
      → one_gap more ≡ uncovered
  goes_on h e = rw e (elim (Bool-cases (ltb o a)) [
    | inl p ↦ rw (below (ltb→lt o a p)) (ground arith)
    | inr p ↦ ground arith
  ])

covers-complement_loop :
    (lo : ℕ) (xs : List Interval) (extent position o : ℕ)
    → SortedFrom lo xs
    → covers (complement_loop xs extent position) o
      ≡ (inside position extent o && not (covers xs o))
unfolding covers complement_loop
covers-complement_loop lo [] extent position o c = ground arith
covers-complement_loop lo ((a, b) ∷ xs) extent position o c =
    elim (Bool-cases (leb extent (max position b))) [
      | inl p ↦ rw p (
          covers-one_gap [] a extent position o
          ∙ reached a b extent position o (covers xs o) false below (leb→le _ _ p))
      | inr p ↦ rw p (
          covers-one_gap (complement_loop xs extent (max position b)) a extent position o
          ∙ goes_on a b extent position o (covers xs o) _ below (leb→gt _ _ p)
              (covers-complement_loop a xs extent (max position b) o c.1))
    ]
  where
    below : o < a → covers xs o ≡ false
    below h = covers_below_sorted a o xs c.1 h

-- Of a sorted list, overlaps and empty ranges allowed, `complement` covers exactly the offsets below
-- the extent that the list does not cover.
pub covers-complement :
    (xs : List Interval) (extent o : ℕ)
    → SortedFrom 0 xs
    → covers (complement xs extent) o ≡ (ltb o extent && not (covers xs o))
unfolding complement
covers-complement xs extent o c = ground (
  arith,
  covers-nonempty (complement_loop xs extent 0) o,
  covers-complement_loop 0 xs extent 0 o c,
)

inside-meet : (a b d e o : ℕ) → inside (max a d) (min b e) o ≡ (inside a b o && inside d e o)
inside-meet a b d e o = ground arith

covers_if_proper :
    (s e o : ℕ) (rest : List Interval)
    → covers (if ltb s e then (s, e) ∷ rest else rest) o ≡ (inside s e o || covers rest o)
unfolding covers
covers_if_proper s e o rest = elim (Bool-cases (ltb s e)) [
  | inl p ↦ rw p
  | inr p ↦ let out : inside s e o ≡ false = ground arith in rw (p, out)
]

covers-cons :
    (a b o : ℕ) (xs : List Interval) → covers ((a, b) ∷ xs) o ≡ (inside a b o || covers xs o)
unfolding covers
covers-cons a b o xs = refl

-- `p` and `q` are the first ranges, `x` and `y` the ranges behind them.
meet_first :
    (p q x y : Bool) → (p && y) ≡ false → ((p && q) || (x && (q || y))) ≡ ((p || x) && (q || y))
meet_first p q x y h = ground arith

meet_second :
    (p q x y : Bool) → (q && x) ≡ false → ((p && q) || ((p || x) && y)) ≡ ((p || x) && (q || y))
meet_second p q x y h = ground arith

module _ (a b d e o : ℕ) (ys : List Interval) where
  apart : CoalescedFrom (suc e) ys → b ≤ e → (inside a b o && covers ys o) ≡ false
  apart k h = ground (arith, covers_below (suc e) o ys k)

covers-intersections_from :
    (lo hi : ℕ) (xs ys : List Interval) (o : ℕ)
    → CoalescedFrom lo xs
    → CoalescedFrom hi ys
    → covers (intersections xs ys) o ≡ (covers xs o && covers ys o)
unfolding intersections
covers-intersections_from lo hi [] ys o c k = unfold covers in refl
covers-intersections_from lo hi (x ∷ xs) [] o c k = unfold covers in ground arith
covers-intersections_from lo hi ((a, b) ∷ xs) ((d, e) ∷ ys) o c k = elim (Bool-cases (leb b e)) [
  | inl p ↦
      rw
        (
          p,
          covers_if_proper,
          inside-meet,
          covers-intersections_from (suc b) hi xs ((d, e) ∷ ys) o c.2 k,
          covers-cons a b o xs,
          covers-cons d e o ys,
        )
        (meet_first (inside a b o) (inside d e o) (covers xs o) (covers ys o)
          (apart a b d e o ys k.2 (leb→le b e p)))
  | inr p ↦
      rw
        (
          p,
          covers_if_proper,
          inside-meet,
          covers-intersections_from lo (suc e) ((a, b) ∷ xs) ys o c k.2,
          covers-cons a b o xs,
          covers-cons d e o ys,
        )
        (meet_second (inside a b o) (inside d e o) (covers xs o) (covers ys o)
          (apart d e a b o xs c.2 (omega (arith, leb→gt b e p))))
]

-- Of two coalesced lists `intersections` covers exactly the offsets that both cover.
pub covers-intersections :
    (xs ys : List Interval) (o : ℕ)
    → IsCoalesced xs
    → IsCoalesced ys
    → covers (intersections xs ys) o ≡ (covers xs o && covers ys o)
covers-intersections xs ys o c k = covers-intersections_from 0 0 xs ys o c k

nonempty_bare : (xs : List Interval) → ((o : ℕ) → covers (nonempty xs) o ≡ false) → nonempty xs ≡ []
unfolding covers nonempty
nonempty_bare [] h = refl
nonempty_bare ((a, b) ∷ xs) h = elim (Bool-cases (ltb a b)) [
  | inl p ↦
      let first : covers (if ltb a b then (a, b) ∷ nonempty xs else nonempty xs) a ≡ false = h a in
      absurd (ground (arith, first))
  | inr p ↦ rw p (nonempty_bare xs (λ o. ground (arith, h o)))
]

-- A complement that covers nothing has no ranges, not even empty ones.
pub complement_bare :
    (xs : List Interval) (extent : ℕ)
    → ((o : ℕ) → covers (complement xs extent) o ≡ false)
    → complement xs extent ≡ []
unfolding complement
complement_bare xs extent h = nonempty_bare (complement_loop xs extent 0) h
