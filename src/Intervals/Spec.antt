-- ===== src/Intervals/Spec.antt =====
-- What the interval lists of _intervals.py mean: which offsets they cover, and the shapes that the
-- functions ask for and keep.
use python_zipline.Base.{
  ℕ, suc, ◌≤◌, ◌<◌, ◌≡◌, Bool, false, ◌&&◌, ◌||◌, List, [], ◌∷◌, ltb, leb, arith,
}

abbrev pub Interval : Type 0
Interval = ℕ × ℕ

-- Does the half-open range hold the offset?
abbrev pub inside : ℕ → ℕ → ℕ → Bool
inside start end o = leb start o && ltb o end

-- Does some range of the list hold the offset?
unfoldable pub covers : List Interval → ℕ → Bool
covers [] o = false
covers ((a, b) ∷ rest) o = inside a b o || covers rest o

-- Coalesced: every range is non-empty, and starts past the end of the one before it with a gap.
-- `lo` is an offset that the first range lies at or past.
abbrev pub CoalescedFrom : ℕ → List Interval → Type 0
CoalescedFrom lo [] = Unit {0}
CoalescedFrom lo ((a, b) ∷ rest) = (lo ≤ a) × (a < b) × CoalescedFrom (suc b) rest

abbrev pub IsCoalesced : List Interval → Type 0
IsCoalesced xs = CoalescedFrom 0 xs

-- Sorted by start, overlaps and empty ranges allowed.
abbrev pub SortedFrom : ℕ → List Interval → Type 0
SortedFrom lo [] = Unit {0}
SortedFrom lo ((a, b) ∷ rest) = (lo ≤ a) × SortedFrom a rest

pub CoalescedFrom-le :
    (lo lo' : ℕ) (xs : List Interval) → lo' ≤ lo → CoalescedFrom lo xs → CoalescedFrom lo' xs
CoalescedFrom-le lo lo' [] h c = tt
CoalescedFrom-le lo lo' ((a, b) ∷ xs) h c = (omega arith, c.1, c.2)

-- Nothing below the bound is covered.
pub covers_below :
    (lo o : ℕ) (xs : List Interval) → CoalescedFrom lo xs → o < lo → covers xs o ≡ false
unfolding covers
covers_below lo o [] c h = ground arith
covers_below lo o ((a, b) ∷ xs) c h = ground (arith, covers_below (suc b) o xs c.2)
