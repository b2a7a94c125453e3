-- ===== src/Tests/Intervals.antt =====
-- The theorems on _intervals.py at concrete lists.
use python_zipline.Base.{ℕ, ◌≡◌, not, ◌&&◌, ◌||◌, List, [], ◌∷◌, ltb, if◌then◌else◌, arith}
use python_zipline.Intervals.Spec.{Interval, inside, covers, IsCoalesced, SortedFrom}
use python_zipline.Intervals.Insert.{insert_merge}
use python_zipline.Intervals.{add, coalesce, complement, intersections}
use python_zipline.Intervals.Add.{covers-add, add-insert_merge, covers-coalesce}
use python_zipline.Intervals.Canonical.{coalesce_canonical}
use python_zipline.Intervals.Gaps.{covers-complement, covers-intersections}

abbrev two_ranges : List Interval
two_ranges = (2, 5) ∷ (8, 12) ∷ []

two_ranges-IsCoalesced : IsCoalesced two_ranges
two_ranges-IsCoalesced = (omega arith, omega arith, (omega arith, omega arith, tt))

-- The new range closes the gap and fuses all three.
covers-add_example :
    IsCoalesced (add two_ranges 4 8)
    × ((o : ℕ) → covers (add two_ranges 4 8) o ≡ (inside 4 8 o || covers two_ranges o))
covers-add_example = covers-add two_ranges 4 8 two_ranges-IsCoalesced

add-insert_merge_example :
    add two_ranges 4 8 ≡ (if ltb 4 8 then insert_merge two_ranges 4 8 else two_ranges)
add-insert_merge_example = add-insert_merge two_ranges 4 8 two_ranges-IsCoalesced

covers-coalesce_example :
    IsCoalesced (coalesce ((7, 9) ∷ (3, 3) ∷ (1, 8) ∷ []))
    × ((o : ℕ)
        → covers (coalesce ((7, 9) ∷ (3, 3) ∷ (1, 8) ∷ [])) o
          ≡ covers ((7, 9) ∷ (3, 3) ∷ (1, 8) ∷ []) o)
covers-coalesce_example = covers-coalesce ((7, 9) ∷ (3, 3) ∷ (1, 8) ∷ [])

either_order : (o : ℕ) → covers ((7, 9) ∷ (1, 8) ∷ []) o ≡ covers ((1, 8) ∷ (7, 9) ∷ []) o
unfolding covers
either_order o = ground arith

coalesce_canonical_example : coalesce ((7, 9) ∷ (1, 8) ∷ []) ≡ coalesce ((1, 8) ∷ (7, 9) ∷ [])
coalesce_canonical_example =
    coalesce_canonical ((7, 9) ∷ (1, 8) ∷ []) ((1, 8) ∷ (7, 9) ∷ []) either_order

two_ranges-SortedFrom : SortedFrom 0 two_ranges
two_ranges-SortedFrom = (omega arith, (omega arith, tt))

covers-complement_example :
    covers (complement two_ranges 10) 6 ≡ (ltb 6 10 && not (covers two_ranges 6))
covers-complement_example = covers-complement two_ranges 10 6 two_ranges-SortedFrom

one_range-IsCoalesced : IsCoalesced ((4, 9) ∷ [])
one_range-IsCoalesced = (omega arith, omega arith, tt)

covers-intersections_example :
    covers (intersections two_ranges ((4, 9) ∷ [])) 8
    ≡ (covers two_ranges 8 && covers ((4, 9) ∷ []) 8)
covers-intersections_example =
    covers-intersections two_ranges ((4, 9) ∷ []) 8 two_ranges-IsCoalesced one_range-IsCoalesced
