-- ===== src/Reassembly/Ranges/Reached.antt =====
-- How far the ranges of records reach, and which FIN positions lie below that (reassembly.py).
use python_zipline.Base.{
  ℕ, ◌+◌, ◌≡◌, refl, ◌∙◌, inl, inr, max, ◌||◌, ◌&&◌, ◌==◌, Option, none, some, List, [], ◌∷◌,
  length, ltb, Bool-cases, arith,
}
use python_zipline.Blocks.Types.{Record}
use python_zipline.Order.Walk.{Walk}
use python_zipline.Reassembly.Ranges.{
  place_offset, range_at, placed_ranges, greatest_end, fins_below, note_end, find_reach,
  insert_sorted_fin,
}
use python_zipline.Base.Dict.{nat_eq, contains}

-- The greatest end of the ranges is the reach: an unplaceable record's range ends at the greatest end
-- before it.
abbrev pub ReachesEnd : Walk → List Record → Type 0
ReachesEnd w rs =
    (fins : List ℕ) (end : ℕ)
    → max end (greatest_end (placed_ranges w end rs))
      ≡ (find_reach w (record { reach = end; fins = fins }) rs).reach

one_range_reach :
    (r : Record) (rs : List Record) (start : Option ℕ) (w : Walk) (fins : List ℕ) (end : ℕ)
    → ReachesEnd w rs
    → max end (
        max
          (range_at start end (length r.payload)).1
          (greatest_end (placed_ranges w (max end (range_at start end (length r.payload)).1) rs)))
      ≡ (find_reach w (note_end r start (record { reach = end; fins = fins })) rs).reach
unfolding range_at
one_range_reach r rs none w fins end later =
    let same : max end end ≡ end = omega arith in
    let more : ℕ = greatest_end (placed_ranges w end rs) in
    let e : max end (max end more) ≡ max end more = omega arith in
    rw same (unfold range_at note_end in (e ∙ later fins end))
one_range_reach r rs (some start) w fins end later =
    let stop : ℕ = start + length r.payload in
    let more : ℕ = greatest_end (placed_ranges w (max end stop) rs) in
    let e : max end (max stop more) ≡ max (max end stop) more = omega arith in
    unfold range_at note_end in (e ∙ later _ (max end stop))

pub placed_ranges_reach : (w : Walk) (rs : List Record) → ReachesEnd w rs
unfolding placed_ranges find_reach greatest_end
placed_ranges_reach w [] fins end = omega arith
placed_ranges_reach w (r ∷ rs) fins end =
    let (start, w') = place_offset r w in
    one_range_reach r rs start w' fins end (placed_ranges_reach w' rs)

contains-insert_sorted_fin :
    (x a : ℕ) (fs : List ℕ) → contains (insert_sorted_fin x fs) a ≡ ((x == a) || contains fs a)
unfolding insert_sorted_fin
contains-insert_sorted_fin x a [] = refl
contains-insert_sorted_fin x a (f ∷ fs) = ground (arith, contains-insert_sorted_fin x a fs)

pub contains-fins_below :
    (reach a : ℕ) (fs : List ℕ) → contains (fins_below reach fs) a ≡ (contains fs a && ltb a reach)
unfolding fins_below
contains-fins_below reach a [] = refl
contains-fins_below reach a (f ∷ fs) = elim (Bool-cases (ltb f reach)) [
  | inl p ↦
      rw (p, contains-insert_sorted_fin f a (fins_below reach fs), contains-fins_below reach a fs)
        (ground arith)
  | inr p ↦ rw (p, contains-fins_below reach a fs) (ground arith)
]
