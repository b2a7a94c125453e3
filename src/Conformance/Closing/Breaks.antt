-- ===== src/Conformance/Closing/Breaks.antt =====
-- The ruling of conformance.py on breaks that no Discontinuity marks.
use mathlib.Core.Path.{subst}
use python_zipline.Base.{
  ℕ, ◌≡◌, refl, true, false, ◌&&◌, ◌||◌, List, [], ◌∷◌, Bool-cases, inl, inr, arith,
}
use python_zipline.Base.Dict.{Dict}
use python_zipline.Intervals.Spec.{Interval, inside, covers}
use python_zipline.Conformance.State.{StreamKey, key_eq, BreakCandidate}
use python_zipline.Conformance.Records.Gaps.{in_gap}
use python_zipline.Conformance.Closing.{overlaps, regions_at, is_unmarked, any_unmarked}

overlaps-covers :
    (gap : Interval) (regions : List Interval) (o : ℕ)
    → overlaps gap regions ≡ false
    → inside gap.0 gap.1 o ≡ true
    → covers regions o ≡ false
unfolding overlaps covers
overlaps-covers gap [] o h k = refl
overlaps-covers gap ((a, b) ∷ rest) o h k = ground (arith, overlaps-covers gap rest o)

-- Where no candidate is unmarked, an offset in the gap of one is in no region of its stream.
pub any_unmarked-in_gap :
    (holes removed : Dict StreamKey (List Interval)) (bs : List BreakCandidate) (key : StreamKey)
    (o : ℕ)
    → any_unmarked holes removed bs ≡ false
    → in_gap key o bs ≡ true
    → (covers (regions_at key holes) o || covers (regions_at key removed) o) ≡ false
unfolding any_unmarked is_unmarked
any_unmarked-in_gap holes removed [] key o h k = absurd cc
any_unmarked-in_gap holes removed (b ∷ rest) key o h k =
    elim (Bool-cases (key_eq.beq b.stream key && inside b.gap.0 b.gap.1 o)) [
      | inr other ↦ any_unmarked-in_gap holes removed rest key o (ground arith) (rw other at k)
      | inl own ↦
          let same : b.stream ≡ key = (key_eq.beq_iff b.stream key).0 (ground arith) in
          let within : inside b.gap.0 b.gap.1 o ≡ true = ground arith in
          subst (λ x. (covers (regions_at x holes) o || covers (regions_at x removed) o) ≡ false)
            same
            (ground (
              arith,
              overlaps-covers b.gap (regions_at b.stream holes) o,
              overlaps-covers b.gap (regions_at b.stream removed) o,
              within,
            ))
    ]
