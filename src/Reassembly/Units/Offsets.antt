-- ===== src/Reassembly/Units/Offsets.antt =====
-- The offsets of the units of a stream that is not hinted (StreamView.units of reassembly.py).
use mathlib.Core.List.{append-nil, append_assoc}
use python_zipline.Base.{
  ◌+◌, ◌≡◌, refl, sym, ap, ◌∙◌, inl, inr, true, false, ◌&&◌, none, List, [], ◌∷◌, ◌++◌, length,
  Bool-cases,
}
use python_zipline.Base.Outcome.{ok}
use python_zipline.Blocks.Types.{Record, Discontinuity}
use python_zipline.Intervals.Spec.{Interval}
use python_zipline.Conformance.State.{decoded}
use python_zipline.Reassembly.Ranges.{
  StreamBlock, a_record, a_break, positional, ranges_from, record_ranges, width_of,
}
use python_zipline.Reassembly.Units.{
  StreamView, Datagram, StreamUnit, datagram, break_at, hinted, is_unit_sequence, UnitWalk,
  yield_unit, place_unit, yield_placed, take_unit, take_units, unit_walk, stream_units,
  kept_datagrams, datagrams,
}

abbrev pub range_of : List Datagram → List Interval
range_of [] = []
range_of (d ∷ ds) = (d.off_start, d.off_end) ∷ range_of ds

abbrev ranges : List StreamUnit → List Interval
ranges us = range_of (kept_datagrams true us)

ranges-append : (us vs : List StreamUnit) → ranges (us ++ vs) ≡ ranges us ++ ranges vs
unfolding kept_datagrams
ranges-append [] vs = refl
ranges-append (break_at off width reason declared ∷ us) vs = ranges-append us vs
ranges-append (datagram d ∷ us) vs = ap (λ t. (d.off_start, d.off_end) ∷ t) (ranges-append us vs)

module _ (v : StreamView) (h : hinted v ≡ false) where
  one_break :
      (d : Discontinuity) (s : UnitWalk)
      → (ranges (take_unit v (a_break d) s).yielded ≡ ranges s.yielded)
        × ((take_unit v (a_break d) s).cursor ≡ s.cursor + width_of d.width)
  unfolding take_unit yield_unit kept_datagrams
  one_break d s = rw h (ranges-append s.yielded _ ∙ append-nil (ranges s.yielded), refl)

  one_record :
      (r : Record) (s : UnitWalk)
      → (ranges (take_unit v (a_record r) s).yielded
          ≡ ranges s.yielded ++ ((s.cursor, s.cursor + length r.payload) ∷ []))
        × ((take_unit v (a_record r) s).cursor ≡ s.cursor + length r.payload)
  unfolding take_unit yield_unit yield_placed place_unit kept_datagrams
  one_record r s = elim (Bool-cases (is_unit_sequence v && s.emitted)) [
    | inl p ↦
        rw (p, h)
          (
            ranges-append (s.yielded ++ (break_at s.cursor none none false ∷ [])) _
                ∙ ap (λ t. t ++ ((s.cursor, s.cursor + length r.payload) ∷ []))
                    (ranges-append s.yielded (break_at s.cursor none none false ∷ [])
                      ∙ append-nil (ranges s.yielded)),
            refl,
          )
    | inr p ↦ rw (p, h) (ranges-append s.yielded _, refl)
  ]

  many_units :
      (bs : List StreamBlock) (s : UnitWalk)
      → ranges (take_units v bs s).yielded ≡ ranges s.yielded ++ positional s.cursor bs
  unfolding take_units positional
  many_units [] s = sym (append-nil (ranges s.yielded))
  many_units (a_break d ∷ bs) s =
      let (same, moved) = one_break d s in
      many_units bs (take_unit v (a_break d) s)
      ∙ (ap (λ t. t ++ positional (take_unit v (a_break d) s).cursor bs) same
          ∙ ap (λ n. ranges s.yielded ++ positional n bs) moved)
  many_units (a_record r ∷ bs) s =
      let (longer, moved) = one_record r s in
      let here : List Interval = (s.cursor, s.cursor + length r.payload) ∷ [] in
      many_units bs (take_unit v (a_record r) s)
      ∙ (ap (λ t. t ++ positional (take_unit v (a_record r) s).cursor bs) longer
          ∙ (ap (λ n. (ranges s.yielded ++ here) ++ positional n bs) moved
              ∙ append_assoc (ranges s.yielded) here (positional (s.cursor + length r.payload) bs)))

-- The datagrams of a stream that is not hinted lie at the ranges that record_ranges gives its records as
-- those of a decoded stream: a break moves what is behind it by its declared width on both sides.
pub datagrams-record_ranges :
    (v : StreamView)
    → hinted v ≡ false
    → record_ranges v.participant v.blocks decoded ≡ ok (range_of (datagrams v true))
unfolding record_ranges ranges_from datagrams stream_units unit_walk
datagrams-record_ranges v h = ap ok (sym (many_units v h v.blocks _))
