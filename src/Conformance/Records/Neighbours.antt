-- ===== src/Conformance/Records/Neighbours.antt =====
-- What the checker of conformance.py keeps of the records of one participant, one after the other.
use python_zipline.Base.{
  ℕ, ◌≡◌, refl, sym, ap, ◌∙◌, Bool, true, false, ◌||◌, Option, none, some, [], Bool-cases, ◌⊎◌, inl,
  inr,
}
use python_zipline.Base.Int.{pos, leb_ℤ}
use python_zipline.Order.Serial.{serial_delta}
use python_zipline.Base.Dict.{nat_eq, include}
use python_zipline.Blocks.Types.{Record}
use python_zipline.Conformance.State.{StreamKey, key_eq, ParticipantState}
use python_zipline.Conformance.Records.{
  reach_and_starts, candidates_of, track_break_candidates, place_at, place_record, check_placement,
  classified, note_record,
}
use python_zipline.Conformance.Records.Gaps.{
  in_gap, parts, in_gap-append, candidates-parts, or_false, no_gap_first,
}

-- What a participant has sent last, where nothing has broken its stream since.
abbrev pub Stands : ParticipantState → Option Record → Type 0
Stands s none = (s.broke_since ≡ true) ⊎ (s.prev_reach ≡ [])
Stands s (some r) = (s.broke_since ≡ false) × (s.prev_reach ≡ (reach_and_starts r.spans ([], [])).0)

abbrev pub parts_last : StreamKey → ℕ → Option Record → Record → Bool
parts_last key o none next = false
parts_last key o (some r) next = parts key o r next

track_candidates :
    (key : StreamKey) (o : ℕ) (next : Record) (s : ParticipantState) (last : Option Record)
    → Stands s last
    → in_gap key o (track_break_candidates next s).candidates
      ≡ (in_gap key o s.candidates || parts_last key o last next)
unfolding track_break_candidates
track_candidates key o next s (some r) (whole, reach) =
    rw (whole, reach)
      (in_gap-append key o s.candidates _
        ∙ ap (λ b. in_gap key o s.candidates || b) (candidates-parts key o r next))
track_candidates key o next s none (inl broke) =
    rw broke (sym (or_false (in_gap key o s.candidates)))
track_candidates key o next s none (inr first) = elim (Bool-cases s.broke_since) [
  | inl broke ↦ rw broke (sym (or_false (in_gap key o s.candidates)))
  | inr whole ↦
      let starts = (reach_and_starts next.spans ([], [])).1 in
      let nothing : in_gap key o (candidates_of starts []) ≡ false =
        no_gap_first key o next.spans in
      rw (whole, first)
        (in_gap-append key o s.candidates _ ∙ ap (λ b. in_gap key o s.candidates || b) nothing)
]

-- A block of a participant that the checker has taken: a record, with the kind of its source, its
-- layer, whether it counts as a copy and whether the note on its adjacency stands, or a Discontinuity.
pub data Taken : Type 0 where
  a_record : Record → ℕ → ℕ → Bool → Bool → Taken
  a_break : Taken

-- What the handlers then save as the participant's state.
abbrev pub step : Taken → ParticipantState → ParticipantState
step (a_record r source_kind layer copy reported) s = note_record r copy (
    classified r source_kind layer
      (record (check_placement r s).1 { adjacency_reported = reported }))
step a_break s = record s { has_discontinuity = true; broke_since = true }

-- What the checks of a placement leave as it is.
abbrev Same : ParticipantState → ParticipantState → Type 0
Same s t =
    (t.candidates ≡ s.candidates)
    × (t.prev_reach ≡ s.prev_reach)
    × (t.broke_since ≡ s.broke_since)
    × (t.layers ≡ s.layers)
    × (t.adjacency ≡ s.adjacency)

check_placement-Same : (r : Record) (s : ParticipantState) → Same s (check_placement r s).1
unfolding check_placement place_record
check_placement-Same r s = by_seq r.seq_start
  where
    by_anchor : (n : ℕ) (a : Option ℕ) → Same s (place_at n a s).1
    by_anchor n none = unfold place_at in (refl, refl, refl, refl, refl)
    by_anchor n (some anchor) = elim (Bool-cases (leb_ℤ (pos 0) (serial_delta n anchor))) [
      | inl p ↦ unfold place_at in (rw p (refl, refl, refl, refl, refl))
      | inr p ↦ unfold place_at in (rw p (refl, refl, refl, refl, refl))
    ]

    by_seq : (n : Option ℕ) → Same s (place_record n s).1
    by_seq none = (refl, refl, refl, refl, refl)
    by_seq (some n) = by_anchor n s.anchor_seq

Stands-Same :
    (s t : ParticipantState) (last : Option Record) → Same s t → Stands s last → Stands t last
Stands-Same s t none (c, p, b, l, a) (inl x) = inl (b ∙ x)
Stands-Same s t none (c, p, b, l, a) (inr x) = inr (p ∙ x)
Stands-Same s t (some r) (c, p, b, l, a) (x, y) = (b ∙ x, p ∙ y)

-- What taking one record does.
module _ (r : Record) (source_kind layer : ℕ) (copy reported : Bool) (s : ParticipantState) where
  abbrev next : ParticipantState
  next = step (a_record r source_kind layer copy reported) s

  pub step-Stands : Stands next (some r)
  unfolding note_record classified track_break_candidates
  step-Stands = (refl, refl)

  pub step-adjacency : next.adjacency ≡ s.adjacency
  unfolding note_record classified track_break_candidates
  step-adjacency = (check_placement-Same r s).4

  placed : ParticipantState
  placed =
      let p = (check_placement r s).1 in
      record p {
        adjacency_reported = reported;
        provenances = include source_kind p.provenances;
        layers = include layer p.layers;
      }

  pub step-candidates :
      (key : StreamKey) (o : ℕ) (last : Option Record)
      → Stands s last
      → in_gap key o next.candidates ≡ (in_gap key o s.candidates || parts_last key o last r)
  unfolding note_record classified placed
  step-candidates key o last h =
      let same = check_placement-Same r s in
      track_candidates key o r placed last (Stands-Same s (check_placement r s).1 last same h)
      ∙ ap (λ cs. in_gap key o cs || parts_last key o last r) same.0
