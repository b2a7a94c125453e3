-- ===== src/Conformance/Handlers/Streams.antt =====
-- What the handlers of conformance.py for a record, a Discontinuity and a Participant make of the state of
-- the participant.
use mathlib.Core.Path.{subst}
use python_zipline.Base.{◌||◌, ◌==◌}
use python_zipline.Base.Dict.{has}
use python_zipline.Base.Outcome.{Outcome-cases}
use python_zipline.Conformance.State.{contiguous, units}
use python_zipline.Conformance.Monad.{pure, ◌>>◌}
use python_zipline.Conformance.Records.{
  check_record_order, check_copy, follows, known_kind, resolve_layer, check_spans, require_source,
  transport_label,
}
use python_zipline.Conformance.Handlers.{check_provenance}
use python_zipline.Base.{
  ℕ, ◌≡◌, refl, ap, Bool, true, some, ◌++◌, Bool-cases, Option-cases, inl, inr, arith,
}
use python_zipline.Base.Dict.{nat_eq, lookup, insert, lookup-insert}
use python_zipline.Base.Outcome.{Outcome, ok, raised}
use python_zipline.Blocks.Types.{Record, Discontinuity, Participant}
use python_zipline.Conformance.State.{ParticipantState, SessionState, Checker}
use python_zipline.Conformance.Monad.{and_then}
use python_zipline.Conformance.Records.{
  classified, check_placement, note_record, reports_adjacency, found,
}
use python_zipline.Conformance.Records.Neighbours.{a_record, a_break, step}
use python_zipline.Conformance.Handlers.{
  require_live_session, require_participant, save, note_placement, note_adjacency, classify_record,
  take_record, on_record, on_discontinuity, on_participant, participant_state,
}
use python_zipline.Conformance.Handlers.Frame.{Post, Post-and_then}

abbrev Free : Checker → Type 0
Free c = Unit {0}

-- A call of which only the end counts.
Post-any : {A : Type 0} (p : Outcome A × Checker) → Post (λ _ _. Unit {0}) Free p
Post-any (raised fault, c) = tt
Post-any (ok a, c) = tt

-- The state of a participant.
abbrev pub Holds : ℕ → ℕ → ParticipantState → Checker → Type 0
Holds sid pid stream c =
    (s : SessionState) × (lookup sid c.live ≡ some s) × (lookup pid s ≡ some stream)

saved :
    (sid pid : ℕ) (stream : ParticipantState) (s : SessionState) (c : Checker)
    → Holds sid pid stream (save sid pid stream s c)
unfolding save
saved sid pid stream s c =
    let live = lookup-insert sid sid (insert pid stream s) c.live in
    let own = lookup-insert pid pid stream s in
    (insert pid stream s, ground (arith, live), ground (arith, own))

abbrev pub StepsTo : Record → ParticipantState → Checker → Type 0
StepsTo r stream c =
    (source_kind : ℕ) × (layer : ℕ) × (copy : Bool) × (reported : Bool) × Holds r.session_id
      r.sender_pid (step (a_record r source_kind layer copy reported) stream) c

module _ (r : Record) (s : SessionState) (stream : ParticipantState) where
  abbrev placed : ParticipantState
  placed = (check_placement r stream).1

  abbrev Reported : ParticipantState → Checker → Type 0
  Reported t c = (reported : Bool) × (t ≡ record placed { adjacency_reported = reported })

  note_adjacency-Reported :
      (layer : ℕ) (c : Checker) → Post Reported Free (note_adjacency r s layer placed c)
  unfolding note_adjacency
  note_adjacency-Reported layer c = elim (Bool-cases (reports_adjacency layer placed)) [
    | inl p ↦ rw p (true, refl)
    | inr p ↦ rw p (placed.adjacency_reported, refl)
  ]

  abbrev IsClassified : ParticipantState → Checker → Type 0
  IsClassified t c =
      (source_kind : ℕ) × (layer : ℕ) × (reported : Bool) × (t
        ≡ classified r source_kind layer (record placed { adjacency_reported = reported }))

  classify_record-IsClassified :
      (c : Checker) → Post IsClassified Free (classify_record r s placed c)
  unfolding classify_record require_source found
  classify_record-IsClassified c = elim (Option-cases (lookup r.source_id c.sources)) [
    | inl none' ↦ rw none' tt
    | inr (kind, some') ↦ elim (Bool-cases (known_kind kind)) [
      | inr odd ↦ rw (some', odd) tt
      | inl even ↦ elim (Outcome-cases (resolve_layer r.decoder_id c.decoders)) [
        | inl (fault, bad) ↦ rw (some', even, bad) tt
        | inr (layer, good) ↦
            rw (some', even, good)
              (Post-and_then Reported IsClassified Free _
                (note_adjacency r s layer placed (noted layer))
                (note_adjacency-Reported layer (noted layer))
                (λ t c1 k. by_spans kind layer t c1 k))
      ]
    ]
  ]
    where
      noted : ℕ → Checker
      noted layer = record c { advisory = c.advisory ++ transport_label r layer }

      by_spans :
          (kind layer : ℕ) (t : ParticipantState) (c1 : Checker)
          → Reported t c1
          → Post IsClassified Free (
              and_then
                (λ _. check_provenance r kind >> pure (classified r kind layer t))
                (check_spans c.sources r.spans, c1))
      by_spans kind layer t c1 k = elim (Outcome-cases (check_spans c.sources r.spans)) [
        | inl (fault, bad) ↦ rw bad tt
        | inr (done, spanned) ↦ rw spanned (
            Post-and_then (λ _ _. Unit {0}) IsClassified Free _ (check_provenance r kind c1)
              (Post-any (check_provenance r kind c1))
              (λ _ c2 _. (kind, layer, k.0, ap (classified r kind layer) k.1)))
      ]

  take_record-step : (c : Checker) → Post (λ _. StepsTo r stream) Free (take_record r s placed c)
  unfolding take_record check_record_order
  take_record-step c = elim (Bool-cases (follows r.seq_start placed.last_seq)) [
    | inr back ↦ rw back tt
    | inl ahead ↦ elim (Outcome-cases (check_copy r c.decoders placed)) [
      | inl (fault, bad) ↦ rw (ahead, bad) tt
      | inr (copy, good) ↦
          rw (ahead, good)
            (Post-and_then IsClassified (λ _. StepsTo r stream) Free _
              (classify_record r s placed c) (classify_record-IsClassified c)
              (λ t c1 k. (
                k.0,
                k.1,
                copy,
                k.2,
                subst
                    (λ x.
                      Holds r.session_id r.sender_pid (note_record r copy x)
                        (save r.session_id r.sender_pid (note_record r copy t) s c1))
                    k.3 (saved r.session_id r.sender_pid (note_record r copy t) s c1),
              )))
    ]
  ]

-- A record that is taken makes one step of its sender's state.
pub on_record-step :
    (r : Record) (stream : ParticipantState) (c : Checker)
    → Holds r.session_id r.sender_pid stream c
    → Post (λ _. StepsTo r stream) Free (on_record r c)
unfolding on_record require_live_session require_participant found note_placement
on_record-step r stream c (s, e, h) = rw (e, h) (take_record-step r s stream _)

pub on_discontinuity-step :
    (b : Discontinuity) (stream : ParticipantState) (c : Checker)
    → Holds b.session_id b.participant_id stream c
    → Holds b.session_id b.participant_id (step a_break stream) (on_discontinuity b c).1
unfolding on_discontinuity require_live_session require_participant found
on_discontinuity-step b stream c (s, e, h) =
    rw (e, h) (saved b.session_id b.participant_id (step a_break stream) s c)

pub on_participant-starts :
    (b : Participant) (c : Checker)
    → Post
        (λ _. Holds b.session_id b.participant_id (participant_state b))
        Free
        (on_participant b c)
unfolding on_participant require_live_session found
on_participant-starts b c = elim (Option-cases (lookup b.session_id c.live)) [
  | inl e ↦ rw e tt
  | inr (s, e) ↦ elim (Bool-cases (has b.participant_id s)) [
    | inl p ↦ rw (e, p) tt
    | inr p ↦ elim (Bool-cases (b.adjacency == contiguous || b.adjacency == units)) [
      | inl q ↦ rw (e, p, q) (saved b.session_id b.participant_id (participant_state b) s c)
      | inr q ↦ rw (e, p, q) tt
    ]
  ]
]
