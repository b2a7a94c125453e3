-- ===== src/Conformance/Unbroken.antt =====
-- The ruling of conformance.py on breaks that no Discontinuity marks, from the records to `finish`.
use mathlib.Core.Path.{subst}
use mathlib.Core.Option.{some-injective}
use python_zipline.Base.{
  ℕ, ◌≡◌, refl, sym, ap, ◌∙◌, Bool, true, false, ◌||◌, Option, none, some, List, [], ◌∷◌, inl, inr,
  arith,
}
use python_zipline.Base.Dict.{nat_eq, contains, lookup}
use python_zipline.Base.Outcome.{Outcome, ok, raised}
use python_zipline.Blocks.Types.{Participant, Record, Discontinuity}
use python_zipline.Intervals.Spec.{covers}
use python_zipline.Conformance.State.{decoded, contiguous, StreamKey, ParticipantState, Checker}
use python_zipline.Conformance.Records.Gaps.{in_gap}
use python_zipline.Conformance.Records.Neighbours.{
  parts_last, Stands, a_record, a_break, step, step-Stands, step-candidates, step-adjacency,
}
use python_zipline.Conformance.Closing.{
  breaks_of, close_sessions, regions_at, any_unmarked, check_unmarked_breaks,
}
use python_zipline.Conformance.Closing.Breaks.{any_unmarked-in_gap}
use python_zipline.Conformance.Handlers.{
  participant_state, on_participant, on_record, on_discontinuity,
}
use python_zipline.Conformance.Handlers.Frame.{Post}
use python_zipline.Conformance.Handlers.Streams.{
  Holds, StepsTo, on_record-step, on_discontinuity-step, on_participant-starts,
}
use python_zipline.Conformance.{settle, finish}
use python_zipline.Conformance.Finished.{finish-ok}
use python_zipline.Conformance.Closing.Added.{close_sessions-Adds, lookup-held, lookup-held_live}

settle-unmarked :
    (c : Checker) → (settle c).0 ≡ ok tt → any_unmarked c.holes c.removed c.breaks ≡ false
unfolding settle check_unmarked_breaks
settle-unmarked c e = ground arith

-- What a participant of a session has sent, the last first, where `none` is a Discontinuity: its
-- Participant block declares it contiguous, its records and its Discontinuities are taken by their
-- handlers, and what the checker does for other blocks leaves the participant's state as it is.
pub data Turns (sid pid : ℕ) : List (Option Record) → Checker → Type 0 where
  starts :
      (b : Participant) (c : Checker)
      → b.session_id ≡ sid
      → b.participant_id ≡ pid
      → b.adjacency ≡ contiguous
      → (on_participant b c).0 ≡ ok tt
      → Turns sid pid [] (on_participant b c).1
  sends :
      {ts : List (Option Record)} {c : Checker} (r : Record)
      → Turns sid pid ts c
      → r.session_id ≡ sid
      → r.sender_pid ≡ pid
      → (on_record r c).0 ≡ ok tt
      → Turns sid pid (some r ∷ ts) (on_record r c).1
  breaks_off :
      {ts : List (Option Record)} {c : Checker} (b : Discontinuity)
      → Turns sid pid ts c
      → b.session_id ≡ sid
      → b.participant_id ≡ pid
      → (on_discontinuity b c).0 ≡ ok tt
      → Turns sid pid (none ∷ ts) (on_discontinuity b c).1
  waits :
      {ts : List (Option Record)} {c : Checker} (c' : Checker)
      → Turns sid pid ts c
      → ((stream : ParticipantState) → Holds sid pid stream c → Holds sid pid stream c')
      → Turns sid pid ts c'

abbrev last_sent : List (Option Record) → Option Record
last_sent [] = none
last_sent (t ∷ ts) = t

-- Does the offset lie between the input regions of two neighbouring records?
abbrev pub parted : StreamKey → ℕ → List (Option Record) → Bool
parted key o [] = false
parted key o (none ∷ ts) = parted key o ts
parted key o (some next ∷ ts) = parted key o ts || parts_last key o (last_sent ts) next

Post-ok :
    (Q : Checker → Type 0) (p : Outcome (Unit {0}) × Checker)
    → Post (λ _. Q) (λ _. Unit {0}) p
    → p.0 ≡ ok tt
    → Q p.1
Post-ok Q (raised fault, c) h e = absurd cc
Post-ok Q (ok u, c) h e = h

moved :
    {i j sid pid : ℕ} (stream : ParticipantState) (c : Checker)
    → i ≡ sid
    → j ≡ pid
    → Holds i j stream c
    → Holds sid pid stream c
moved {i} {j} {sid} {pid} stream c p q h =
    subst (λ x. Holds x pid stream c) p (subst (λ y. Holds i y stream c) q h)

-- What the checker keeps of the participant, against what it has sent.
module _ (sid pid : ℕ) (key : StreamKey) (o : ℕ) where
  abbrev Follows : List (Option Record) → ParticipantState → Type 0
  Follows ts stream =
      (stream.adjacency ≡ contiguous)
      × Stands stream (last_sent ts)
      × (in_gap key o stream.candidates ≡ parted key o ts)

  Turns-Follows :
      {ts : List (Option Record)} {c : Checker}
      → Turns sid pid ts c
      → (stream : ParticipantState) × Holds sid pid stream c × Follows ts stream
  Turns-Follows (starts b c p q whole e) =
      let held =
        Post-ok (Holds b.session_id b.participant_id (participant_state b)) (on_participant b c)
          (on_participant-starts b c) e in
      (
        participant_state b,
        moved (participant_state b) (on_participant b c).1 p q held,
        unfold participant_state in (whole, inr refl, refl),
      )
  Turns-Follows (sends {ts = ts} {c = c} r t p q e) =
      let (stream, held, follows) = Turns-Follows t in
      let (whole, stands, same) = follows in
      let (source_kind, layer, copy, reported, now) =
        Post-ok (StepsTo r stream) (on_record r c)
          (on_record-step r stream c (moved stream c (sym p) (sym q) held)) e in
      (
        step (a_record r source_kind layer copy reported) stream,
        moved (step (a_record r source_kind layer copy reported) stream) (on_record r c).1 p q now,
        (
          step-adjacency r source_kind layer copy reported stream ∙ whole,
          step-Stands r source_kind layer copy reported stream,
          step-candidates r source_kind layer copy reported stream key o (last_sent ts) stands
              ∙ ap (λ b. b || parts_last key o (last_sent ts) r) same,
        ),
      )
  Turns-Follows (breaks_off {ts = ts} {c = c} b t p q e) =
      let (stream, held, follows) = Turns-Follows t in
      let (whole, stands, same) = follows in
      (
        step a_break stream,
        moved (step a_break stream) (on_discontinuity b c).1 p q
            (on_discontinuity-step b stream c (moved stream c (sym p) (sym q) held)),
        (whole, inl refl, same),
      )
  Turns-Follows (waits c' t keeps) =
      let (stream, held, follows) = Turns-Follows t in (stream, keeps stream held, follows)

  breaks_of-parted :
      (ts : List (Option Record)) (stream : ParticipantState)
      → Follows ts stream
      → contains stream.layers decoded ≡ true
      → in_gap key o (breaks_of stream) ≡ parted key o ts
  unfolding breaks_of
  breaks_of-parted ts stream (whole, stands, same) layer = rw (layer, whole) same

same_state :
    (sid pid : ℕ) (a b : ParticipantState) (c : Checker)
    → Holds sid pid a c
    → Holds sid pid b c
    → a ≡ b
same_state sid pid a b c (s, e, f) (t, g, h) =
    let one : s ≡ t = some-injective s t (sym e ∙ g) in
    some-injective a b (sym f ∙ (ap (λ x. lookup pid x) one ∙ h))

-- Of a contiguous participant of the decoded layer, whose session is open when `finish` is called and
-- passes: no offset that lies between the input regions of two records that it sent one after the
-- other, with no Discontinuity between them, is in a region that the checker has noted as a hole or
-- as removed.
pub finish-parted :
    (sid pid : ℕ) (ts : List (Option Record)) (c : Checker) (stream : ParticipantState)
    (key : StreamKey) (o : ℕ)
    → Turns sid pid ts c
    → Holds sid pid stream c
    → contains stream.layers decoded ≡ true
    → (finish c).0 ≡ ok tt
    → parted key o ts ≡ true
    → (covers (regions_at key c.holes) o || covers (regions_at key c.removed) o) ≡ false
finish-parted sid pid ts c stream key o t holds layer passed between =
    let (st, held, follows) = Turns-Follows sid pid key o t in
    let own : stream ≡ st = same_state sid pid stream st c holds held in
    let is_decoded : contains st.layers decoded ≡ true =
      ap (λ x. contains x.layers decoded) (sym own) ∙ layer in
    let (looped, settled, same) = finish-ok c passed in
    let (noted_now, holes, removed) = close_sessions-Adds key o c.live c looped in
    let here =
      lookup-held key o pid st held.0 held.2
        (breaks_of-parted sid pid key o ts st follows is_decoded ∙ between) in
    let all = lookup-held_live key o sid held.0 c.live held.1 here in
    let c1 = (close_sessions c.live c).1 in
    let clean : any_unmarked c1.holes c1.removed c1.breaks ≡ false = settle-unmarked c1 settled in
    let found : in_gap key o c1.breaks ≡ true = ground (arith, noted_now, all) in
    subst (λ x. (covers (regions_at key x) o || covers (regions_at key c.removed) o) ≡ false) holes
      (subst (λ x. (covers (regions_at key c1.holes) o || covers (regions_at key x) o) ≡ false)
        removed (any_unmarked-in_gap c1.holes c1.removed c1.breaks key o clean found))
