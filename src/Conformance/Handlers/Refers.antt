-- ===== src/Conformance/Handlers/Refers.antt =====
-- The handlers of conformance.py for the blocks that refer to declared ids and declare none, and for
-- Session End, against the registry.
use python_zipline.Base.{
  ℕ, ◌≡◌, ◌⊎◌, refl, Bool, true, false, Option, none, some, [], ◌∷◌, ◌==◌, ltb, if◌then◌else◌,
  length, arith, Bool-cases, Option-cases, inl, inr,
}
use python_zipline.Base.Dict.{nat_eq, contains-include, lookup, lookup-erase, has-lookup}
use python_zipline.Base.Outcome.{Outcome, ok, raised}
use python_zipline.Blocks.Types.{
  SessionEnd, Undecoded, Discontinuity, NameResolution, session_end, undecoded, discontinuity,
  name_resolution,
}
use python_zipline.Conformance.State.{capture, ParticipantState, SessionState, Checker}
use python_zipline.Conformance.Monad.{and_then, lift, modify, ◌>>◌}
use python_zipline.Conformance.Registry.{joined, IsDecoder, Registry, Names, declare}
use python_zipline.Conformance.Records.{known_kind, found, require_source}
use python_zipline.Conformance.Undecodeds.{
  decoder_declared, check_reason_class, check_against_capture,
}
use python_zipline.Conformance.Closing.{
  close_if, check_participant, close_each, sort_participants, close_participants, ended_session,
}
use python_zipline.Conformance.Handlers.{
  require_live_session, require_participant, header_derived, require_derived_header,
  close_session_end, on_session_end, on_undecoded, on_discontinuity, on_name, note_region,
}
use python_zipline.Conformance.Handlers.Frame.{
  Post, Post-and_then, standing_of, standing, Kept, nothing_changed, change_through, Matches,
  Matches-Kept, standing-save,
}
use python_zipline.Conformance.Handlers.Declares.{Steps, is_open-standing}

close_if-Kept :
    (stream : ParticipantState) (o : Outcome (Unit {0})) (c : Checker)
    → Kept c (close_if stream o c)
unfolding close_if standing
close_if-Kept stream (raised fault) c = nothing_changed c
close_if-Kept stream (ok u) c = ((refl, (refl, (refl, (refl, refl)))), λ sid pid. refl)

-- What is kept however a call ends.
abbrev pub Keeps : Checker → Outcome (Unit {0}) × Checker → Type 0
Keeps c p = Post (λ _. Kept c) (Kept c) p

either_way : (o : Outcome (Unit {0})) (c c' : Checker) → Kept c c' → Keeps c (o, c')
either_way (raised fault) c c' k = k
either_way (ok u) c c' k = k

pub close_each-Keeps : (s : SessionState) (c0 c : Checker) → Kept c0 c → Keeps c0 (close_each s c)
unfolding close_each check_participant
close_each-Keeps [] c0 c k = k
close_each-Keeps ((pid, stream) ∷ rest) c0 c k =
    Post-and_then (λ _. Kept c0) (λ _. Kept c0) (Kept c0) (λ _. close_each rest)
      (check_participant stream c)
      (either_way _ c0 _ (change_through c0 c _ k (close_if-Kept stream _ c)))
      (λ _ c1 k1. close_each-Keeps rest c0 c1 k1)

pub close_participants-Keeps : (s : SessionState) (c : Checker) → Keeps c (close_participants s c)
unfolding close_participants
close_participants-Keeps s c = close_each-Keeps (sort_participants s) c c (nothing_changed c)

member_standing :
    (sid pid : ℕ) (s : SessionState) (c : Checker)
    → lookup sid c.live ≡ some s
    → (stream : ParticipantState) → lookup pid s ≡ some stream
    → standing sid pid c ≡ joined stream.last_seq
unfolding standing standing_of
member_standing sid pid s c e stream h = ground arith

pub on_discontinuity-Steps :
    (b : Discontinuity) (R : Registry) (c : Checker)
    → Matches R c
    → Steps R (discontinuity b) (on_discontinuity b c)
unfolding on_discontinuity require_live_session require_participant found
on_discontinuity-Steps b R c m = elim (Option-cases (lookup b.session_id c.live)) [
  | inl e ↦ rw e m
  | inr (s, e) ↦ elim (Option-cases (lookup b.participant_id s)) [
    | inl h ↦ rw (e, h) m
    | inr (stream, h) ↦
        let known = member_standing b.session_id b.participant_id s c e stream h in
        let stream' : ParticipantState = record stream {
          has_discontinuity = true;
          broke_since = true;
        } in
        rw (e, h)
          (
            rw (← m.2 b.session_id b.participant_id, known) tt,
            Matches-Kept R c _ m (
              (refl, (refl, (refl, (refl, refl)))),
              λ i j. ground (
                arith,
                standing-save c c b.session_id b.participant_id stream' s i j (nothing_changed c) e,
                known,
              ),
            ),
          )
  ]
]

pub on_name-Steps :
    (b : NameResolution) (R : Registry) (c : Checker)
    → Matches R c
    → Steps R (name_resolution b) (on_name b c)
unfolding on_name require_live_session found
on_name-Steps b R c m = elim (Option-cases (lookup b.session_id c.live)) [
  | inl e ↦ rw e m
  | inr (s, e) ↦ elim (Option-cases (lookup b.participant_id s)) [
    | inl h ↦ rw (e, has-lookup b.participant_id s, h) m
    | inr (stream, h) ↦
        let known = member_standing b.session_id b.participant_id s c e stream h in
        rw (e, has-lookup b.participant_id s, h)
          (rw (← m.2 b.session_id b.participant_id, known) tt, m)
  ]
]

note_region-Kept : (u : Undecoded) (c : Checker) → Kept c (note_region u c)
unfolding note_region standing
note_region-Kept u c = (ground arith, λ sid pid. ground arith)

-- The rest of the handler writes to the regions at most.
undecoded_rest-Keeps :
    (u : Undecoded) (against_capture : Bool) (c c1 : Checker)
    → Kept c c1
    → Keeps c (
        (if against_capture
            then lift (check_against_capture u)
            else (modify (note_region u) >> require_derived_header))
          c1)
unfolding require_derived_header
undecoded_rest-Keeps u true c c1 k = either_way (check_against_capture u) c c1 k
undecoded_rest-Keeps u false c c1 k =
    either_way _ c _ (change_through c c1 _ k (note_region-Kept u c1))

decoder_declared-IsDecoder :
    (o : Option ℕ) (R : Registry) (c : Checker)
    → Matches R c
    → decoder_declared o c.decoders ≡ true
    → IsDecoder R.output_layers o
unfolding decoder_declared
decoder_declared-IsDecoder none R c m h = tt
decoder_declared-IsDecoder (some id) R c m h = ground (arith, m.1 id, has-lookup id c.decoders)

Keeps-Steps :
    (u : Undecoded) (R : Registry) (c : Checker) (p : Outcome (Unit {0}) × Checker)
    → Matches R c
    → Names R (undecoded u)
    → Keeps c p
    → Steps R (undecoded u) p
Keeps-Steps u R c (raised fault, c') m n k = Matches-Kept R c c' m k
Keeps-Steps u R c (ok a, c') m n k = (n, Matches-Kept R c c' m k)

pub on_undecoded-Steps :
    (u : Undecoded) (R : Registry) (c : Checker)
    → Matches R c
    → Steps R (undecoded u) (on_undecoded u c)
unfolding on_undecoded require_source found
on_undecoded-Steps u R c m = elim (Option-cases (lookup u.source_id c.sources)) [
  | inl e ↦ rw e m
  | inr (kind, e) ↦ elim (Bool-cases (known_kind kind)) [
    | inr odd ↦ rw (e, odd) m
    | inl known ↦ elim (Bool-cases (decoder_declared u.decoder_id c.decoders)) [
      | inr odd ↦ rw (e, known, odd) m
      | inl given ↦
          let names : Names R (undecoded u) = (
            rw (← m.0 u.source_id, e) known,
            decoder_declared-IsDecoder u.decoder_id R c m given,
          ) in
          rw (e, known, given)
            (Post-and_then (λ _. Kept c) _ (Matches R) _ (check_reason_class u, c)
              (by_class (check_reason_class u))
              (λ _ c1 k.
                Keeps-Steps u R c _ m names (undecoded_rest-Keeps u (kind == capture) c c1 k)))
    ]
  ]
]
  where
    by_class : (o : Outcome (Unit {0})) → Post (λ _. Kept c) (Matches R) (o, c)
    by_class (raised fault) = m
    by_class (ok a) = nothing_changed c

-- The session is closed before its participants are ruled on.
session_closed :
    (b : SessionEnd) (R : Registry) (c : Checker)
    → Matches R c
    → Matches (declare (session_end b) R) (ended_session b.session_id c)
unfolding standing standing_of ended_session
session_closed b R c m = (
  m.0,
  m.1,
  λ sid pid. ground (arith, lookup-erase sid b.session_id c.live, m.2 sid pid),
  λ sid. ground (arith, contains-include b.session_id sid c.ended, m.3 sid),
  m.4,
  m.5,
)

ruled_on :
    (b : SessionEnd) (R : Registry) (c : Checker) (p : Outcome (Unit {0}) × Checker)
    → Matches (declare (session_end b) R) c
    → Names R (session_end b)
    → Keeps c p
    → Post
        (λ _ c'. Names R (session_end b) × Matches (declare (session_end b) R) c')
        (λ c'. Matches R c' ⊎ Matches (declare (session_end b) R) c')
        p
ruled_on b R c (raised fault, c') m n k = inr (Matches-Kept _ c c' m k)
ruled_on b R c (ok a, c') m n k = (n, Matches-Kept _ c c' m k)

-- A Session End that is refused has either changed nothing or closed its session all the same.
pub on_session_end-Post :
    (b : SessionEnd) (R : Registry) (c : Checker)
    → Matches R c
    → Post
        (λ _ c'. Names R (session_end b) × Matches (declare (session_end b) R) c')
        (λ c'. Matches R c' ⊎ Matches (declare (session_end b) R) c')
        (on_session_end b c)
unfolding on_session_end close_session_end require_live_session found require_derived_header
on_session_end-Post b R c m = elim (Bool-cases (ltb 0 (length b.input_extents))) [
  | inr bare ↦ rw bare rest
  | inl owed ↦ elim (Bool-cases (header_derived c.header)) [
    | inr raw ↦ rw (owed, raw) (inl m)
    | inl derived ↦ rw (owed, derived) rest
  ]
]
  where
    rest :
        Post
          (λ _ c'. Names R (session_end b) × Matches (declare (session_end b) R) c')
          (λ c'. Matches R c' ⊎ Matches (declare (session_end b) R) c')
          (and_then (close_session_end b) (require_live_session b.session_id c))
    rest = elim (Option-cases (lookup b.session_id c.live)) [
      | inl e ↦ rw e (inl m)
      | inr (s, e) ↦
          let names : Names R (session_end b) = ground (
            arith,
            m.2 b.session_id 0,
            is_open-standing b.session_id 0 c,
            has-lookup b.session_id c.live,
          ) in
          rw e (
            ruled_on b R (ended_session b.session_id c) _ (session_closed b R c m) names
              (close_participants-Keeps s (ended_session b.session_id c)))
    ]
