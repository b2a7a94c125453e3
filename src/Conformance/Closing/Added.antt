-- ===== src/Conformance/Closing/Added.antt =====
-- What the closing of sessions adds to the breaks of the checker of conformance.py.
use mathlib.Core.Path.{subst}
use mathlib.Core.Option.{some-injective}
use python_zipline.Base.{
  ℕ, ◌≡◌, refl, sym, ap, ◌∙◌, Bool, true, false, ◌||◌, some, [], ◌∷◌, leb, ◌==◌, Bool-cases, inl,
  inr, arith,
}
use python_zipline.Base.Dict.{nat_eq, Dict, lookup}
use python_zipline.Base.Outcome.{Outcome, ok, raised}
use python_zipline.Conformance.State.{StreamKey, ParticipantState, SessionState, Checker}
use python_zipline.Conformance.Monad.{Action, and_then}
use python_zipline.Conformance.Records.Gaps.{in_gap, in_gap-append}
use python_zipline.Conformance.Closing.{
  check_stream, breaks_of, sort_participants, insert_pid, close_if, check_participant, close_each,
  close_participants, ended_session, close_session, close_sessions,
}

module _ (key : StreamKey) (o : ℕ) where
  -- Does a participant of the session leave a gap that has the offset?
  abbrev pub held : SessionState → Bool
  held [] = false
  held ((pid, stream) ∷ rest) = in_gap key o (breaks_of stream) || held rest

  abbrev pub held_live : Dict ℕ SessionState → Bool
  held_live [] = false
  held_live ((sid, s) ∷ rest) = held s || held_live rest

  abbrev pub noted : Checker → Bool
  noted c = in_gap key o c.breaks

  -- What a closing adds to the breaks; the regions stay.
  abbrev pub Adds : Bool → Checker → Checker → Type 0
  Adds more c c' = (noted c' ≡ (noted c || more)) × (c'.holes ≡ c.holes) × (c'.removed ≡ c.removed)

  Adds-none : (c : Checker) → Adds false c c
  Adds-none c = (ground arith, refl, refl)

  Adds-both : (a b : Bool) (c d e : Checker) → Adds a c d → Adds b d e → Adds (a || b) c e
  Adds-both a b c d e (p, q, r) (p', q', r') = (ground (arith, p, p'), q' ∙ q, r' ∙ r)

  and_then-Adds :
      (a b : Bool) (c : Checker) (p : Outcome (Unit {0}) × Checker) (next : Action (Unit {0}))
      → (p.0 ≡ ok tt → Adds a c p.1)
      → ((d : Checker) → (next d).0 ≡ ok tt → Adds b d (next d).1)
      → (and_then (λ _. next) p).0 ≡ ok tt
      → Adds (a || b) c (and_then (λ _. next) p).1
  and_then-Adds a b c (raised fault, d) next h k e = absurd cc
  and_then-Adds a b c (ok u, d) next h k e = Adds-both a b c d (next d).1 (h refl) (k d e)

  check_participant-Adds :
      (stream : ParticipantState) (c : Checker)
      → (check_participant stream c).0 ≡ ok tt
      → Adds (in_gap key o (breaks_of stream)) c (check_participant stream c).1
  unfolding check_participant
  check_participant-Adds stream c h =
      let closed : close_if stream (check_stream stream) c ≡ close_if stream (ok tt) c =
        ap (λ x. close_if stream x c) h in
      subst (Adds (in_gap key o (breaks_of stream)) c) (sym closed)
        (unfold close_if in (in_gap-append key o c.breaks (breaks_of stream), refl, refl))

  held-insert_pid :
      (x : ℕ × ParticipantState) (s : SessionState)
      → held (insert_pid x s) ≡ (in_gap key o (breaks_of x.1) || held s)
  unfolding insert_pid
  held-insert_pid x [] = refl
  held-insert_pid x (y ∷ ys) = elim (Bool-cases (leb x.0 y.0)) [
    | inl p ↦ rw p refl
    | inr p ↦ rw (p, held-insert_pid x ys) (ground arith)
  ]

  held-sort_participants : (s : SessionState) → held (sort_participants s) ≡ held s
  unfolding sort_participants
  held-sort_participants [] = refl
  held-sort_participants (x ∷ xs) =
      held-insert_pid x (sort_participants xs)
      ∙ ap (λ b. in_gap key o (breaks_of x.1) || b) (held-sort_participants xs)

  close_each-Adds :
      (s : SessionState) (c : Checker)
      → (close_each s c).0 ≡ ok tt
      → Adds (held s) c (close_each s c).1
  unfolding close_each
  close_each-Adds [] c h = Adds-none c
  close_each-Adds ((pid, stream) ∷ rest) c h =
      and_then-Adds (in_gap key o (breaks_of stream)) (held rest) c (check_participant stream c)
        (close_each rest) (check_participant-Adds stream c) (close_each-Adds rest) h

  close_session-Adds :
      (sid : ℕ) (s : SessionState) (c : Checker)
      → (close_session sid s c).0 ≡ ok tt
      → Adds (held s) c (close_session sid s c).1
  unfolding close_session close_participants ended_session
  close_session-Adds sid s c h =
      subst (λ b. Adds b c (close_session sid s c).1) (held-sort_participants s)
        (close_each-Adds (sort_participants s) (ended_session sid c) h)

  pub close_sessions-Adds :
      (live : Dict ℕ SessionState) (c : Checker)
      → (close_sessions live c).0 ≡ ok tt
      → Adds (held_live live) c (close_sessions live c).1
  unfolding close_sessions
  close_sessions-Adds [] c h = Adds-none c
  close_sessions-Adds ((sid, s) ∷ rest) c h =
      and_then-Adds (held s) (held_live rest) c (close_session sid s c) (close_sessions rest)
        (close_session-Adds sid s c) (close_sessions-Adds rest) h

  pub lookup-held :
      (pid : ℕ) (stream : ParticipantState) (s : SessionState)
      → lookup pid s ≡ some stream
      → in_gap key o (breaks_of stream) ≡ true
      → held s ≡ true
  unfolding lookup
  lookup-held pid stream [] e h = absurd cc
  lookup-held pid stream ((j, t) ∷ rest) e h = elim (Bool-cases (j == pid)) [
    | inl own ↦
        let same : some t ≡ some stream = rw own at e in
        ground (arith, ap (λ x. in_gap key o (breaks_of x)) (some-injective t stream same), h)
    | inr other ↦ let later = lookup-held pid stream rest (rw other at e) h in ground (arith, later)
  ]

  pub lookup-held_live :
      (sid : ℕ) (s : SessionState) (live : Dict ℕ SessionState)
      → lookup sid live ≡ some s
      → held s ≡ true
      → held_live live ≡ true
  unfolding lookup
  lookup-held_live sid s [] e h = absurd cc
  lookup-held_live sid s ((j, t) ∷ rest) e h = elim (Bool-cases (j == sid)) [
    | inl own ↦
        let same : some t ≡ some s = rw own at e in
        ground (arith, ap held (some-injective t s same), h)
    | inr other ↦ let later = lookup-held_live sid s rest (rw other at e) h in ground (arith, later)
  ]
