-- ===== src/Conformance/Finished.antt =====
-- `check` and `finish` of conformance.py together: what a file that passes both keeps.
use mathlib.Core.Path.{subst}
use mathlib.Core.Option.{some-injective}
use python_zipline.Base.{
  ℕ, ◌<◌, ◌≤◌, ◌≡◌, refl, sym, ap, ◌∙◌, true, false, not, ◌&&◌, ◌||◌, some, List, [], ◌∷◌, length,
  is_some, arith, Bool-cases, Option-cases, inl, inr,
}
use python_zipline.Base.Dict.{
  nat_eq, contains, contains-include, include, Dict, lookup, has, erase, lookup-erase, has-lookup,
}
use python_zipline.Base.Outcome.{Outcome, ok, raised}
use python_zipline.Blocks.Types.{
  Block, file_header, source, decoder, session, participant, session_end, record_block, undecoded,
  discontinuity, name_resolution, end, custom, unknown_block,
}
use python_zipline.Intervals.Spec.{Interval, covers}
use python_zipline.Binary.Writer.{is_header}
use python_zipline.Conformance.State.{
  StreamKey, key_eq, ParticipantState, SessionState, StreamLedger, CoverageLedger, Checker, checker,
}
use python_zipline.Conformance.Monad.{Action, and_then}
use python_zipline.Conformance.Coverage.{ledger_for, covered, observe_coverage, findings}
use python_zipline.Conformance.Coverage.Accounted.{
  Accounted, AllAccounted, findings-AllAccounted, covers-covered, reach_bound,
}
use python_zipline.Conformance.Coverage.Cited.{
  is_cited, is_marked, observe_all, observe_all-Cited, coverage_ledger,
}
use python_zipline.Conformance.Closing.{
  close_if, check_stream, check_participant, close_each, sort_participants, ended_session,
  close_session, close_sessions, check_unmarked_breaks, close_participants,
}
use python_zipline.Conformance.Handlers.{on_end}
use python_zipline.Conformance.Handlers.Leaves.{
  Leaves, and_then-Leaves, close_participants-Leaves, on_file_header-Leaves, on_source-Leaves,
  on_decoder-Leaves, on_session-Leaves, on_participant-Leaves, on_session_end-Leaves,
  on_record-Leaves, on_undecoded-Leaves, on_discontinuity-Leaves, on_name-Leaves,
}
use python_zipline.Conformance.{handle, admit, absorb, observe, check, settle, finish}

handle-Leaves :
    (x : CoverageLedger) (b : Block) (c : Checker) → c.coverage ≡ x → Leaves x (handle b c)
unfolding handle on_end
handle-Leaves x (file_header b) c h = on_file_header-Leaves x b c h
handle-Leaves x (source b) c h = on_source-Leaves x b c h
handle-Leaves x (decoder b) c h = on_decoder-Leaves x b c h
handle-Leaves x (session b) c h = on_session-Leaves x b c h
handle-Leaves x (participant b) c h = on_participant-Leaves x b c h
handle-Leaves x (session_end b) c h = on_session_end-Leaves x b c h
handle-Leaves x (record_block b) c h = on_record-Leaves x b c h
handle-Leaves x (undecoded b) c h = on_undecoded-Leaves x b c h
handle-Leaves x (discontinuity b) c h = on_discontinuity-Leaves x b c h
handle-Leaves x (name_resolution b) c h = on_name-Leaves x b c h
handle-Leaves x (end b) c h = h
handle-Leaves x (custom b) c h = h
handle-Leaves x (unknown_block t content) c h = h

-- A block that passes is in the ledger.
absorb-coverage :
    (b : Block) (x : CoverageLedger) (p : Outcome (Unit {0}) × Checker)
    → Leaves x p
    → (and_then (λ _. absorb b) p).0 ≡ ok tt
    → (and_then (λ _. absorb b) p).1.coverage ≡ observe_coverage b x
unfolding absorb
absorb-coverage b x (raised fault, c) h e = cc
absorb-coverage b x (ok a, c) h e = rw h refl

observe-coverage :
    (b : Block) (c : Checker)
    → (observe b c).0 ≡ ok tt
    → (observe b c).1.coverage ≡ observe_coverage b c.coverage
unfolding observe admit
observe-coverage b c e = elim (Bool-cases (not c.file_ended && (is_some c.header || is_header b))) [
  | inr early ↦ absurd (ground (arith, e, early))
  | inl fits ↦ rw fits (
      absorb-coverage b c.coverage (handle b c1) (handle-Leaves c.coverage b c1 refl)
        (rw fits at e))
]
  where
    c1 : Checker
    c1 = record c { advisory = []; unplaceable = [] }

check-coverage_next :
    (b : Block) (bs : List Block) (x : CoverageLedger) (p : Outcome (Unit {0}) × Checker)
    → (p.0 ≡ ok tt → p.1.coverage ≡ x)
    → ((c : Checker) → (check bs c).0 ≡ ok tt → (check bs c).1.coverage ≡ observe_all bs c.coverage)
    → (and_then (λ _. check bs) p).0 ≡ ok tt
    → (and_then (λ _. check bs) p).1.coverage ≡ observe_all bs x
check-coverage_next b bs x (raised fault, c) h next e = cc
check-coverage_next b bs x (ok a, c) h next e = rw (← h refl) (next c e)

check-coverage :
    (bs : List Block) (c : Checker)
    → (check bs c).0 ≡ ok tt
    → (check bs c).1.coverage ≡ observe_all bs c.coverage
unfolding check observe_all
check-coverage [] c e = refl
check-coverage (b ∷ bs) c e =
    check-coverage_next b bs (observe_coverage b c.coverage) (observe b c) (observe-coverage b c)
      (λ c1. check-coverage bs c1) e

-- What the loop of `finish` leaves of the sessions.
erase_all : Dict ℕ SessionState → Dict ℕ SessionState → Dict ℕ SessionState
erase_all [] live = live
erase_all ((sid, s) ∷ rest) live = erase_all rest (erase sid live)

close_if-live :
    (stream : ParticipantState) (o : Outcome (Unit {0})) (c : Checker)
    → ((close_if stream o c).live ≡ c.live) × ((close_if stream o c).ended ≡ c.ended)
unfolding close_if
close_if-live stream (raised fault) c = (refl, refl)
close_if-live stream (ok u) c = (refl, refl)

and_then-live :
    (next : Action (Unit {0})) (c : Checker) (p : Outcome (Unit {0}) × Checker)
    → (p.1.live ≡ c.live) × (p.1.ended ≡ c.ended)
    → ((c1 : Checker) → ((next c1).1.live ≡ c1.live) × ((next c1).1.ended ≡ c1.ended))
    → ((and_then (λ _. next) p).1.live ≡ c.live) × ((and_then (λ _. next) p).1.ended ≡ c.ended)
and_then-live next c (raised fault, c1) h k = h
and_then-live next c (ok a, c1) h k = ((k c1).0 ∙ h.0, (k c1).1 ∙ h.1)

close_each-live :
    (s : SessionState) (c : Checker)
    → ((close_each s c).1.live ≡ c.live) × ((close_each s c).1.ended ≡ c.ended)
unfolding close_each check_participant
close_each-live [] c = (refl, refl)
close_each-live ((pid, stream) ∷ rest) c =
    and_then-live (close_each rest) c (check_participant stream c)
      (close_if-live stream (check_stream stream) c) (λ c1. close_each-live rest c1)

-- How the loop ends where nothing is raised: the ledger stays, the sessions are gone, and each of them
-- has ended.
Closed : Dict ℕ SessionState → Checker → Outcome (Unit {0}) × Checker → Type 0
Closed pending c p =
    p.0 ≡ ok tt
    → (p.1.live ≡ erase_all pending c.live)
      × ((sid : ℕ) → contains p.1.ended sid ≡ (has sid pending || contains c.ended sid))

close_participants-live :
    (s : SessionState) (c : Checker)
    → ((close_participants s c).1.live ≡ c.live) × ((close_participants s c).1.ended ≡ c.ended)
unfolding close_participants
close_participants-live s c = close_each-live (sort_participants s) c

loop_turn :
    (sid : ℕ) (s : SessionState) (rest : Dict ℕ SessionState) (c : Checker)
    (p : Outcome (Unit {0}) × Checker)
    → (p.1.live ≡ erase sid c.live) × (p.1.ended ≡ include sid c.ended)
    → ((c1 : Checker) → Closed rest c1 (close_sessions rest c1))
    → Closed ((sid, s) ∷ rest) c (and_then (λ _. close_sessions rest) p)
unfolding Closed erase_all has
loop_turn sid s rest c (raised fault, c1) h next = λ e. cc
loop_turn sid s rest c (ok a, c1) h next = λ e.
    let (gone, ended) = next c1 e in
    (rw (← h.0) gone, λ j. ground (arith, ended j, h.1, contains-include sid j c.ended))

close_sessions-Closed :
    (pending : Dict ℕ SessionState) (c : Checker) → Closed pending c (close_sessions pending c)
unfolding close_sessions close_session ended_session Closed erase_all has
close_sessions-Closed [] c = λ e. (refl, λ sid. refl)
close_sessions-Closed ((sid, s) ∷ rest) c =
    loop_turn sid s rest c (close_session sid s c) (close_participants-live s (ended_session sid c))
      (λ c1. close_sessions-Closed rest c1)

has_nothing : (d : Dict ℕ SessionState) → ((k : ℕ) → has k d ≡ false) → d ≡ []
unfolding has
has_nothing [] h = refl
has_nothing ((k, v) ∷ d) h = absurd (ground (arith, h k))

erase_all_bare :
    (d live : Dict ℕ SessionState)
    → ((k : ℕ) → has k live ≡ true → has k d ≡ true)
    → erase_all d live ≡ []
unfolding erase_all has
erase_all_bare [] live h = has_nothing live (λ k. ground (arith, h k))
erase_all_bare ((sid, s) ∷ d) live h = erase_all_bare d (erase sid live) (λ k p.
    ground (arith, h k, has-lookup k (erase sid live), has-lookup k live, lookup-erase k sid live))

settle_same : (c : Checker) → (settle c).1 ≡ c
unfolding settle
settle_same c = ground arith

-- A `finish` that returns: what the loop and the rulings have come to.
pub finish-ok :
    (c : Checker)
    → (finish c).0 ≡ ok tt
    → ((close_sessions c.live c).0 ≡ ok tt)
      × ((settle (close_sessions c.live c).1).0 ≡ ok tt)
      × ((finish c).1 ≡ (close_sessions c.live c).1)
unfolding finish
finish-ok c e = by_loop (close_sessions c.live c) e
  where
    by_loop :
        (p : Outcome (Unit {0}) × Checker)
        → (and_then (λ _. settle) p).0 ≡ ok tt
        → (p.0 ≡ ok tt) × ((settle p.1).0 ≡ ok tt) × ((and_then (λ _. settle) p).1 ≡ p.1)
    by_loop (raised fault, c1) k = absurd (cc)
    by_loop (ok a, c1) k = (refl, k, settle_same c1)

finish_again : (c : Checker) → c.live ≡ [] → (settle c).0 ≡ ok tt → finish c ≡ (ok tt, c)
unfolding finish close_sessions
finish_again c bare e =
    subst (λ pending. and_then (λ _. settle) (close_sessions pending c) ≡ (ok tt, c)) (sym bare)
      (go (settle c) e (settle_same c))
  where
    go : (p : Outcome (Unit {0}) × Checker) → p.0 ≡ ok tt → p.1 ≡ c → p ≡ (ok tt, c)
    go (o, c1) k l = ground arith

-- A `finish` that returns has ended every session that was open, leaves none open, and may be called
-- again: it returns and changes nothing.
pub finish_ends :
    (c : Checker)
    → (finish c).0 ≡ ok tt
    → ((finish c).1.live ≡ [])
      × ((sid : ℕ) → contains (finish c).1.ended sid ≡ (has sid c.live || contains c.ended sid))
      × (finish (finish c).1 ≡ (ok tt, (finish c).1))
unfolding Closed
finish_ends c e =
    let (looped, settled, same) = finish-ok c e in
    let (gone, ended) = close_sessions-Closed c.live c looped in
    let bare : (finish c).1.live ≡ [] =
      ap (λ (k : Checker). k.live) same ∙ gone ∙ erase_all_bare c.live c.live (λ k p. p) in
    (
      bare,
      λ sid. ap (λ (k : Checker). contains k.ended sid) same ∙ ended sid,
      finish_again (finish c).1 bare (ap (λ k. (settle k).0) same ∙ settled),
    )

close_sessions-Leaves :
    (x : CoverageLedger) (pending : Dict ℕ SessionState) (c : Checker)
    → c.coverage ≡ x
    → Leaves x (close_sessions pending c)
unfolding close_sessions close_session ended_session
close_sessions-Leaves x [] c h = h
close_sessions-Leaves x ((sid, s) ∷ rest) c h =
    and_then-Leaves x (λ _. close_sessions rest) (close_session sid s c)
      (close_participants-Leaves x s (ended_session sid c) h)
      (λ _ c1 k. close_sessions-Leaves x rest c1 k)

settle-findings : (c : Checker) → (settle c).0 ≡ ok tt → findings c.coverage ≡ []
unfolding settle check_unmarked_breaks
settle-findings c e = ground arith

-- The input streams of a file that passes are accounted for.
finish-AllAccounted : (c : Checker) → (finish c).0 ≡ ok tt → AllAccounted c.coverage.streams
finish-AllAccounted c e =
    let (looped, settled, same) = finish-ok c e in
    let clean = settle-findings (close_sessions c.live c).1 settled in
    (findings-AllAccounted c.coverage).0
      (rw (← close_sessions-Leaves c.coverage c.live c refl) clean)

AllAccounted-lookup :
    (streams : Dict StreamKey StreamLedger) (key : StreamKey) (s : StreamLedger)
    → AllAccounted streams
    → lookup key streams ≡ some s
    → Accounted s
unfolding lookup
AllAccounted-lookup [] key s h e = cc
AllAccounted-lookup ((k, t) ∷ rest) key s h e = elim (Bool-cases (key_eq.beq k key)) [
  | inl own ↦ let same : t ≡ s = some-injective t s (rw own at e) in subst Accounted same h.0
  | inr other ↦ AllAccounted-lookup rest key s h.1 (rw other at e)
]

length_cited : (xs : List Interval) (o : ℕ) → covers xs o ≡ true → 0 < length xs
unfolding covers
length_cited [] o h = absurd (ground arith)
length_cited ((a, b) ∷ xs) o h = omega arith

-- In a stream that is accounted for and that spans cite, all below a covered offset is covered.
Accounted-covers :
    (s : StreamLedger) (o p q : ℕ)
    → Accounted s
    → covers s.spans q ≡ true
    → (covers s.spans p || covers s.undecoded p) ≡ true
    → o ≤ p
    → (covers s.spans o || covers s.undecoded o) ≡ true
Accounted-covers s o p q h cited reached below =
    let bound = reach_bound (covered s) p (covers-covered s p ∙ reached) in
    h.0 (length_cited s.spans q cited) o (omega arith)

ledger_for-Accounted :
    (l : CoverageLedger) (key : StreamKey) (q : ℕ)
    → AllAccounted l.streams
    → covers (ledger_for key l).spans q ≡ true
    → Accounted (ledger_for key l)
unfolding ledger_for covers
ledger_for-Accounted l key q h cited = elim (Option-cases (lookup key l.streams)) [
  | inl e ↦ absurd (ground (arith, e))
  | inr (s, e) ↦ rw e (AllAccounted-lookup l.streams key s h e)
]

-- The coverage guarantee of a file that passes: if some record's span cites the input stream, then
-- every offset below one that a span cites or an Undecoded block marks is itself cited or marked.
pub passed_covered :
    (bs : List Block)
    → (check bs checker).0 ≡ ok tt
    → (finish (check bs checker).1).0 ≡ ok tt
    → (key : StreamKey) (o p q : ℕ) → is_cited key q bs ≡ true
    → (is_cited key p bs || is_marked [] key p bs) ≡ true
    → o ≤ p
    → (is_cited key o bs || is_marked [] key o bs) ≡ true
passed_covered bs e f key o p q cited reached below =
    let l = observe_all bs coverage_ledger in
    let spans = (observe_all-Cited bs key).0.1 in
    let marks = (observe_all-Cited bs key).1.1 in
    let all : AllAccounted l.streams =
      rw (← check-coverage bs checker e) (finish-AllAccounted (check bs checker).1 f) in
    let held = ledger_for-Accounted l key q all (spans q ∙ cited) in
    let both =
      Accounted-covers (ledger_for key l) o p q held (spans q ∙ cited)
        (ground (arith, spans p, marks p)) below in
    ground (arith, both, spans o, marks o)
