-- ===== src/Conformance/Observed.antt =====
-- `observe` and `check` of conformance.py against the registry's discipline.
use python_zipline.Base.{
  ℕ, ◌≡◌, refl, ◌⊎◌, Bool, true, false, not, ◌&&◌, ◌||◌, none, List, [], ◌∷◌, is_some, arith,
  Bool-cases, inl, inr,
}
use python_zipline.Base.Outcome.{semantic, advisory, Outcome, ok, raised, guard}
use python_zipline.Blocks.Types.{
  Block, file_header, source, decoder, session, participant, session_end, record_block, undecoded,
  discontinuity, name_resolution, end, custom, unknown_block,
}
use python_zipline.Binary.Writer.{is_header}
use python_zipline.Conformance.State.{Checker, checker}
use python_zipline.Conformance.Monad.{and_then}
use python_zipline.Conformance.Registry.{
  Registry, registry, Begins, Names, Allowed, declare, Referenced,
}
use python_zipline.Order.Stored.Chains.{ChainFrom}
use python_zipline.Conformance.Registry.Chains.{seqs_sent, Referenced-ChainFrom}
use python_zipline.Conformance.Coverage.{observe_coverage}
use python_zipline.Conformance.Handlers.{
  on_file_header, on_source, on_decoder, on_session, on_participant, on_session_end, on_record,
  on_undecoded, on_discontinuity, on_name, on_end,
}
use python_zipline.Conformance.Handlers.Frame.{Post, standing, Matches}
use python_zipline.Conformance.Handlers.Declares.{
  Steps, on_source-Steps, on_decoder-Steps, on_file_header-Post, on_session-Steps,
  on_participant-Steps,
}
use python_zipline.Conformance.Handlers.Refers.{
  on_discontinuity-Steps, on_name-Steps, on_undecoded-Steps, on_session_end-Post,
}
use python_zipline.Conformance.Handlers.Taken.{on_record-Steps}
use python_zipline.Conformance.Quiet.{IsQuiet, handle-IsQuiet}
use python_zipline.Conformance.{handle, admit, absorb, observe, check}

-- A block that is refused declares nothing; a Session End may have closed its session.
abbrev pub Refused : Registry → Block → Checker → Type 0
Refused R (session_end b) c = Matches R c ⊎ Matches (declare (session_end b) R) c
Refused R b c = Matches R c

abbrev pub Taken : Registry → Block → Checker → Type 0
Taken R b c = Allowed R b × Matches (declare b R) c

-- What a call of `observe` comes to. A block with an advisory finding has been taken.
abbrev pub Observed : Registry → Block → Outcome (Unit {0}) × Checker → Type 0
Observed R b (ok u, c) = Taken R b c
Observed R b (raised advisory, c) = Taken R b c
Observed R b (raised fault, c) = Refused R b c

abbrev Handled : Registry → Block → Outcome (Unit {0}) × Checker → Type 0
Handled R b p =
    Post (λ _ c'. (Begins R.started b × Names R b) × Matches (declare b R) c') (Refused R b) p

with_start :
    (R : Registry) (b : Block) (p : Outcome (Unit {0}) × Checker)
    → Begins R.started b
    → ((c : Checker) → Matches R c → Refused R b c)
    → Steps R b p
    → Handled R b p
with_start R b (raised fault, c) s k h = k c h
with_start R b (ok a, c) s k h = ((s, h.0), h.1)

handle-Handled :
    (b : Block) (R : Registry) (c : Checker)
    → (R.started || is_header b) ≡ true
    → Matches R c
    → Handled R b (handle b c)
unfolding handle on_end standing
handle-Handled (file_header b) R c s m = header (on_file_header b c) (on_file_header-Post b R c m)
  where
    header :
        (p : Outcome (Unit {0}) × Checker)
        → Post (λ _ c'. (R.started ≡ false) × Matches (declare (file_header b) R) c') (Matches R) p
        → Handled R (file_header b) p
    header (raised fault, c') h = h
    header (ok a, c') h = ((h.0, tt), h.1)
handle-Handled (source b) R c s m =
    with_start R (source b) (on_source b c) (ground arith) (λ c' h. h) (on_source-Steps b R c m)
handle-Handled (decoder b) R c s m =
    with_start R (decoder b) (on_decoder b c) (ground arith) (λ c' h. h) (on_decoder-Steps b R c m)
handle-Handled (session b) R c s m =
    with_start R (session b) (on_session b c) (ground arith) (λ c' h. h) (on_session-Steps b R c m)
handle-Handled (participant b) R c s m =
    with_start R (participant b) (on_participant b c) (ground arith) (λ c' h. h)
      (on_participant-Steps b R c m)
handle-Handled (record_block b) R c s m =
    with_start R (record_block b) (on_record b c) (ground arith) (λ c' h. h)
      (on_record-Steps b R c m)
handle-Handled (undecoded b) R c s m =
    with_start R (undecoded b) (on_undecoded b c) (ground arith) (λ c' h. h)
      (on_undecoded-Steps b R c m)
handle-Handled (discontinuity b) R c s m =
    with_start R (discontinuity b) (on_discontinuity b c) (ground arith) (λ c' h. h)
      (on_discontinuity-Steps b R c m)
handle-Handled (name_resolution b) R c s m =
    with_start R (name_resolution b) (on_name b c) (ground arith) (λ c' h. h)
      (on_name-Steps b R c m)
handle-Handled (session_end b) R c s m = ended (on_session_end b c) (on_session_end-Post b R c m)
  where
    ended :
        (p : Outcome (Unit {0}) × Checker)
        → Post
            (λ _ c'. Names R (session_end b) × Matches (declare (session_end b) R) c')
            (λ c'. Matches R c' ⊎ Matches (declare (session_end b) R) c')
            p
        → Handled R (session_end b) p
    ended (raised fault, c') h = h
    ended (ok a, c') h = ((ground arith, h.0), h.1)
handle-Handled (end b) R c s m = ((ground arith, tt), (m.0, m.1, m.2, m.3, m.4, refl))
handle-Handled (custom b) R c s m = ((ground arith, tt), m)
handle-Handled (unknown_block t content) R c s m = ((ground arith, tt), m)

-- The clauses of `Refused`, for a block that changes nothing.
kept-Refused : (R : Registry) (b : Block) (c : Checker) → Matches R c → Refused R b c
kept-Refused R (session_end b) c m = inl m
kept-Refused R (file_header b) c m = m
kept-Refused R (source b) c m = m
kept-Refused R (decoder b) c m = m
kept-Refused R (session b) c m = m
kept-Refused R (participant b) c m = m
kept-Refused R (record_block b) c m = m
kept-Refused R (undecoded b) c m = m
kept-Refused R (discontinuity b) c m = m
kept-Refused R (name_resolution b) c m = m
kept-Refused R (end b) c m = m
kept-Refused R (custom b) c m = m
kept-Refused R (unknown_block t content) c m = m

absorbed :
    (R : Registry) (b : Block) (clean : Bool) (c : Checker)
    → Taken R b c
    → Observed R b (guard clean advisory, c)
absorbed R b true c h = h
absorbed R b false c h = h

absorb-Observed :
    (R : Registry) (b : Block) (p : Outcome (Unit {0}) × Checker)
    → R.finished ≡ false
    → IsQuiet p.0
    → Handled R b p
    → Observed R b (and_then (λ _. absorb b) p)
unfolding absorb standing
absorb-Observed R b (raised semantic, c) f q h = h
absorb-Observed R b (raised advisory, c) f q h = cc
absorb-Observed R b (raised fault, c) f q h = h
absorb-Observed R b (ok a, c) f q h =
    let m = h.1 in
    absorbed R b _ (record c { coverage = observe_coverage b c.coverage })
      ((f, h.0.0, h.0.1), (m.0, m.1, m.2, m.3, m.4, m.5))

-- A block that is taken, with an advisory finding or without, may stand where it stands and names what
-- is declared, and the checker's tables hold afterwards what it declares; a block that is refused
-- declares nothing, save that a refused Session End may have closed its session.
pub observe-Observed :
    (b : Block) (R : Registry) (c : Checker) → Matches R c → Observed R b (observe b c)
unfolding observe admit standing
observe-Observed b R c m =
    elim (Bool-cases (not c.file_ended && (is_some c.header || is_header b))) [
      | inr early ↦ rw early (kept-Refused R b c m)
      | inl fits ↦ rw fits (
          absorb-Observed R b (handle b c1) (ground (arith, m.5)) (handle-IsQuiet b c1)
            (handle-Handled b R c1 (ground (arith, m.4)) (m.0, m.1, m.2, m.3, m.4, m.5)))
    ]
  where
    c1 : Checker
    c1 = record c { advisory = []; unplaceable = [] }

stream_taken :
    (b : Block) (bs : List Block) (R : Registry) (p : Outcome (Unit {0}) × Checker)
    → Observed R b p
    → ((c : Checker)
        → Matches (declare b R) c
        → (check bs c).0 ≡ ok tt
        → Referenced (declare b R) bs)
    → (and_then (λ _. check bs) p).0 ≡ ok tt
    → Referenced R (b ∷ bs)
unfolding Referenced
stream_taken b bs R (raised fault, c) h next e = cc
stream_taken b bs R (ok a, c) h next e = (h.0, next c h.1 e)

check-Referenced_from :
    (bs : List Block) (R : Registry) (c : Checker)
    → Matches R c
    → (check bs c).0 ≡ ok tt
    → Referenced R bs
unfolding check Referenced
check-Referenced_from [] R c m e = tt
check-Referenced_from (b ∷ bs) R c m e =
    stream_taken b bs R (observe b c) (observe-Observed b R c m)
      (λ c' m' e'. check-Referenced_from bs (declare b R) c' m' e') e

-- A stream that the checker passes keeps the discipline of declaration and reference from its first
-- block to its last.
pub check-Referenced : (bs : List Block) → (check bs checker).0 ≡ ok tt → Referenced registry bs
unfolding standing
check-Referenced bs e =
    check-Referenced_from bs registry checker
      (λ id. refl, λ id. refl, λ sid pid. refl, λ sid. refl, refl, refl) e

-- In a stream that the checker passes, the `seq_start` values of each participant of each session are
-- in serial order, each at or past the one before.
pub check-ChainFrom :
    (bs : List Block) (sid pid : ℕ)
    → (check bs checker).0 ≡ ok tt
    → ChainFrom none (seqs_sent sid pid bs)
check-ChainFrom bs sid pid e = Referenced-ChainFrom bs sid pid (check-Referenced bs e)
