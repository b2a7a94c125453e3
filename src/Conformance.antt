-- ===== src/Conformance.antt =====
-- conformance.py: the checker of a block stream.
pub mod State
pub mod Monad
pub mod Coverage
pub mod Records
pub mod Registry
pub mod Undecodeds
pub mod Closing
pub mod Handlers
pub mod Quiet
pub mod Observed
pub mod Finished
pub mod Unbroken
use python_zipline.Base.{
  ℕ, Bool, true, false, not, ◌&&◌, ◌||◌, Option, none, some, List, [], ◌∷◌, ltb, if◌then◌else◌,
  length, is_some,
}
use python_zipline.Base.Outcome.{Fault, semantic, advisory, Outcome, ok, raised, guard}
use python_zipline.Blocks.Types.{
  Block, file_header, source, decoder, session, participant, session_end, record_block, undecoded,
  discontinuity, name_resolution, end,
}
use python_zipline.Binary.Writer.{is_header}
use State.{Checker}
use Monad.{Action, and_then, pure, lift, gets, modify, require, ◌>>=◌, ◌>>◌}
use Coverage.{observe_coverage, findings}
use Closing.{close_sessions, check_unmarked_breaks}
use Handlers.{
  on_file_header, on_source, on_decoder, on_session, on_participant, on_session_end, on_record,
  on_undecoded, on_discontinuity, on_name, on_end,
}

-- The dispatch on the type of the block; a Custom or an unknown block has no handler.
unfoldable pub handle : Block → Action (Unit {0})
handle (file_header b) = on_file_header b
handle (source b) = on_source b
handle (decoder b) = on_decoder b
handle (session b) = on_session b
handle (participant b) = on_participant b
handle (session_end b) = on_session_end b
handle (record_block b) = on_record b
handle (undecoded b) = on_undecoded b
handle (discontinuity b) = on_discontinuity b
handle (name_resolution b) = on_name b
handle (end b) = on_end
handle b = pure tt

-- The two tests before a block is looked at.
unfoldable pub admit : Block → Action (Unit {0})
admit b c = (guard (not c.file_ended && (is_some c.header || is_header b)) semantic, c)

-- The end of `observe`: the block's coverage, then the findings that are read past.
unfoldable pub absorb : Block → Action (Unit {0})
unfolding observe_coverage
absorb b = do
  modify (λ c. record c { coverage = observe_coverage b c.coverage })
  clean ← gets (λ c. not (ltb 0 (length c.advisory)))
  require clean advisory

unfoldable pub observe : Block → Action (Unit {0})
unfolding admit handle absorb
observe b = do
  admit b
  modify (λ c. record c { advisory = []; unplaceable = [] })
  handle b
  absorb b

unfoldable pub check : List Block → Action (Unit {0})
unfolding observe
check [] c = (ok tt, c)
check (b ∷ bs) c = and_then (λ _. check bs) (observe b c)

-- The whole-file rulings of `finish`, behind its loop.
unfoldable pub settle : Action (Unit {0})
unfolding check_unmarked_breaks findings
settle = do
  misplaced ← gets (λ c. c.transform_digest && not c.saw_zpf_sourced)
  require (not misplaced) semantic
  c ← gets (λ c. c)
  lift (check_unmarked_breaks c)
  require (not (ltb 0 (length (findings c.coverage)))) semantic

unfoldable pub finish : Action (Unit {0})
unfolding close_sessions settle
finish = do pending ← gets (λ c. c.live); close_sessions pending; settle
