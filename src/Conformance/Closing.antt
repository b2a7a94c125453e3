-- ===== src/Conformance/Closing.antt =====
-- conformance.py: the rulings that wait for the end of a session or of the file.
pub mod Added
pub mod Breaks
use python_zipline.Base.{
  ℕ, Bool, true, false, not, ◌&&◌, ◌||◌, Option, none, some, List, [], ◌∷◌, ◌++◌, ltb, leb, ◌==◌,
  if◌then◌else◌, length,
}
use python_zipline.Base.Dict.{nat_eq, contains, include, Dict, lookup, erase}
use python_zipline.Base.Outcome.{Fault, semantic, Outcome, ok, raised, ◌>>=◌, ◌>>◌, guard}
use python_zipline.Intervals.Spec.{Interval}
use python_zipline.Conformance.State.{
  decoded, transport, units, StreamKey, key_eq, BreakCandidate, ParticipantState, SessionState,
  Checker,
}
use python_zipline.Conformance.Monad.{Action, and_then}

all_known : List ℕ → Bool
all_known [] = true
all_known (layer ∷ rest) = (layer == decoded || layer == transport) && all_known rest

-- The checks of _check_participant.
unfoldable pub check_stream : ParticipantState → Outcome (Unit {0})
unfolding all_known
check_stream stream = do
  guard (leb (length stream.layers) 1) semantic
  guard (all_known stream.layers) semantic
  guard (not (stream.first_copy && stream.seq_anchored)) semantic
  guard (not stream.has_discontinuity || contains stream.layers decoded) semantic

unfoldable pub breaks_of : ParticipantState → List BreakCandidate
breaks_of stream =
    if contains stream.layers decoded && not (stream.adjacency == units)
    then stream.candidates
    else []

unfoldable pub insert_pid : ℕ × ParticipantState → SessionState → SessionState
insert_pid x [] = x ∷ []
insert_pid x (y ∷ ys) = if leb x.0 y.0 then x ∷ (y ∷ ys) else y ∷ insert_pid x ys

-- `sorted(state.participants)`, with the states: the keys of a dict are distinct.
unfoldable pub sort_participants : SessionState → SessionState
unfolding insert_pid
sort_participants [] = []
sort_participants (x ∷ xs) = insert_pid x (sort_participants xs)

unfoldable pub close_if : ParticipantState → Outcome (Unit {0}) → Checker → Checker
close_if stream (raised fault) c = c
close_if stream (ok u) c = record c { breaks = c.breaks ++ breaks_of stream }

-- _check_participant
unfoldable pub check_participant : ParticipantState → Action (Unit {0})
unfolding close_if
check_participant stream c = (check_stream stream, close_if stream (check_stream stream) c)

unfoldable pub close_each : SessionState → Action (Unit {0})
unfolding check_participant
close_each [] c = (ok tt, c)
close_each ((pid, stream) ∷ rest) c = and_then (λ _. close_each rest) (check_participant stream c)

-- _close_participants
unfoldable pub close_participants : SessionState → Action (Unit {0})
unfolding close_each sort_participants
close_participants s = close_each (sort_participants s)

-- `del self._live[session_id]` and `self._ended.add(session_id)`
unfoldable pub ended_session : ℕ → Checker → Checker
unfolding erase
ended_session session_id c = record c {
  live = erase session_id c.live;
  ended = include session_id c.ended;
}

-- One turn of the loop of `finish`.
unfoldable pub close_session : ℕ → SessionState → Action (Unit {0})
unfolding ended_session close_participants
close_session session_id s c = close_participants s (ended_session session_id c)

-- The loop of `finish`, over the sessions that are live when it starts.
unfoldable pub close_sessions : Dict ℕ SessionState → Action (Unit {0})
unfolding close_session
close_sessions [] c = (ok tt, c)
close_sessions ((session_id, s) ∷ rest) c =
    and_then (λ _. close_sessions rest) (close_session session_id s c)

-- Does some region overlap the gap?
unfoldable pub overlaps : Interval → List Interval → Bool
overlaps gap [] = false
overlaps gap ((a, b) ∷ rest) = (ltb a gap.1 && ltb gap.0 b) || overlaps gap rest

unfoldable pub regions_at : StreamKey → Dict StreamKey (List Interval) → List Interval
unfolding lookup
regions_at key regions = elim (lookup key regions) [ none ↦ [] | some found ↦ found ]

unfoldable pub is_unmarked :
    Dict StreamKey (List Interval) → Dict StreamKey (List Interval) → BreakCandidate → Bool
unfolding regions_at overlaps
is_unmarked holes removed b =
    overlaps b.gap (regions_at b.stream holes) || overlaps b.gap (regions_at b.stream removed)

unfoldable pub any_unmarked :
    Dict StreamKey (List Interval) → Dict StreamKey (List Interval) → List BreakCandidate → Bool
unfolding is_unmarked
any_unmarked holes removed [] = false
any_unmarked holes removed (b ∷ rest) =
    is_unmarked holes removed b || any_unmarked holes removed rest

-- _check_unmarked_breaks
unfoldable pub check_unmarked_breaks : Checker → Outcome (Unit {0})
unfolding any_unmarked
check_unmarked_breaks c = guard (not (any_unmarked c.holes c.removed c.breaks)) semantic
