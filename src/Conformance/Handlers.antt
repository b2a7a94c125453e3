-- ===== src/Conformance/Handlers.antt =====
-- conformance.py: the handlers of the checker, one for each type of block.
pub mod Frame
pub mod Leaves
pub mod Declares
pub mod Refers
pub mod Taken
pub mod Streams
use python_zipline.Base.{
  ℕ, ◌+◌, ◌%◌, Bool, true, false, not, ◌&&◌, ◌||◌, Option, none, some, List, [], ◌∷◌, ◌++◌, ltb,
  ◌==◌, if◌then◌else◌, length, is_some,
}
use python_zipline.Base.Dict.{nat_eq, list_eq, contains, include, Dict, lookup, has, insert, erase}
use python_zipline.Base.Outcome.{Fault, semantic, Outcome, ok, raised, guard}
use python_zipline.Blocks.Types.{
  FileHeader, Source, Decoder, Session, Participant, SessionEnd, Record, Undecoded, Discontinuity,
  NameResolution,
}
use python_zipline.Intervals.Spec.{Interval}
use python_zipline.Order.Serial.{seq_space}
use python_zipline.Conformance.State.{
  capture, zpf_input, contiguous, units, StreamKey, key_eq, ParticipantState, SessionState, Advice,
  adjacency_advice, Unplaceable, Checker,
}
use python_zipline.Conformance.Monad.{Action, pure, lift, gets, modify, require, ◌>>=◌, ◌>>◌}
use python_zipline.Conformance.Coverage.{undecoded_key}
use python_zipline.Conformance.Records.{
  note_if, content_type_finding, handshake_placement, transport_label, reports_adjacency,
  check_placement, check_record_order, check_copy, found, require_source, known_kind, check_spans,
  resolve_layer, classified, note_record,
}
use python_zipline.Conformance.Undecodeds.{
  hole_class, dropped, is_class, reason_class_of, check_reason_class, check_against_capture,
  decoder_declared,
}
use python_zipline.Conformance.Closing.{close_participants, ended_session}

-- `_note`, for findings of which there may be none.
abbrev pub note : List Advice → Action (Unit {0})
note advice = modify (λ c. record c { advisory = c.advisory ++ advice })

-- _require_live_session
unfoldable pub require_live_session : ℕ → Action SessionState
unfolding lookup found
require_live_session session_id c = (found (lookup session_id c.live), c)

unfoldable pub require_participant : ℕ → SessionState → Outcome ParticipantState
unfolding lookup found
require_participant participant_id s = found (lookup participant_id s)

-- The participant's state is an object that the session's table shares.
pub save : ℕ → ℕ → ParticipantState → SessionState → Checker → Checker
save session_id participant_id stream s c = record c {
  live = insert session_id (insert participant_id stream s) c.live;
}

unfoldable pub header_derived : Option FileHeader → Bool
header_derived none = false
header_derived (some h) = is_some h.produced_by && is_some h.produced_at

-- _require_derived_header
unfoldable pub require_derived_header : Action (Unit {0})
unfolding header_derived
require_derived_header c = (guard (header_derived c.header) semantic, c)

unfoldable pub on_file_header : FileHeader → Action (Unit {0})
on_file_header h = do
  first ← gets (λ c. not (is_some c.header))
  require first semantic
  modify (λ c. record c {
    header = some h;
    transform_digest = is_some h.transform_params_digest || c.transform_digest;
  })

unfoldable pub on_source : Source → Action (Unit {0})
unfolding has insert
on_source b = do
  fresh ← gets (λ c. not (has b.source_id c.sources))
  require fresh semantic
  modify (λ c. record c { sources = insert b.source_id b.kind c.sources })

unfoldable pub on_decoder : Decoder → Action (Unit {0})
unfolding has insert
on_decoder b = do
  fresh ← gets (λ c. not (has b.decoder_id c.decoders))
  require fresh semantic
  modify (λ c. record c { decoders = insert b.decoder_id b.output_layer c.decoders })

unfoldable pub on_session : Session → Action (Unit {0})
unfolding has insert
on_session b = do
  fresh ← gets (λ c. not (has b.session_id c.live || contains c.ended b.session_id))
  require fresh semantic
  modify (λ c. record c { live = insert b.session_id [] c.live })

origin_of : Option ℕ → Option ℕ
origin_of none = none
origin_of (some isn) = some ((isn + 1) % seq_space)

unfoldable pub participant_state : Participant → ParticipantState
unfolding origin_of
participant_state b = record {
  adjacency = b.adjacency;
  adjacency_reported = false;
  isn = b.isn;
  provenances = [];
  layers = [];
  has_discontinuity = false;
  anchor_seq = origin_of b.isn;
  placed_any = false;
  last_seq = none;
  prev_reach = [];
  broke_since = false;
  candidates = [];
  prev_payload = none;
  seq_anchored = false;
  first_copy = false;
}

unfoldable pub on_participant : Participant → Action (Unit {0})
unfolding has save
on_participant b = do
  s ← require_live_session b.session_id
  require (not (has b.participant_id s)) semantic
  require (b.adjacency == contiguous || b.adjacency == units) semantic
  modify (save b.session_id b.participant_id (participant_state b) s)

-- The last lines of `_on_session_end`.
unfoldable pub close_session_end : SessionEnd → SessionState → Action (Unit {0})
unfolding ended_session
close_session_end b s = do modify (ended_session b.session_id); close_participants s

unfoldable pub on_session_end : SessionEnd → Action (Unit {0})
unfolding close_session_end
on_session_end b = do
  if ltb 0 (length b.input_extents) then require_derived_header else pure tt
  s ← require_live_session b.session_id
  close_session_end b s

-- _transport_adjacency, with the note of it
unfoldable pub note_adjacency :
    Record → SessionState → ℕ → ParticipantState → Action ParticipantState
unfolding save
note_adjacency r s layer stream =
    if reports_adjacency layer stream
    then (let stream' : ParticipantState = record stream { adjacency_reported = true } in
        do
          note (adjacency_advice ∷ [])
          modify (save r.session_id r.sender_pid stream' s)
          pure stream')
    else pure stream

-- What a record of a zpf-input source owes.
unfoldable pub check_provenance : Record → ℕ → Action (Unit {0})
check_provenance r source_kind =
    if source_kind == zpf_input
    then (do
      require (ltb 0 (length r.spans)) semantic
      require_derived_header
      modify (λ c. record c { saw_zpf_sourced = true }))
    else pure tt

-- _classify_record
unfoldable pub classify_record : Record → SessionState → ParticipantState → Action ParticipantState
unfolding note_adjacency
classify_record r s stream = do
  c ← gets (λ c. c)
  source_kind ← lift (require_source r.source_id c.sources)
  require (known_kind source_kind) semantic
  layer ← lift (resolve_layer r.decoder_id c.decoders)
  note (transport_label r layer)
  stream' ← note_adjacency r s layer stream
  lift (check_spans c.sources r.spans)
  check_provenance r source_kind
  pure (classified r source_kind layer stream')

unfoldable pub note_placement : Record → SessionState → ParticipantState → Action ParticipantState
unfolding save
note_placement r s stream =
    let (notes, stream') = check_placement r stream in
    do
      modify (λ c. record c { unplaceable = c.unplaceable ++ notes })
      modify (save r.session_id r.sender_pid stream' s)
      pure stream'

-- The checks of `_on_record` behind the placement, and what it writes.
unfoldable pub take_record : Record → SessionState → ParticipantState → Action (Unit {0})
unfolding save
take_record r s placed = do
  lift (check_record_order r placed)
  decoders ← gets (λ c. c.decoders)
  copy ← lift (check_copy r decoders placed)
  stream' ← classify_record r s placed
  modify (save r.session_id r.sender_pid (note_record r copy stream') s)

unfoldable pub on_record : Record → Action (Unit {0})
unfolding note_placement take_record
on_record r = do
  s ← require_live_session r.session_id
  stream ← lift (require_participant r.sender_pid s)
  note (content_type_finding r)
  note (handshake_placement r stream)
  placed ← note_placement r s stream
  take_record r s placed

unfoldable pub on_discontinuity : Discontinuity → Action (Unit {0})
unfolding save
on_discontinuity b = do
  s ← require_live_session b.session_id
  stream ← lift (require_participant b.participant_id s)
  modify (
      save b.session_id b.participant_id
        (record stream { has_discontinuity = true; broke_since = true }) s)

regions_of : Option (List Interval) → List Interval
regions_of none = []
regions_of (some regions) = regions

append_region :
    StreamKey → Interval → Dict StreamKey (List Interval) → Dict StreamKey (List Interval)
unfolding lookup insert regions_of
append_region key region regions =
    insert key (regions_of (lookup key regions) ++ (region ∷ [])) regions

pub note_region : Undecoded → Checker → Checker
unfolding append_region
note_region u c =
    let region : Interval = (u.off_start, u.off_end) in
    if ltb u.off_start u.off_end
    then (if is_class (reason_class_of u) hole_class
        then record c { holes = append_region (undecoded_key u) region c.holes }
        else if is_class u.reason dropped
        then record c { removed = append_region (undecoded_key u) region c.removed }
        else c)
    else c

unfoldable pub on_undecoded : Undecoded → Action (Unit {0})
unfolding note_region
on_undecoded u = do
  c ← gets (λ c. c)
  kind ← lift (require_source u.source_id c.sources)
  require (known_kind kind) semantic
  require (decoder_declared u.decoder_id c.decoders) semantic
  lift (check_reason_class u)
  if kind == capture
      then lift (check_against_capture u)
      else (do modify (note_region u); require_derived_header)

unfoldable pub on_name : NameResolution → Action (Unit {0})
unfolding has
on_name b = do s ← require_live_session b.session_id; require (has b.participant_id s) semantic

unfoldable pub on_end : Action (Unit {0})
on_end = modify (λ c. record c { file_ended = true })
