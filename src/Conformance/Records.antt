-- ===== src/Conformance/Records.antt =====
-- conformance.py: the checks of a record against its participant's state.
pub mod Placing
pub mod Gaps
pub mod Neighbours
use python_zipline.Base.{
  ℕ, ◌+◌, ◌%◌, min, max, Bool, true, false, not, ◌&&◌, ◌||◌, Option, none, some, List, [], ◌∷◌,
  ◌++◌, ltb, leb, ◌==◌, if◌then◌else◌, is_some,
}
use python_zipline.Base.Int.{ℤ, pos, leb_ℤ}
use python_zipline.Base.Dict.{nat_eq, list_eq, include, Dict, lookup, insert}
use python_zipline.Base.Outcome.{Fault, semantic, Outcome, ok, raised, ◌>>=◌, ◌>>◌, guard}
use python_zipline.Blocks.Types.{Bytes, Text, Span, Record}
use python_zipline.Content.{ContentType, is_prim, is_net, parse, prim_fault, net_fault}
use python_zipline.Order.Serial.{seq_space, seq_leq, serial_delta}
use python_zipline.Order.Walk.{has_bit, syn_bit}
use python_zipline.Conformance.State.{
  capture, zpf_input, decoded, transport, units, StreamKey, key_eq, BreakCandidate,
  ParticipantState, Advice, content_type_advice, handshake_advice, label_advice, adjacency_advice,
  Unplaceable, without_seq_start, below_predecessor, below_origin,
}
use python_zipline.Conformance.Coverage.{span_key}

abbrev pub copy_bit : ℕ
copy_bit = 0x100

label_fault : Bytes → ContentType → Bool
label_fault payload label =
    if is_prim label
    then is_some (prim_fault payload label.value)
    else if is_net label
    then net_fault label.value
    else false

-- A finding, where there is one.
abbrev pub note_if : Bool → Advice → List Advice
note_if holds advice = if holds then advice ∷ [] else []

type_finding : Bytes → Option Text → List Advice
unfolding label_fault
type_finding payload none = []
type_finding payload (some label) = note_if (label_fault payload (parse label)) content_type_advice

-- _content_type_finding
unfoldable pub content_type_finding : Record → List Advice
unfolding type_finding
content_type_finding r = type_finding r.payload r.content_type

misplaced : Option ℕ → Option ℕ → Bool
misplaced (some isn) (some seq_start) = not (seq_start == (isn + 1) % seq_space)
misplaced isn seq_start = false

-- _handshake_placement
unfoldable pub handshake_placement : Record → ParticipantState → List Advice
unfolding misplaced
handshake_placement r stream =
    note_if (has_bit r.flags syn_bit && misplaced stream.isn r.seq_start) handshake_advice

-- _transport_label
unfoldable pub transport_label : Record → ℕ → List Advice
transport_label r layer =
    note_if (not (layer == decoded) && (is_some r.content_type || is_some r.role)) label_advice

-- The condition of _transport_adjacency, which then also writes `adjacency_reported`.
unfoldable pub reports_adjacency : ℕ → ParticipantState → Bool
reports_adjacency layer stream =
    layer == transport && (stream.adjacency == units && not stream.adjacency_reported)

unfoldable pub place_at : ℕ → Option ℕ → ParticipantState → List Unplaceable × ParticipantState
place_at seq_start none stream =
    ([], record stream { anchor_seq = some seq_start; placed_any = true })
place_at seq_start (some anchor) stream =
    if leb_ℤ (pos 0) (serial_delta seq_start anchor)
    then ([], record stream { anchor_seq = some seq_start; placed_any = true })
    else ((if stream.placed_any then below_predecessor else below_origin) ∷ [], stream)

unfoldable pub place_record : Option ℕ → ParticipantState → List Unplaceable × ParticipantState
unfolding place_at
place_record none stream =
    (if is_some stream.anchor_seq then without_seq_start ∷ [] else [], stream)
place_record (some seq_start) stream = place_at seq_start stream.anchor_seq stream

-- _check_placement
unfoldable pub check_placement : Record → ParticipantState → List Unplaceable × ParticipantState
unfolding place_record
check_placement r stream = place_record r.seq_start stream

unfoldable pub follows : Option ℕ → Option ℕ → Bool
follows (some seq_start) (some last) = seq_leq last seq_start
follows seq_start last = true

-- _check_record_order
unfoldable pub check_record_order : Record → ParticipantState → Outcome (Unit {0})
unfolding follows
check_record_order r stream = guard (follows r.seq_start stream.last_seq) semantic

-- Is there a decoder, and one whose declared layer is not the transport layer?
decoder_not_transport : Dict ℕ ℕ → Option ℕ → Bool
unfolding lookup
decoder_not_transport decoders none = false
decoder_not_transport decoders (some decoder_id) = elim (lookup decoder_id decoders) [
  | none ↦ true
  | some layer ↦ not (layer == transport)
]

repeats : Bytes → Option Bytes → Bool
repeats payload none = false
repeats payload (some prev) = list_eq.beq payload prev

-- _check_copy
unfoldable pub check_copy : Record → Dict ℕ ℕ → ParticipantState → Outcome Bool
unfolding decoder_not_transport repeats
check_copy r decoders stream =
    if not (has_bit r.flags copy_bit)
    then ok false
    else if decoder_not_transport decoders r.decoder_id
    then ok false
    else do
      guard (is_some stream.prev_payload) semantic
      guard (repeats r.payload stream.prev_payload) semantic
      guard (not (is_some r.seq_start || stream.seq_anchored)) semantic
      ok true

-- A lookup that must succeed.
unfoldable pub found : {A : Type 0} → Option A → Outcome A
found none = raised semantic
found (some a) = ok a

-- _require_source
unfoldable pub require_source : ℕ → Dict ℕ ℕ → Outcome ℕ
unfolding lookup found
require_source source_id sources = found (lookup source_id sources)

-- `kind in (SourceKind.CAPTURE, SourceKind.ZPF_INPUT)`
abbrev pub known_kind : ℕ → Bool
known_kind kind = kind == capture || kind == zpf_input

-- _check_spans
unfoldable pub check_spans : Dict ℕ ℕ → List Span → Outcome (Unit {0})
unfolding require_source
check_spans sources [] = ok tt
check_spans sources (s ∷ rest) = do
  kind ← require_source s.source_id sources
  guard (kind == zpf_input) semantic
  check_spans sources rest

-- The layer that a record belongs to.
unfoldable pub resolve_layer : Option ℕ → Dict ℕ ℕ → Outcome ℕ
unfolding lookup found
resolve_layer none decoders = ok transport
resolve_layer (some decoder_id) decoders = found (lookup decoder_id decoders)

abbrev pub or_else : Option ℕ → ℕ → ℕ
or_else none d = d
or_else (some n) d = n

-- The loop of _track_break_candidates over the spans.
pub reach_and_starts :
    List Span → Dict StreamKey ℕ × Dict StreamKey ℕ → Dict StreamKey ℕ × Dict StreamKey ℕ
unfolding lookup insert
reach_and_starts [] found = found
reach_and_starts (s ∷ rest) (reach, starts) = reach_and_starts rest (
  insert (span_key s) (max (or_else (lookup (span_key s) reach) s.off_end) s.off_end) reach,
  insert (span_key s) (min (or_else (lookup (span_key s) starts) s.off_start) s.off_start) starts,
)

pub candidate_if : StreamKey → ℕ → Option ℕ → List BreakCandidate
candidate_if key begins none = []
candidate_if key begins (some ends) =
    if ltb ends begins then record { stream = key; gap = (ends, begins) } ∷ [] else []

pub candidates_of : Dict StreamKey ℕ → Dict StreamKey ℕ → List BreakCandidate
unfolding lookup candidate_if
candidates_of [] prev_reach = []
candidates_of ((key, begins) ∷ rest) prev_reach =
    candidate_if key begins (lookup key prev_reach) ++ candidates_of rest prev_reach

-- _track_break_candidates
unfoldable pub track_break_candidates : Record → ParticipantState → ParticipantState
unfolding reach_and_starts candidates_of
track_break_candidates r stream =
    let (reach, starts) = reach_and_starts r.spans ([], []) in
    record stream {
      candidates =
          if stream.broke_since
          then stream.candidates
          else stream.candidates ++ candidates_of starts stream.prev_reach;
      prev_reach = reach;
      broke_since = false;
    }

-- What _classify_record writes of the stream once no check is left.
unfoldable pub classified : Record → ℕ → ℕ → ParticipantState → ParticipantState
unfolding track_break_candidates
classified r source_kind layer stream = track_break_candidates r (record stream {
  provenances = include source_kind stream.provenances;
  layers = include layer stream.layers;
})

-- The last lines of `_on_record`.
unfoldable pub note_record : Record → Bool → ParticipantState → ParticipantState
note_record r copy stream = record stream {
  last_seq = if is_some r.seq_start then r.seq_start else stream.last_seq;
  seq_anchored = is_some r.seq_start || stream.seq_anchored;
  first_copy = copy || stream.first_copy;
  prev_payload = some r.payload;
}
