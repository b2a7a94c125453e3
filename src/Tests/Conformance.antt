-- ===== src/Tests/Conformance.antt =====
-- The theorems on conformance.py at a concrete file: a decoding of one input stream.
use python_zipline.Base.{
  ℕ, ◌+◌, ◌≡◌, refl, true, ◌||◌, ◌↔◌, ◌==◌, if◌then◌else◌, none, some, List, [], ◌∷◌, ◌++◌, arith,
}
use python_zipline.Base.Int.{pos}
use python_zipline.Base.Outcome.{ok}
use python_zipline.Blocks.Types.{
  FileHeader, Source, Decoder, Session, Participant, SessionEnd, Record, Undecoded, Block,
  file_header, source, decoder, session, participant, session_end, record_block, undecoded, end,
}
use python_zipline.Conformance.State.{StreamKey, Checker, checker}
use python_zipline.Conformance.{handle, admit, absorb, observe, check, settle, finish}
use python_zipline.Conformance.Coverage.{
  covered, ledger_for, put_ledger, cite, cite_all, mark, declare_all, observe_coverage, reach_of,
  stream_findings, findings,
}
use python_zipline.Conformance.Records.{
  content_type_finding, handshake_placement, transport_label, reports_adjacency, place_at,
  place_record, check_placement, follows, check_record_order, check_copy, found, require_source,
  check_spans, resolve_layer, track_break_candidates, classified, note_record,
}
use python_zipline.Conformance.Undecodeds.{
  canonical_class, recoverability, reason_class_of, agrees, check_class, check_reason_class,
  check_against_capture, decoder_declared,
}
use python_zipline.Conformance.Closing.{
  check_stream, breaks_of, sort_participants, close_if, check_participant, close_each,
  close_participants, ended_session, close_session, close_sessions, overlaps, regions_at,
  is_unmarked, any_unmarked, check_unmarked_breaks,
}
use python_zipline.Conformance.Handlers.{
  require_live_session, require_participant, header_derived, require_derived_header, on_file_header,
  on_source, on_decoder, on_session, participant_state, on_participant, close_session_end,
  on_session_end, note_adjacency, check_provenance, classify_record, note_placement, take_record,
  on_record, on_discontinuity, on_undecoded, on_name, on_end,
}
use python_zipline.Base.Dict.{lookup, has, insert, erase}
use python_zipline.Order.Serial.{seq_lt, seq_leq, serial_delta}
use python_zipline.Content.{parse, prim_fault, net_fault, partition}
use python_zipline.Intervals.{add, coalesce, complement}
use python_zipline.Intervals.Spec.{covers, IsCoalesced}
use python_zipline.Order.Serial.{seq_high_bit}
use python_zipline.Order.Stored.Chains.{ChainFrom}
use python_zipline.Conformance.State.{CoverageLedger, ParticipantState, below_predecessor}
use python_zipline.Conformance.Registry.{registry, Referenced}
use python_zipline.Conformance.Registry.Chains.{seqs_sent}
use python_zipline.Conformance.Handlers.Frame.{standing, Matches}
use python_zipline.Conformance.Observed.{
  Observed, observe-Observed, check-Referenced, check-ChainFrom,
}
use python_zipline.Conformance.Coverage.Accounted.{AllAccounted, findings-AllAccounted}
use python_zipline.Conformance.Coverage.Cited.{
  is_cited, is_marked, observe_all, coverage_ledger, observe_all-Cited,
}
use python_zipline.Conformance.Finished.{finish_ends, passed_covered}
use python_zipline.Base.{false, Option}
use python_zipline.Conformance.State.{SessionState}
use python_zipline.Conformance.Handlers.Streams.{Holds}
use python_zipline.Conformance.Unbroken.{Turns, starts, sends, waits, finish-parted}
use python_zipline.Conformance.Records.Placing.{check_placement-half}
use python_zipline.Base.Dict.{contains, nat_eq}
use python_zipline.Tests.Blocks.{the_record}
use python_zipline.Tests.Binary.{the_header, the_end}

-- The header of a derived file.
abbrev pub derived : FileHeader
derived = record the_header { produced_by = some (122 ∷ []); produced_at = some (pos 5) }

abbrev pub the_source : Source
the_source = record {
  source_id = 1;
  kind = 1;
  uri = none;
  digest = none;
  link_type = none;
  comment = none;
  extra_options = [];
}

abbrev pub the_decoder : Decoder
the_decoder = record {
  decoder_id = 4;
  output_layer = 0;
  name = none;
  version = none;
  params_digest = none;
  comment = none;
  extra_options = [];
}

abbrev pub the_session : Session
the_session = record {
  session_id = 7;
  proto = none;
  flow_key = none;
  flags = 0;
  external_session_id = none;
  comment = none;
  extra_options = [];
}

abbrev pub the_participant : Participant
the_participant = record {
  session_id = 7;
  participant_id = 2;
  adjacency = 0;
  endpoints = [];
  isn = none;
  identity = none;
  tcp_role = none;
  comment = none;
  extra_options = [];
}

-- What lies before the record's span, skipped.
abbrev pub the_undecoded : Undecoded
the_undecoded = record {
  source_id = 1;
  session_id = 7;
  participant_id = 2;
  off_start = 0;
  off_end = 10;
  reason = some (115 ∷ 107 ∷ 105 ∷ 112 ∷ 112 ∷ 101 ∷ 100 ∷ []);
  reason_class = none;
  decoder_id = none;
  comment = none;
  extra_options = [];
}

abbrev pub the_session_end : SessionEnd
the_session_end = record {
  session_id = 7;
  reason = none;
  input_extents = record { source_id = 1; session_id = 7; participant_id = 2; extent = 25 } ∷ [];
  comment = none;
  extra_options = [];
}

abbrev pub declarations : List Block
declarations =
    file_header derived
    ∷ source the_source
    ∷ decoder the_decoder
    ∷ session the_session
    ∷ participant the_participant
    ∷ []

abbrev pub the_file : List Block
the_file =
    declarations
    ++ (record_block the_record
        ∷ undecoded the_undecoded
        ∷ session_end the_session_end
        ∷ end the_end
        ∷ [])

-- A file that ends without Session End blocks.
abbrev open_end : Checker
open_end = (check declarations checker).1

runs :
    ((check the_file checker).0 ≡ ok tt)
    × ((finish (check the_file checker).1).0 ≡ ok tt)
    × ((finish open_end).0 ≡ ok tt)
unfolding handle admit absorb observe check settle finish covered ledger_for put_ledger cite
    cite_all mark declare_all observe_coverage reach_of stream_findings findings
    content_type_finding handshake_placement transport_label reports_adjacency place_at place_record
    check_placement follows check_record_order check_copy found require_source check_spans
    resolve_layer track_break_candidates classified note_record canonical_class recoverability
    reason_class_of agrees check_class check_reason_class check_against_capture decoder_declared
    check_stream breaks_of sort_participants close_if check_participant close_each
    close_participants ended_session close_session close_sessions overlaps regions_at is_unmarked
    any_unmarked check_unmarked_breaks require_live_session require_participant header_derived
    require_derived_header on_file_header on_source on_decoder on_session participant_state
    on_participant close_session_end on_session_end note_adjacency check_provenance classify_record
    note_placement take_record on_record on_discontinuity on_undecoded on_name on_end lookup has
    insert erase seq_lt seq_leq serial_delta parse prim_fault net_fault partition add coalesce
    complement
runs = (refl, refl, refl)

abbrev the_stream : StreamKey
the_stream = (1, (7, 2))

check-Referenced_example : Referenced registry the_file
check-Referenced_example = check-Referenced the_file runs.0

check-ChainFrom_example : ChainFrom none (seqs_sent 7 2 the_file)
check-ChainFrom_example = check-ChainFrom the_file 7 2 runs.0

-- An offset in the skipped region, below one in the record's span.
passed_covered_example :
    (is_cited the_stream 4 the_file || is_marked [] the_stream 4 the_file) ≡ true
unfolding lookup insert
passed_covered_example =
    passed_covered the_file runs.0 runs.1 the_stream 4 20 12 refl refl (omega arith)

-- The empty state, and the state that it stands for.
pub empty-Matches : Matches registry checker
unfolding lookup standing
empty-Matches = (λ id. refl, λ id. refl, λ sid pid. refl, λ sid. refl, refl, refl)

observe-Observed_example :
    Observed registry (file_header derived) (observe (file_header derived) checker)
observe-Observed_example = observe-Observed (file_header derived) registry checker empty-Matches

finish_ends_example :
    ((finish open_end).1.live ≡ [])
    × ((sid : ℕ)
        → contains (finish open_end).1.ended sid
          ≡ (has sid open_end.live || contains open_end.ended sid))
    × (finish (finish open_end).1 ≡ (ok tt, (finish open_end).1))
finish_ends_example = finish_ends open_end runs.2

abbrev a_ledger : CoverageLedger
a_ledger = observe_all the_file coverage_ledger

findings-AllAccounted_example : (findings a_ledger ≡ []) ↔ AllAccounted a_ledger.streams
findings-AllAccounted_example = findings-AllAccounted a_ledger

observe_all-Cited_example :
    let s = ledger_for the_stream (observe_all the_file coverage_ledger) in
    (IsCoalesced s.spans × ((o : ℕ) → covers s.spans o ≡ is_cited the_stream o the_file))
    × (IsCoalesced s.undecoded
        × ((o : ℕ) → covers s.undecoded o ≡ is_marked [] the_stream o the_file))
observe_all-Cited_example = observe_all-Cited the_file the_stream

-- Two decoded records of the regions [0, 5) and [9, 12), and a hole that lies behind them.
abbrev decoding : ℕ → ℕ → Record
decoding off_start off_end = record the_record {
  seq_start = none;
  ack = none;
  flags = 0;
  decoder_id = some 4;
  content_type = none;
  role = none;
  spans =
      record {
        source_id = 1;
        session_id = 7;
        participant_id = 2;
        off_start = off_start;
        off_end = off_end;
      }
      ∷ [];
}

abbrev ready : Checker
ready = record checker {
  header = some derived;
  sources = (1, 1) ∷ [];
  decoders = (4, 0) ∷ [];
  live = (7, []) ∷ [];
}

abbrev with_participant : Checker
with_participant = (on_participant the_participant ready).1

abbrev with_record : Checker
with_record = (on_record (decoding 0 5) with_participant).1

abbrev with_hole : Checker
with_hole =
    (on_undecoded
      (record the_undecoded { off_start = 20; off_end = 25; reason = some (103 ∷ 97 ∷ 112 ∷ []) })
      with_record).1

abbrev with_both : Checker
with_both = (on_record (decoding 9 12) with_hole).1

abbrev state_in : Option ParticipantState → ParticipantState
state_in none = participant_state the_participant
state_in (some stream) = stream

abbrev session_in : Option SessionState → SessionState
session_in none = []
session_in (some s) = s

abbrev last_state : ParticipantState
last_state = state_in (lookup 2 (session_in (lookup 7 with_both.live)))

abbrev two_records : List (Option Record)
two_records = some (decoding 9 12) ∷ some (decoding 0 5) ∷ []

hole_noted : regions_at the_stream with_both.holes ≡ (20, 25) ∷ []
unfolding handle admit absorb observe check settle finish covered ledger_for put_ledger cite
    cite_all mark declare_all observe_coverage reach_of stream_findings findings
    content_type_finding handshake_placement transport_label reports_adjacency place_at place_record
    check_placement follows check_record_order check_copy found require_source check_spans
    resolve_layer track_break_candidates classified note_record canonical_class recoverability
    reason_class_of agrees check_class check_reason_class check_against_capture decoder_declared
    check_stream breaks_of sort_participants close_if check_participant close_each
    close_participants ended_session close_session close_sessions overlaps regions_at is_unmarked
    any_unmarked check_unmarked_breaks require_live_session require_participant header_derived
    require_derived_header on_file_header on_source on_decoder on_session participant_state
    on_participant close_session_end on_session_end note_adjacency check_provenance classify_record
    note_placement take_record on_record on_discontinuity on_undecoded on_name on_end lookup has
    insert erase seq_lt seq_leq serial_delta parse prim_fault net_fault partition add coalesce
    complement
hole_noted = refl

turns : Turns 7 2 two_records with_both
unfolding handle admit absorb observe check settle finish covered ledger_for put_ledger cite
    cite_all mark declare_all observe_coverage reach_of stream_findings findings
    content_type_finding handshake_placement transport_label reports_adjacency place_at place_record
    check_placement follows check_record_order check_copy found require_source check_spans
    resolve_layer track_break_candidates classified note_record canonical_class recoverability
    reason_class_of agrees check_class check_reason_class check_against_capture decoder_declared
    check_stream breaks_of sort_participants close_if check_participant close_each
    close_participants ended_session close_session close_sessions overlaps regions_at is_unmarked
    any_unmarked check_unmarked_breaks require_live_session require_participant header_derived
    require_derived_header on_file_header on_source on_decoder on_session participant_state
    on_participant close_session_end on_session_end note_adjacency check_provenance classify_record
    note_placement take_record on_record on_discontinuity on_undecoded on_name on_end lookup has
    insert erase seq_lt seq_leq serial_delta parse prim_fault net_fault partition add coalesce
    complement
turns =
    sends (decoding 9 12)
      (waits with_hole
        (sends (decoding 0 5) (starts the_participant ready refl refl refl refl) refl refl refl)
        (λ stream h. h))
      refl refl refl

finished_both :
    Holds 7 2 last_state with_both
    × (contains last_state.layers 0 ≡ true)
    × ((finish with_both).0 ≡ ok tt)
unfolding handle admit absorb observe check settle finish covered ledger_for put_ledger cite
    cite_all mark declare_all observe_coverage reach_of stream_findings findings
    content_type_finding handshake_placement transport_label reports_adjacency place_at place_record
    check_placement follows check_record_order check_copy found require_source check_spans
    resolve_layer track_break_candidates classified note_record canonical_class recoverability
    reason_class_of agrees check_class check_reason_class check_against_capture decoder_declared
    check_stream breaks_of sort_participants close_if check_participant close_each
    close_participants ended_session close_session close_sessions overlaps regions_at is_unmarked
    any_unmarked check_unmarked_breaks require_live_session require_participant header_derived
    require_derived_header on_file_header on_source on_decoder on_session participant_state
    on_participant close_session_end on_session_end note_adjacency check_provenance classify_record
    note_placement take_record on_record on_discontinuity on_undecoded on_name on_end lookup has
    insert erase seq_lt seq_leq serial_delta parse prim_fault net_fault partition add coalesce
    complement
finished_both = ((session_in (lookup 7 with_both.live), refl, refl), refl, refl)

finish-parted_example :
    (covers (regions_at the_stream with_both.holes) 6
      || covers (regions_at the_stream with_both.removed) 6)
    ≡ false
finish-parted_example =
    finish-parted 7 2 two_records with_both last_state the_stream 6 turns finished_both.0
      finished_both.1 finished_both.2 refl

-- Exactly half the sequence space behind the record before.
abbrev behind_half : Record
behind_half = record the_record { seq_start = some 0x80000384 }

abbrev placed : ParticipantState
placed = record (participant_state the_participant) {
  anchor_seq = some 900;
  placed_any = true;
  last_seq = some 900;
}

check_placement-half_example : (check_placement behind_half placed).0 ≡ (
    if 0x80000384 + seq_high_bit == 900 || 900 + seq_high_bit == 0x80000384
    then below_predecessor ∷ []
    else [])
check_placement-half_example =
    check_placement-half behind_half placed 0x80000384 900 refl refl refl refl (omega arith)
      (omega arith) (unfold check_record_order follows seq_leq seq_lt in refl)
