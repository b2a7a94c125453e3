-- ===== src/Tests/Reassembly.antt =====
-- The theorems on reassembly.py at concrete streams.
use python_zipline.Base.{ℕ, ◌≡◌, refl, none, some, List, [], ◌∷◌, take, arith}
use python_zipline.Base.Int.{pos, ◌+ℤ◌}
use python_zipline.Base.Outcome.{ok}
use python_zipline.Blocks.Types.{Bytes, Record, Participant}
use python_zipline.Order.Serial.{serial_delta}
use python_zipline.Order.Walk.{place, place_seq, placer, walk_at, delta, step}
use python_zipline.Conformance.State.{transport}
use python_zipline.Reassembly.{
  Chunks, stream_chunks, reassembled, close_chunks, assemble_all, assemble, assembly, trim_overlap,
  is_stream_oriented, flushed, trailing_hole,
}
use python_zipline.Reassembly.Ranges.{
  StreamBlock, a_record, records_of, stream_extent, fin_positions, place_offset, note_end,
  fins_below,
}
use python_zipline.Base.{true, false}
use python_zipline.Conformance.State.{decoded}
use python_zipline.Reassembly.Ranges.{a_break, record_ranges, ranges_from, transport_origin}
use python_zipline.Reassembly.Units.{StreamView, hinted, measure, unit_walk, datagrams}
use python_zipline.Reassembly.Units.Offsets.{range_of, datagrams-record_ranges}
use python_zipline.Reassembly.Tiling.{Tiles, stream_chunks_tile}
use python_zipline.Reassembly.Extent.{stream_chunks_measures}
use python_zipline.Reassembly.Sent.{Sent, sent_none, sent_more, reassembled-Sent}

abbrev client : Participant
client = record {
  session_id = 1;
  participant_id = 2;
  adjacency = 0;
  endpoints = [];
  isn = some 999;
  identity = none;
  tcp_role = none;
  comment = none;
  extra_options = [];
}

abbrev part : ℕ → ℕ → Bytes → Record
part seq_start flags payload = record {
  session_id = 1;
  sender_pid = 2;
  source_id = 0;
  timestamp = pos seq_start;
  payload = payload;
  flags = flags;
  seq_start = some seq_start;
  ack = none;
  ts_first = none;
  spans = [];
  decoder_id = none;
  content_type = none;
  role = none;
  comment = none;
  extra_options = [];
}

abbrev bare : Bytes → Record
bare payload = record (part 0 0 payload) { seq_start = none }

-- Two bytes, a hole of three, two bytes with a FIN, and an ack past it.
abbrev holed : List StreamBlock
holed =
    a_record (part 1000 0 (65 ∷ 66 ∷ []))
    ∷ (a_record (part 1005 2 (67 ∷ 68 ∷ [])) ∷ (a_record (part 1008 0 []) ∷ []))

abbrev holed_chunks : Chunks
holed_chunks = close_chunks (assemble_all (records_of holed) (assembly client))

holed_walk : stream_chunks client (records_of holed) ≡ ok holed_chunks
unfolding stream_chunks is_stream_oriented
holed_walk = refl

holed_measures :
    (holed_chunks.extent ≡ 8) × (holed_chunks.fins ≡ 7 ∷ []) × (holed_chunks.gaps ≡ (2, 5) ∷ [])
unfolding close_chunks assemble_all assemble place_offset note_end trim_overlap assembly place
    place_seq delta step serial_delta placer walk_at fins_below flushed trailing_hole ◌+ℤ◌
holed_measures = (refl, refl, refl)

stream_chunks_tile_example :
    Tiles holed_chunks.fins 0 holed_chunks.extent holed_chunks.chunks holed_chunks.gaps
stream_chunks_tile_example = stream_chunks_tile client (records_of holed) holed_chunks holed_walk

stream_chunks_measures_example :
    (stream_extent client holed transport ≡ ok holed_chunks.extent)
    × (fin_positions client holed transport ≡ holed_chunks.fins)
stream_chunks_measures_example = stream_chunks_measures client holed holed_chunks holed_walk

-- Five bytes in three records: the second repeats a byte, the third is a FIN alone.
abbrev sent_bytes : Bytes
sent_bytes = 65 ∷ (66 ∷ (67 ∷ (68 ∷ (69 ∷ []))))

abbrev overlapping : List Record
overlapping =
    part 1000 0 (65 ∷ 66 ∷ []) ∷ (part 1001 0 (66 ∷ 67 ∷ 68 ∷ 69 ∷ []) ∷ (part 1005 2 [] ∷ []))

overlapping-Sent : Sent 1000 sent_bytes 0 0 overlapping 5
overlapping-Sent = sent_more _ 0 refl (omega arith) (omega arith) (omega arith) refl (
    sent_more _ 1 refl (omega arith) (omega arith) (omega arith) refl
      (sent_more _ 5 refl (omega arith) (omega arith) (omega arith) refl sent_none))

reassembled-Sent_example : reassembled client overlapping ≡ ok (take 5 sent_bytes)
reassembled-Sent_example =
    reassembled-Sent client 999 overlapping sent_bytes 5 refl overlapping-Sent

-- A decoded stream of two records with a break of four between them.
abbrev broken : StreamView
broken = record {
  participant = record client { isn = none };
  blocks =
      a_record (bare (65 ∷ 66 ∷ []))
      ∷ (a_break (record {
        session_id = 1;
        participant_id = 2;
        width = some 4;
        reason = none;
        comment = none;
        extra_options = [];
      })
          ∷ (a_record (bare (67 ∷ [])) ∷ []));
  source_id = none;
  layer = some decoded;
}

broken_unhinted : hinted broken ≡ false
unfolding hinted is_stream_oriented
broken_unhinted = refl

datagrams-record_ranges_example :
    record_ranges broken.participant broken.blocks decoded ≡ ok (range_of (datagrams broken true))
datagrams-record_ranges_example = datagrams-record_ranges broken broken_unhinted

-- A stream whose first record has no seq_start and whose second one has: the view measures it by its
-- payloads, and stream_extent by its sequence numbers.
abbrev late_hint : StreamView
late_hint = record {
  participant = record client { isn = none };
  blocks = a_record (bare (65 ∷ 66 ∷ [])) ∷ (a_record (part 100 0 (67 ∷ [])) ∷ []);
  source_id = none;
  layer = some transport;
}

late_hint_differs :
    (measure late_hint ≡ ok (3, [], []))
    × (stream_extent late_hint.participant late_hint.blocks transport ≡ ok 1)
unfolding measure hinted unit_walk is_stream_oriented stream_extent record_ranges ranges_from
    transport_origin place_offset place place_seq delta step serial_delta placer walk_at ◌+ℤ◌
late_hint_differs = (refl, refl)
