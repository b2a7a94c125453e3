-- ===== src/Reassembly.antt =====
-- The bytes of a stream as runs and holes: StreamView.chunks and reassembled of reassembly.py.
pub mod Ranges
pub mod Units
pub mod Tiling
pub mod Extent
pub mod Sent
use python_zipline.Base.{
  ℕ, ◌+◌, ◌-◌, ◌%◌, max, Bool, false, ◌||◌, Option, none, some, List, [], ◌∷◌, ◌++◌, ltb, leb, ◌==◌,
  if◌then◌else◌, length, drop, is_some,
}
use python_zipline.Base.Int.{ℤ, pos, pos_part, max_ℤ}
use python_zipline.Base.Dict.{nat_eq, contains, include, Dict, lookup}
use python_zipline.Base.Outcome.{semantic, zpf_error, Outcome, ok, raised, ◌>>=◌, ◌>>◌, guard}
use python_zipline.Blocks.Types.{Bytes, Participant, Record, Discontinuity}
use python_zipline.Intervals.Spec.{Interval}
use python_zipline.Order.Serial.{seq_space}
use python_zipline.Order.Walk.{has_bit, fin_bit, Walk, placer, place}
use python_zipline.Conformance.State.{decoded, transport}
use python_zipline.Reassembly.Ranges.{
  StreamBlock, records_of, stream_layer, first_seq, origin_or, transport_origin, place_offset,
  range_at, placed_ranges, ranges_from, record_ranges, greatest_end, stream_extent, fins_below,
  Reach, note_end, find_reach, fins_from, fin_positions, a_record, a_break,
}

-- A record's part of a run.
pub record Contribution : Type 0 where
  pub off_start : ℕ
  pub off_end : ℕ
  pub ts : ℤ
  pub ts_first : ℤ

-- Segment and Gap
pub data Chunk : Type 0 where
  segment : Bytes → ℕ → ℕ → ℤ → List Contribution → Chunk
  gap : ℕ → ℕ → Chunk

-- What `chunks` keeps between two records. `emitted` is what it has yielded, and the open run is a run
-- only where it holds a byte.
pub record Assembly : Type 0 where
  pub walk : Option Walk
  pub cursor : ℕ
  pub run : Bytes
  pub run_start : ℕ
  pub run_ts : ℤ
  pub parts : List Contribution
  pub holes : List Interval
  pub found : Reach
  pub emitted : List Chunk

-- _trim_overlap
unfoldable pub trim_overlap : Bytes → ℕ → ℕ → Bytes × ℕ
trim_overlap payload off cursor =
    if leb cursor off then (payload, off) else (drop (cursor - off) payload, cursor)

-- `if run: yield Segment(...)`
unfoldable pub flushed : Assembly → List Chunk
flushed s =
    if ltb 0 (length s.run) then segment s.run s.run_start s.cursor s.run_ts s.parts ∷ [] else []

-- A hole before the payload ends the run.
pub open_hole : ℕ → Assembly → Assembly
unfolding flushed
open_hole off s =
    if ltb s.cursor off
    then record s {
      run = [];
      parts = if ltb 0 (length s.run) then [] else s.parts;
      holes = s.holes ++ ((s.cursor, off) ∷ []);
      emitted = s.emitted ++ (flushed s ++ (gap s.cursor off ∷ []));
    }
    else s

abbrev pub or_ts : Option ℤ → ℤ → ℤ
or_ts none ts = ts
or_ts (some first) ts = first

pub extend_run : Record → Bytes → ℕ → Assembly → Assembly
extend_run r payload off s =
    let old = ltb 0 (length s.run) in
    record s {
      run_start = if old then s.run_start else off;
      run_ts = if old then max_ℤ s.run_ts r.timestamp else r.timestamp;
      parts =
          s.parts
          ++ (record {
            off_start = off;
            off_end = off + length payload;
            ts = r.timestamp;
            ts_first = or_ts r.ts_first r.timestamp;
          }
              ∷ []);
      run = s.run ++ payload;
      cursor = off + length payload;
    }

pub add_payload : Record → Bytes × ℕ → Assembly → Assembly
unfolding open_hole extend_run
add_payload r (payload, off) s =
    if ltb 0 (length payload) then extend_run r payload off (open_hole off s) else s

pub take_placed : Record → Option ℕ → Assembly → Assembly
unfolding note_end trim_overlap add_payload
take_placed r none s = s
take_placed r (some off) s =
    let s' : Assembly = record s { found = note_end r (some off) s.found } in
    if ltb 0 (length r.payload) then add_payload r (trim_overlap r.payload off s.cursor) s' else s'

-- The walk starts at the first record with a seq_start where there is no isn.
pub start_walk : Option Walk → Option ℕ → Option Walk
start_walk (some w) seq_start = some w
start_walk none none = none
start_walk none (some seq_start) = some (placer seq_start)

pub assemble_with : Record → Option Walk → Assembly → Assembly
unfolding take_placed place_offset
assemble_with r none s = s
assemble_with r (some w) s =
    let (off, w') = place_offset r w in take_placed r off (record s { walk = some w' })

-- One turn of the loop of `chunks`.
unfoldable pub assemble : Record → Assembly → Assembly
unfolding start_walk assemble_with
assemble r s = assemble_with r (start_walk s.walk r.seq_start) s

unfoldable pub assemble_all : List Record → Assembly → Assembly
unfolding assemble
assemble_all [] s = s
assemble_all (r ∷ rs) s = assemble_all rs (assemble r s)

-- _trailing_hole
unfoldable pub trailing_hole : ℕ → ℕ → List ℕ → Option Interval
trailing_hole cursor reach fins =
    let start = if contains fins cursor then cursor + 1 else cursor in
    if ltb start reach then some (start, reach) else none

-- What `chunks` has yielded at its end, and what it has measured.
pub record Chunks : Type 0 where
  pub chunks : List Chunk
  pub extent : ℕ
  pub gaps : List Interval
  pub fins : List ℕ

abbrev pub hole_chunks : Option Interval → List Chunk
hole_chunks none = []
hole_chunks (some hole) = gap hole.0 hole.1 ∷ []

abbrev pub hole_list : Option Interval → List Interval
hole_list none = []
hole_list (some hole) = hole ∷ []

unfoldable pub close_chunks : Assembly → Chunks
unfolding flushed trailing_hole fins_below
close_chunks s =
    let trailing = trailing_hole s.cursor s.found.reach s.found.fins in
    record {
      chunks = s.emitted ++ (flushed s ++ hole_chunks trailing);
      gaps = s.holes ++ hole_list trailing;
      extent = max s.cursor s.found.reach;
      fins = fins_below (max s.cursor s.found.reach) s.found.fins;
    }

pub isn_walk : Option ℕ → Option Walk
isn_walk none = none
isn_walk (some isn) = some (placer (isn + 1))

unfoldable pub assembly : Participant → Assembly
unfolding isn_walk
assembly p = record {
  walk = isn_walk p.isn;
  cursor = 0;
  run = [];
  run_start = 0;
  run_ts = pos 0;
  parts = [];
  holes = [];
  found = record { reach = 0; fins = [] };
  emitted = [];
}

pub starts_hinted : List Record → Bool
starts_hinted [] = false
starts_hinted (r ∷ rs) = is_some r.seq_start

unfoldable pub is_stream_oriented : Participant → List Record → Bool
unfolding starts_hinted
is_stream_oriented p records = is_some p.isn || starts_hinted records

-- StreamView.chunks, taken to its end.
unfoldable pub stream_chunks : Participant → List Record → Outcome Chunks
unfolding is_stream_oriented close_chunks assemble_all assembly
stream_chunks p records = do
  guard (is_stream_oriented p records) zpf_error
  ok (close_chunks (assemble_all records (assembly p)))

pub join_segments : List Chunk → Outcome Bytes
join_segments [] = ok []
join_segments (gap a b ∷ rest) = raised zpf_error
join_segments (segment data' a b ts parts ∷ rest) =
    join_segments rest >>= λ later. ok (data' ++ later)

-- StreamView.reassembled
pub reassembled : Participant → List Record → Outcome Bytes
unfolding stream_chunks join_segments
reassembled p records = stream_chunks p records >>= λ c. join_segments c.chunks
