-- ===== src/Reassembly/Units.antt =====
-- The rest of StreamView of reassembly.py: its units, its contributions and times, and citing. What the
-- view keeps of an earlier walk is what a new walk gives, so it is not kept here.
pub mod Offsets
use python_zipline.Base.{
  ℕ, ◌+◌, ◌≤◌, Bool, true, false, not, ◌&&◌, ◌||◌, Option, none, some, List, [], ◌∷◌, ◌++◌, ltb,
  leb, ◌==◌, if◌then◌else◌, length,
}
use python_zipline.Base.Int.{ℤ, max_ℤ, ltb_ℤ}
use python_zipline.Base.Outcome.{zpf_error, Outcome, ok, raised, ◌>>=◌, ◌>>◌, guard}
use python_zipline.Blocks.Check.{checked, span_fits}
use python_zipline.Blocks.Types.{Bytes, Text, Span, Record, Discontinuity, Participant}
use python_zipline.Intervals.Spec.{Interval}
use python_zipline.Order.Walk.{has_bit, Walk}
use python_zipline.Conformance.State.{decoded, transport, units}
use python_zipline.Conformance.Records.{copy_bit}
use python_zipline.Reassembly.Ranges.{
  StreamBlock, a_record, a_break, records_of, place_offset, width_of,
}
use python_zipline.Reassembly.{
  Contribution, Chunk, segment, gap, Chunks, start_walk, or_ts, isn_walk, is_stream_oriented,
  stream_chunks,
}

-- StreamView: a participant, the blocks of its stream, the Source to cite it as, and the layer that the
-- reader has resolved.
pub record StreamView : Type 0 where
  pub participant : Participant
  pub blocks : List StreamBlock
  pub source_id : Option ℕ
  pub layer : Option ℕ

pub record Datagram : Type 0 where
  pub bytes : Bytes
  pub off_start : ℕ
  pub off_end : ℕ
  pub ts : ℤ
  pub of_record : Record
  pub is_copy : Bool

-- Datagram, or Break with its place, its width, its reason and whether a block declares it.
pub data StreamUnit : Type 0 where
  datagram : Datagram → StreamUnit
  break_at : ℕ → Option ℕ → Option Text → Bool → StreamUnit

unfoldable pub hinted : StreamView → Bool
hinted v = is_stream_oriented v.participant (records_of v.blocks)

layer_is : ℕ → Option ℕ → Bool → Bool
layer_is wanted none otherwise = otherwise
layer_is wanted (some layer) otherwise = layer == wanted

pub is_unit_sequence : StreamView → Bool
unfolding layer_is hinted
is_unit_sequence v = v.participant.adjacency == units && layer_is decoded v.layer (not (hinted v))

-- What `units` keeps between two blocks.
pub record UnitWalk : Type 0 where
  pub walk : Option Walk
  pub cursor : ℕ
  pub emitted : Bool
  pub last_end : ℕ
  pub yielded : List StreamUnit

pub yield_unit : StreamUnit → UnitWalk → UnitWalk
yield_unit u s = record s { yielded = s.yielded ++ (u ∷ []) }

-- Of a hinted stream the walk gives the offset, of another one the cursor.
place_known : Record → Option Walk → UnitWalk → Option ℕ × UnitWalk
unfolding place_offset
place_known r none s = (none, record s { walk = none })
place_known r (some w) s = let (off, w') = place_offset r w in (off, record s { walk = some w' })

pub place_unit : Bool → Record → UnitWalk → Option ℕ × UnitWalk
unfolding place_known start_walk
place_unit true r s = place_known r (start_walk s.walk r.seq_start) s
place_unit false r s = (some s.cursor, record s { cursor = s.cursor + length r.payload })

is_some_id : Option ℕ → Bool
is_some_id none = false
is_some_id (some id) = true

pub yield_placed : StreamView → Record → Option ℕ × UnitWalk → UnitWalk
unfolding yield_unit layer_is is_some_id
yield_placed v r (none, s) = s
yield_placed v r (some off, s) =
    yield_unit
      (datagram (record {
        bytes = r.payload;
        off_start = off;
        off_end = off + length r.payload;
        ts = r.timestamp;
        of_record = r;
        is_copy =
            layer_is transport v.layer (not (is_some_id r.decoder_id)) && has_bit r.flags copy_bit;
      }))
      (record s { last_end = off + length r.payload })

-- One turn of the loop of `units`.
pub take_unit : StreamView → StreamBlock → UnitWalk → UnitWalk
unfolding hinted yield_unit is_unit_sequence place_unit yield_placed
take_unit v (a_break d) s =
    let s' = yield_unit (break_at s.cursor d.width d.reason true) s in
    if hinted v then s' else record s' { cursor = s'.cursor + width_of d.width }
take_unit v (a_record r) s =
    let seam =
      if is_unit_sequence v && s.emitted
      then yield_unit (break_at s.cursor none none false) s
      else s in
    yield_placed v r (place_unit (hinted v) r (record seam { emitted = true }))

pub take_units : StreamView → List StreamBlock → UnitWalk → UnitWalk
unfolding take_unit
take_units v [] s = s
take_units v (b ∷ bs) s = take_units v bs (take_unit v b s)

unfoldable pub unit_walk : StreamView → UnitWalk
unfolding hinted isn_walk take_units
unit_walk v = take_units v v.blocks (record {
  walk = if hinted v then isn_walk v.participant.isn else none;
  cursor = 0;
  emitted = false;
  last_end = 0;
  yielded = [];
})

-- StreamView.units, taken to its end
pub stream_units : StreamView → List StreamUnit
unfolding unit_walk
stream_units v = (unit_walk v).yielded

-- StreamView.datagrams
pub kept_datagrams : Bool → List StreamUnit → List Datagram
kept_datagrams copies [] = []
kept_datagrams copies (break_at off width reason declared ∷ us) = kept_datagrams copies us
kept_datagrams copies (datagram d ∷ us) =
    let rest = kept_datagrams copies us in if copies || not d.is_copy then d ∷ rest else rest

pub datagrams : StreamView → Bool → List Datagram
unfolding kept_datagrams stream_units
datagrams v copies = kept_datagrams copies (stream_units v)

-- _measure: the extent, the holes and the FIN positions
unfoldable pub measure : StreamView → Outcome (ℕ × List Interval × List ℕ)
unfolding hinted unit_walk
measure v =
    let placed = stream_chunks v.participant (records_of v.blocks) in
    if hinted v
    then (placed >>= λ c. ok (c.extent, c.gaps, c.fins))
    else ok ((unit_walk v).last_end, [], [])

pub segment_parts : List Chunk → List Contribution
segment_parts [] = []
segment_parts (gap a b ∷ cs) = segment_parts cs
segment_parts (segment bytes a b ts parts ∷ cs) = parts ++ segment_parts cs

datagram_part : Datagram → Contribution
datagram_part d = record {
  off_start = d.off_start;
  off_end = d.off_end;
  ts = d.ts;
  ts_first = or_ts d.of_record.ts_first d.ts;
}

datagram_parts : List Datagram → List Contribution
unfolding datagram_part
datagram_parts [] = []
datagram_parts (d ∷ ds) = datagram_part d ∷ datagram_parts ds

pub contributions : StreamView → Outcome (List Contribution)
unfolding hinted segment_parts datagram_parts datagrams
contributions v =
    let placed = stream_chunks v.participant (records_of v.blocks) in
    if hinted v
    then (placed >>= λ c. ok (segment_parts c.chunks))
    else ok (datagram_parts (datagrams v true))

-- Segment._overlapping, in offsets of the stream
pub overlapping : ℕ → ℕ → List Contribution → List Contribution
overlapping start end [] = []
overlapping start end (c ∷ cs) =
    let rest = overlapping start end cs in
    if ltb c.off_start end && ltb start c.off_end then c ∷ rest else rest

-- `max(stamps)` and `min(stamps)`, of stamps that may be none
latest : List Contribution → Option ℤ
latest [] = none
latest (c ∷ cs) = elim (latest cs) [ none ↦ some c.ts | some ts ↦ some (max_ℤ c.ts ts) ]

min_ℤ : ℤ → ℤ → ℤ
min_ℤ a b = if ltb_ℤ b a then b else a

earliest : List Contribution → Option ℤ
unfolding min_ℤ
earliest [] = none
earliest (c ∷ cs) = elim (earliest cs) [
  | none ↦ some c.ts_first
  | some ts ↦ some (min_ℤ c.ts_first ts)
]

pub ts_for : StreamView → ℕ → ℕ → Outcome (Option ℤ)
unfolding contributions overlapping latest
ts_for v off_start off_end =
    contributions v >>= λ cs. ok (latest (overlapping off_start off_end cs))

pub ts_first_for : StreamView → ℕ → ℕ → Outcome (Option ℤ)
unfolding contributions overlapping earliest
ts_first_for v off_start off_end =
    contributions v >>= λ cs. ok (earliest (overlapping off_start off_end cs))

-- Segment.ts_for and Segment.ts_first_for, of a segment at `start` that completed at `ts`
pub segment_ts_for : ℕ → ℤ → List Contribution → ℕ → ℕ → ℤ
unfolding overlapping latest
segment_ts_for start ts parts local_start local_end =
    or_ts (latest (overlapping (start + local_start) (start + local_end) parts)) ts

pub segment_ts_first_for : ℕ → ℤ → List Contribution → ℕ → ℕ → ℤ
unfolding overlapping earliest
segment_ts_first_for start ts parts local_start local_end =
    or_ts (earliest (overlapping (start + local_start) (start + local_end) parts)) ts

cited_as : StreamView → ℕ → StreamView
cited_as v source = record v { source_id = some source }

-- _resolve_source
resolve_source : Option ℕ → Option ℕ → Outcome ℕ
resolve_source (some source) bound = ok source
resolve_source none (some source) = ok source
resolve_source none none = raised zpf_error

-- StreamView.cite
pub cite_range : StreamView → Option ℕ → ℕ → ℕ → Outcome Span
unfolding resolve_source
cite_range v source off_start off_end = do
  id ← resolve_source source v.source_id
  checked span_fits (record {
    source_id = id;
    session_id = v.participant.session_id;
    participant_id = v.participant.participant_id;
    off_start = off_start;
    off_end = off_end;
  })

-- Segment.cite, in offsets from the start of the segment
pub cite_segment : StreamView → Bytes → ℕ → Option ℕ → ℕ → ℕ → Outcome Span
unfolding cite_range
cite_segment v bytes start source local_start local_end = do
  guard (leb local_start local_end && leb local_end (length bytes)) zpf_error
  cite_range v source (start + local_start) (start + local_end)
