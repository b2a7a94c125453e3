-- ===== src/Reassembly/Ranges.antt =====
-- The layer and the offset space of a stream, its extent and its FIN positions (the functions at the
-- head of reassembly.py).
pub mod Reached
use python_zipline.Base.{
  ℕ, ◌+◌, ◌%◌, max, ◌||◌, Option, none, some, List, [], ◌∷◌, ltb, leb, ◌==◌, if◌then◌else◌, length,
}
use python_zipline.Base.Int.{ℤ, pos_part}
use python_zipline.Base.Dict.{nat_eq, include, Dict, lookup}
use python_zipline.Base.Outcome.{semantic, Outcome, ok, raised, ◌>>=◌, ◌>>◌, guard}
use python_zipline.Blocks.Types.{Participant, Record, Discontinuity}
use python_zipline.Intervals.Spec.{Interval}
use python_zipline.Order.Serial.{seq_space}
use python_zipline.Order.Walk.{has_bit, fin_bit, Walk, placer, place}
use python_zipline.Conformance.State.{decoded, transport}

-- What a stream is made of, in stored order.
pub data StreamBlock : Type 0 where
  a_record : Record → StreamBlock
  a_break : Discontinuity → StreamBlock

abbrev pub records_of : List StreamBlock → List Record
records_of [] = []
records_of (a_record r ∷ bs) = r ∷ records_of bs
records_of (a_break d ∷ bs) = records_of bs

-- The layers that the records of a stream belong to; `decoders` has the layer of each decoder.
layers_of : List Record → Dict ℕ ℕ → List ℕ → Outcome (List ℕ)
unfolding lookup
layers_of [] decoders layers = ok layers
layers_of (r ∷ rs) decoders layers = elim r.decoder_id [
  | none ↦ layers_of rs decoders (include transport layers)
  | some id ↦ elim (lookup id decoders) [
    | none ↦ raised semantic
    | some layer ↦ layers_of rs decoders (include layer layers)
  ]
]

one_layer : List ℕ → Outcome ℕ
one_layer [] = ok transport
one_layer (layer ∷ []) = ok layer
one_layer (layer ∷ other ∷ more) = raised semantic

pub stream_layer : List Record → Dict ℕ ℕ → Outcome ℕ
unfolding layers_of one_layer
stream_layer records decoders = layers_of records decoders [] >>= one_layer

unfoldable pub first_seq : List Record → Option ℕ
first_seq [] = none
first_seq (r ∷ rs) = elim r.seq_start [ none ↦ first_seq rs | some n ↦ some n ]

unfoldable pub origin_or : Option ℕ → List Record → Option ℕ
unfolding first_seq
origin_or none records = first_seq records
origin_or (some isn) records = some ((isn + 1) % seq_space)

-- _transport_origin
unfoldable pub transport_origin : Participant → List Record → Option ℕ
unfolding origin_or
transport_origin p records = origin_or p.isn records

-- The offset at which a walk from 0 on places a record: the walk never goes back, so that no offset is
-- negative.
abbrev offset_part : Option ℤ → Option ℕ
offset_part none = none
offset_part (some z) = some (pos_part z)

unfoldable pub place_offset : Record → Walk → Option ℕ × Walk
place_offset r w = let (o, w') = place r w in (offset_part o, w')

abbrev pub width_of : Option ℕ → ℕ
width_of none = 0
width_of (some n) = n

-- The ranges of a stream whose stored order defines its offsets.
unfoldable pub positional : ℕ → List StreamBlock → List Interval
positional cursor [] = []
positional cursor (a_break d ∷ bs) = positional (cursor + width_of d.width) bs
positional cursor (a_record r ∷ bs) =
    (cursor, cursor + length r.payload) ∷ positional (cursor + length r.payload) bs

pub range_at : Option ℕ → ℕ → ℕ → Interval
range_at none end len = (end, end)
range_at (some start) end len = (start, start + len)

-- The ranges of a stream whose sequence numbers do.
pub placed_ranges : Walk → ℕ → List Record → List Interval
unfolding place_offset range_at
placed_ranges w end [] = []
placed_ranges w end (r ∷ rs) =
    let (start, w') = place_offset r w in
    let range = range_at start end (length r.payload) in
    range ∷ placed_ranges w' (max end range.1) rs

unfoldable pub ranges_from : Option ℕ → List StreamBlock → List Interval
unfolding positional placed_ranges
ranges_from none bs = positional 0 bs
ranges_from (some origin) bs = placed_ranges (placer origin) 0 (records_of bs)

unfoldable pub record_ranges : Participant → List StreamBlock → ℕ → Outcome (List Interval)
unfolding transport_origin ranges_from
record_ranges p bs layer = do
  guard (layer == decoded || layer == transport) semantic
  ok (ranges_from (if layer == decoded then none else transport_origin p (records_of bs)) bs)

unfoldable pub greatest_end : List Interval → ℕ
greatest_end [] = 0
greatest_end ((a, b) ∷ rest) = max b (greatest_end rest)

unfoldable pub stream_extent : Participant → List StreamBlock → ℕ → Outcome ℕ
unfolding record_ranges greatest_end
stream_extent p bs layer = record_ranges p bs layer >>= λ ranges. ok (greatest_end ranges)

-- `sorted(position for position in fins if position < reach)`, where `fins` is a set.
pub insert_sorted_fin : ℕ → List ℕ → List ℕ
insert_sorted_fin x [] = x ∷ []
insert_sorted_fin x (y ∷ ys) = if leb x y then x ∷ (y ∷ ys) else y ∷ insert_sorted_fin x ys

unfoldable pub fins_below : ℕ → List ℕ → List ℕ
unfolding insert_sorted_fin
fins_below reach [] = []
fins_below reach (f ∷ fs) =
    let rest = fins_below reach fs in if ltb f reach then insert_sorted_fin f rest else rest

-- The reach and the FIN positions of a stream, as one pass over its records finds them.
pub record Reach : Type 0 where
  pub reach : ℕ
  pub fins : List ℕ

unfoldable pub note_end : Record → Option ℕ → Reach → Reach
note_end r none s = s
note_end r (some start) s = record {
  reach = max s.reach (start + length r.payload);
  fins = if has_bit r.flags fin_bit then include (start + length r.payload) s.fins else s.fins;
}

unfoldable pub find_reach : Walk → Reach → List Record → Reach
unfolding place_offset note_end
find_reach w s [] = s
find_reach w s (r ∷ rs) =
    let (start, w') = place_offset r w in find_reach w' (note_end r start s) rs

unfoldable pub fins_from : Option ℕ → List Record → List ℕ
unfolding find_reach fins_below
fins_from none records = []
fins_from (some origin) records =
    let s = find_reach (placer origin) (record { reach = 0; fins = [] }) records in
    fins_below s.reach s.fins

unfoldable pub fin_positions : Participant → List StreamBlock → ℕ → List ℕ
unfolding fins_from transport_origin
fin_positions p bs layer =
    if layer == transport
    then fins_from (transport_origin p (records_of bs)) (records_of bs)
    else []
