-- ===== src/Order/Walk.antt =====
-- The walks of order.py: positions of 32-bit sequence values along stored order.
pub mod Place
pub mod Acks
use python_zipline.Base.{
  ℕ, zero, suc, ◌+◌, ◌/◌, ◌%◌, ◌^◌, Bool, true, false, Option, none, some, List, [], ◌∷◌, ltb, ◌==◌,
  if◌then◌else◌, length,
}
use python_zipline.Base.Int.{ℤ, pos, ◌+ℤ◌, ltb_ℤ}
use python_zipline.Base.Outcome.{Outcome, ok, raised, value_error}
use python_zipline.Blocks.Types.{Record}
use python_zipline.Order.Serial.{seq_space, serial_delta}

-- `int(flags) & mask`, for the mask of one bit
abbrev pub has_bit : ℕ → ℕ → Bool
has_bit flags mask = flags / mask % 2 == 1

abbrev pub syn_bit : ℕ
syn_bit = 8

abbrev pub fin_bit : ℕ
fin_bit = 2

-- _sequence_end
unfoldable pub sequence_end : Record → Option ℤ → Option ℤ
sequence_end r none = none
sequence_end r (some offset) =
    if ltb 0 (length r.payload)
    then some (offset +ℤ pos (length r.payload))
    else if has_bit r.flags syn_bit
    then some offset
    else if has_bit r.flags fin_bit
    then some (offset +ℤ pos 1)
    else none

-- _Walk
pub record Walk : Type 0 where
  pub value : ℕ
  pub position : ℤ

unfoldable pub walk_at : ℕ → ℤ → Walk
walk_at anchor position = record { value = anchor % seq_space; position = position }

unfoldable pub delta : Walk → ℕ → ℤ
delta w value = serial_delta value w.value

unfoldable pub step : Walk → ℕ → ℤ → Walk
step w value d = record { value = value % seq_space; position = w.position +ℤ d }

-- _Placer: its state is its walk
unfoldable pub placer : ℕ → Walk
unfolding walk_at
placer origin = walk_at origin (pos 0)

unfoldable pub place_seq : Option ℕ → Walk → Option ℤ × Walk
unfolding delta step
place_seq none w = (none, w)
place_seq (some seq_start) w =
    let d = delta w seq_start in
    let w' = step w seq_start d in if ltb_ℤ d (pos 0) then (none, w) else (some w'.position, w')

unfoldable pub place : Record → Walk → Option ℤ × Walk
unfolding place_seq
place r w = place_seq r.seq_start w

-- _StreamPlacer
pub record StreamPlacer : Type 0 where
  pub placer : Option Walk
  pub origin : Option ℕ

-- _start
unfoldable pub start : ℕ → StreamPlacer
unfolding placer
start origin = record { placer = some (placer origin); origin = some origin }

unfoldable pub stream_placer : Option ℕ → StreamPlacer
unfolding start
stream_placer none = record { placer = none; origin = none }
stream_placer (some isn) = start ((isn + 1) % seq_space)

place_with : Record → Option Walk → Option ℕ → StreamPlacer → Option ℤ × StreamPlacer
unfolding place start
place_with r (some w) seq_start s =
    let (offset, w') = place r w in (offset, record s { placer = some w' })
place_with r none none s = (none, s)
place_with r none (some seq_start) s =
    let (offset, w') = place r (placer seq_start) in
    (offset, record { placer = some w'; origin = some seq_start })

unfoldable pub stream_place : Record → StreamPlacer → Option ℤ × StreamPlacer
unfolding place_with
stream_place r s = place_with r s.placer r.seq_start s

-- _AckWalk
pub record AckWalk : Type 0 where
  pub first : Option ℕ
  pub walk : Option Walk
  pub highest : Option ℤ
  pub highest_ack : Option ℕ

abbrev pub ack_walk : AckWalk
ack_walk = record { first = none; walk = none; highest = none; highest_ack = none }

raise_highest : ℕ → ℤ → Option ℤ → AckWalk → AckWalk
raise_highest ack relative none a = record a { highest = some relative; highest_ack = some ack }
raise_highest ack relative (some h) a =
    if ltb_ℤ h relative then record a { highest = some relative; highest_ack = some ack } else a

observe_with : ℕ → Option Walk → AckWalk → ℤ × AckWalk
unfolding walk_at delta step raise_highest
observe_with ack none a = (
  pos 0,
  raise_highest ack (pos 0) a.highest
      (record a { first = some (ack % seq_space); walk = some (walk_at ack (pos 0)) }),
)
observe_with ack (some w) a =
    let w' = step w ack (delta w ack) in
    (w'.position, raise_highest ack w'.position a.highest (record a { walk = some w' }))

unfoldable pub observe : ℕ → AckWalk → ℤ × AckWalk
unfolding observe_with
observe ack a = observe_with ack a.walk a

position_from : Option ℕ → ℤ → ℕ → Outcome ℤ
position_from none relative origin = raised value_error
position_from (some first) relative origin = ok (serial_delta first origin +ℤ relative)

unfoldable pub position : AckWalk → ℤ → ℕ → Outcome ℤ
unfolding position_from
position a relative origin = position_from a.first relative origin
