-- ===== src/Tests/Order.antt =====
-- The theorems on the serial arithmetic and the walks of order.py at concrete streams.
use python_zipline.Base.{ℕ, ◌+◌, ◌%◌, ◌≤◌, ◌<◌, ◌≡◌, refl, Option, none, some, List, [], ◌∷◌, arith}
use python_zipline.Base.Int.{pos, pos_part, neg_part, sub_ℕ}
use python_zipline.Base.Outcome.{ok}
use python_zipline.Blocks.Types.{Record}
use python_zipline.Order.Serial.{seq_space, seq_high_bit, serial_delta}
use python_zipline.Order.Serial.Laws.{serial_delta_bounds}
use python_zipline.Order.Walk.{place, placer, ack_walk, position}
use python_zipline.Order.Walk.Place.{
  Placed, place_step, wire, place_all, Carries, carries_none, bare, sequenced, offsets,
  place_all_true,
}
use python_zipline.Order.Walk.Acks.{
  Near, observe_all, on_wire, relative_to, highest_of, observe_all_true,
}

serial_delta_bounds_example :
    (pos_part (serial_delta 5 0xFFFFFFF0) < seq_high_bit)
    × (neg_part (serial_delta 5 0xFFFFFFF0) ≤ seq_high_bit)
    × ((0xFFFFFFF0 + pos_part (serial_delta 5 0xFFFFFFF0)) % seq_space
        ≡ (5 + neg_part (serial_delta 5 0xFFFFFFF0)) % seq_space)
serial_delta_bounds_example = serial_delta_bounds 5 0xFFFFFFF0

abbrev sent : Option ℕ → Record
sent seq_start = record {
  session_id = 1;
  sender_pid = 1;
  source_id = 0;
  timestamp = pos 0;
  payload = 65 ∷ 66 ∷ [];
  flags = 0;
  seq_start = seq_start;
  ack = none;
  ts_first = none;
  spans = [];
  decoder_id = none;
  content_type = none;
  role = none;
  comment = none;
  extra_options = [];
}

-- Three records, the middle one without a sequence number, the last one past the 32-bit space.
abbrev long_stream : ℕ → List Record
long_stream o = sent (some (wire o 7)) ∷ sent none ∷ sent (some (wire o 2147483654)) ∷ []

abbrev long_offsets : List (Option ℕ)
long_offsets = some 7 ∷ none ∷ some 2147483654 ∷ []

long_stream-Carries : (o : ℕ) → Carries o 0 long_offsets (long_stream o)
long_stream-Carries o = sequenced (sent (some (wire o 7))) 7 refl (omega arith) (omega arith) (
    bare (sent none) refl (
      sequenced (sent (some (wire o 2147483654))) 2147483654 refl (omega arith) (omega arith)
        carries_none))

place_all_true_example :
    place_all (placer (0xFFFFFFF0 % seq_space)) (long_stream 0xFFFFFFF0) ≡ offsets long_offsets
place_all_true_example =
    place_all_true 0xFFFFFFF0 long_offsets (long_stream 0xFFFFFFF0) (long_stream-Carries 0xFFFFFFF0)

-- Acks that go past the 32-bit space and one step back.
observe_all_true_example :
    ((observe_all ack_walk (on_wire (10 ∷ 2147483657 ∷ 4294967300 ∷ 4294967290 ∷ []))).0
      ≡ relative_to 10 (10 ∷ 2147483657 ∷ 4294967300 ∷ 4294967290 ∷ []))
    × ((observe_all ack_walk (on_wire (10 ∷ 2147483657 ∷ 4294967300 ∷ 4294967290 ∷ []))).1.highest
        ≡ some (highest_of (pos 0) (relative_to 10 (2147483657 ∷ 4294967300 ∷ 4294967290 ∷ []))))
    × ((o q : ℕ)
        → Near o 10
        → position
            (observe_all ack_walk (on_wire (10 ∷ 2147483657 ∷ 4294967300 ∷ 4294967290 ∷ []))).1
            (sub_ℕ q 10)
            (o % seq_space)
          ≡ ok (sub_ℕ q o))
observe_all_true_example =
    observe_all_true 10 (2147483657 ∷ 4294967300 ∷ 4294967290 ∷ [])
      ((omega arith, omega arith), ((omega arith, omega arith), ((omega arith, omega arith), tt)))

-- A record behind the walk: it is unplaceable.
place_step_example :
    Placed
      (placer 500).position
      (place (sent (some 400)) (placer 500)).0
      (placer 500)
      (place (sent (some 400)) (placer 500)).1
place_step_example = place_step (sent (some 400)) (placer 500)
