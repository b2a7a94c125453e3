-- ===== src/Conformance/Records/Placing.antt =====
-- The note of conformance.py on a record that the offset space cannot place, beside its order check.
use python_zipline.Base.{
  ℕ, ◌+◌, ◌≡◌, true, false, not, ◌||◌, some, [], ◌∷◌, ◌==◌, if◌then◌else◌, arith,
}
use python_zipline.Base.Int.{ℤ, pos, ltb_ℤ, leb_ℤ}
use python_zipline.Base.Outcome.{ok}
use python_zipline.Blocks.Types.{Record}
use python_zipline.Order.Serial.{seq_high_bit, seq_lt, seq_leq, serial_delta}
use python_zipline.Order.Serial.Laws.{IsSeq, seq_lt-serial_delta, seq_lt_both}
use python_zipline.Conformance.State.{ParticipantState, below_predecessor}
use python_zipline.Conformance.Records.{
  place_at, place_record, check_placement, follows, check_record_order,
}

leb_ltb : (z : ℤ) → leb_ℤ (pos 0) z ≡ not (ltb_ℤ z (pos 0))
leb_ltb z = ground arith

seq_lt_self : (a : ℕ) → seq_lt a a ≡ false
unfolding seq_lt
seq_lt_self a = ground arith

-- A record that follows its predecessor in serial order is placed, except at exactly half the sequence
-- space from it: there both of the two numbers are before the other one, so that the order check
-- passes the record and the placement check notes it as below its predecessor.
pub check_placement-half :
    (r : Record) (stream : ParticipantState) (seq_start last : ℕ)
    → r.seq_start ≡ some seq_start
    → stream.anchor_seq ≡ some last
    → stream.last_seq ≡ some last
    → stream.placed_any ≡ true
    → IsSeq seq_start
    → IsSeq last
    → check_record_order r stream ≡ ok tt
    → (check_placement r stream).0 ≡ (
        if seq_start + seq_high_bit == last || last + seq_high_bit == seq_start
        then below_predecessor ∷ []
        else [])
unfolding check_placement place_record place_at check_record_order follows seq_leq
check_placement-half r stream seq_start last e f g p h k o = ground (
  arith,
  leb_ltb (serial_delta seq_start last),
  seq_lt-serial_delta seq_start last h k,
  seq_lt_both seq_start last h k,
  seq_lt_self last,
)
