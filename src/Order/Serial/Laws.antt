-- ===== src/Order/Serial/Laws.antt =====
-- What the serial arithmetic of order.py promises.
use python_zipline.Base.{ℕ, ◌+◌, ◌-◌, ◌%◌, ◌≤◌, ◌<◌, ◌≡◌, true, ◌&&◌, ◌||◌, ◌==◌, arith}
use python_zipline.Base.Int.{pos, negsuc, pos_part, neg_part, ltb_ℤ}
use python_zipline.Order.Serial.{seq_space, seq_high_bit, seq_lt, serial_delta, seq_leq}

abbrev pub IsSeq : ℕ → Type 0
IsSeq a = a < seq_space

-- The delta lies in [-2^31, 2^31), and adding it to `b` gives `a`, modulo 2^32, for all `a` and `b`.
pub serial_delta_bounds :
    (a b : ℕ)
    → (pos_part (serial_delta a b) < seq_high_bit)
      × (neg_part (serial_delta a b) ≤ seq_high_bit)
      × ((b + pos_part (serial_delta a b)) % seq_space
          ≡ (a + neg_part (serial_delta a b)) % seq_space)
unfolding serial_delta
serial_delta_bounds a b = ground arith

-- A step forward by less than 2^31, of positions of any size, is read as what it is.
pub serial_delta_forward :
    (o p q : ℕ)
    → p ≤ q
    → q < p + seq_high_bit
    → serial_delta ((o + q) % seq_space) ((o + p) % seq_space) ≡ pos (q - p)
unfolding serial_delta
serial_delta_forward o p q h k = ground arith

-- A step back by at most 2^31 is read as what it is.
pub serial_delta_back :
    (o p q : ℕ)
    → q < p
    → p ≤ q + seq_high_bit
    → serial_delta ((o + q) % seq_space) ((o + p) % seq_space) ≡ negsuc (p - q - 1)
unfolding serial_delta
serial_delta_back o p q h k = ground arith

-- On 32-bit numbers the comparison has the sign of the delta.
pub seq_lt-serial_delta :
    (a b : ℕ) → IsSeq a → IsSeq b → seq_lt a b ≡ ltb_ℤ (serial_delta a b) (pos 0)
unfolding seq_lt serial_delta
seq_lt-serial_delta a b h k = ground arith

-- Of two 32-bit numbers each is before the other exactly if they lie 2^31 apart.
pub seq_lt_both :
    (a b : ℕ)
    → IsSeq a
    → IsSeq b
    → (seq_lt a b && seq_lt b a) ≡ (a + seq_high_bit == b || b + seq_high_bit == a)
unfolding seq_lt
seq_lt_both a b h k = ground arith

pub seq_leq_total : (a b : ℕ) → IsSeq a → IsSeq b → (seq_leq a b || seq_leq b a) ≡ true
unfolding seq_leq
seq_leq_total a b h k = ground arith
