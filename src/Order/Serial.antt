-- ===== src/Order/Serial.antt =====
-- The serial arithmetic of order.py (RFC 1982) on 32-bit sequence numbers.
pub mod Laws
use python_zipline.Base.{ℕ, ◌+◌, ◌-◌, ◌%◌, ◌^◌, Bool, ◌&&◌, ◌||◌, not, leb, ◌==◌, if◌then◌else◌}
use python_zipline.Base.Int.{ℤ, pos, sub_ℕ}

-- SEQ_SPACE and _SEQ_HIGH_BIT
abbrev pub seq_space : ℕ
seq_space = 2 ^ 32

abbrev pub seq_high_bit : ℕ
seq_high_bit = 2 ^ 31

-- `(a - b) % SEQ_SPACE`, which Python takes of the negative difference too.
unfoldable pub sub_mod : ℕ → ℕ → ℕ
sub_mod a b = (a + seq_space - b % seq_space) % seq_space

unfoldable pub seq_lt : ℕ → ℕ → Bool
unfolding sub_mod
seq_lt a b = not (a == b) && leb seq_high_bit (sub_mod a b)

unfoldable pub serial_delta : ℕ → ℕ → ℤ
unfolding sub_mod
serial_delta a b =
    let delta = sub_mod a b in if leb seq_high_bit delta then sub_ℕ delta seq_space else pos delta

unfoldable pub seq_leq : ℕ → ℕ → Bool
unfolding seq_lt
seq_leq a b = a == b || seq_lt a b

unfoldable pub seq_geq : ℕ → ℕ → Bool
unfolding seq_lt
seq_geq a b = a == b || seq_lt b a

unfoldable pub record_end : ℕ → ℕ → ℕ
record_end seq_start payload_len = (seq_start + payload_len) % seq_space
