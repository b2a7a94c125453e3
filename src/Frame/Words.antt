-- ===== src/Frame/Words.antt =====
-- The little-endian codes of _frame.py, read back.
use native.Mathlib.Nat.{pow-suc}
use python_zipline.Base.{
  ℕ, zero, suc, ◌+◌, ◌-◌, ◌*◌, ◌/◌, ◌%◌, ◌^◌, ◌≤◌, ◌<◌, ◌≡◌, refl, ap, [], ◌∷◌, length, All, arith,
}
use python_zipline.Base.Int.{ℤ, pos, negsuc, pos_part, neg_part}
use python_zipline.Blocks.Types.{Bytes}
use python_zipline.Frame.{pack, unpack, pack_i64, unpack_i64, signed_64, pad4}

abbrev pub IsByte : ℕ → Type 0
IsByte b = b < 256

pub length-pack : (k n : ℕ) → length (pack k n) ≡ k
unfolding pack
length-pack zero n = refl
length-pack (suc k) n = ap suc (length-pack k (n / 256))

pub unpack-pack : (k n : ℕ) → n < 256 ^ k → unpack (pack k n) ≡ n
unfolding pack unpack
unpack-pack zero n h = omega arith
unpack-pack (suc k) n h =
    let small : n < 256 ^ k * 256 = rw (← pow-suc 256 k) h in
    let rest : unpack (pack k (n / 256)) ≡ n / 256 = unpack-pack k (n / 256) (omega arith) in
    omega arith

pub pack-unpack : (bs : Bytes) → All IsByte bs → pack (length bs) (unpack bs) ≡ bs
unfolding pack unpack
pack-unpack [] h = refl
pack-unpack (b ∷ bs) h =
    let low : (b + 256 * unpack bs) % 256 ≡ b = omega arith in
    let high : (b + 256 * unpack bs) / 256 ≡ unpack bs = omega arith in
    rw (low, high) (ap (λ t. b ∷ t) (pack-unpack bs h.1))

pub pack-IsByte : (k n : ℕ) → All IsByte (pack k n)
unfolding pack
pack-IsByte zero n = tt
pack-IsByte (suc k) n = (omega arith, pack-IsByte k (n / 256))

abbrev pub IsI64 : ℤ → Type 0
IsI64 z = (pos_part z < 2 ^ 63) × (neg_part z ≤ 2 ^ 63)

signed_64_pos : (n : ℕ) → n < 2 ^ 63 → signed_64 n ≡ pos n
unfolding signed_64
signed_64_pos n h = ground arith

signed_64_neg : (n : ℕ) → n < 2 ^ 63 → signed_64 (2 ^ 64 - 1 - n) ≡ negsuc n
unfolding signed_64
signed_64_neg n h = ground arith

-- The two's complement code of an integer that fits 64 bits is read back.
pub unpack_i64-pack_i64 : (z : ℤ) → IsI64 z → unpack_i64 (pack_i64 z) ≡ z
unfolding unpack_i64 pack_i64
unpack_i64-pack_i64 (pos n) h = rw (unpack-pack 8 n (omega arith)) (signed_64_pos n (omega arith))
unpack_i64-pack_i64 (negsuc n) h =
    rw (unpack-pack 8 (2 ^ 64 - 1 - n) (omega arith)) (signed_64_neg n (omega arith))

pub length-pack_i64 : (z : ℤ) → length (pack_i64 z) ≡ 8
unfolding pack_i64
length-pack_i64 (pos n) = length-pack 8 n
length-pack_i64 (negsuc n) = length-pack 8 (2 ^ 64 - 1 - n)

-- Padding brings every length to a multiple of 4, by fewer than 4 bytes.
pub pad4_lem : (n : ℕ) → (pad4 n < 4) × ((n + pad4 n) % 4 ≡ 0)
unfolding pad4
pad4_lem n = omega arith
