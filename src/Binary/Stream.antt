-- ===== src/Binary/Stream.antt =====
-- The binary stream that binary.py reads, and `_read_up_to`.
use mathlib.Core.List.{append_assoc}
use python_zipline.Base.{
  take-append-drop, length-take, take-past, drop-past, ℕ, zero, suc, ◌-◌, ◌≤◌, ◌<◌, ◌≡◌, refl, sym,
  ap, ◌∙◌, List, [], ◌∷◌, ◌++◌, length, take, drop, arith,
}
use python_zipline.Blocks.Types.{Bytes}

-- A stream, as the pieces in which its bytes come: one `read` gives bytes of one piece only, a short
-- read, and no byte at the end of the stream.
abbrev pub Stream : Type 0
Stream = List Bytes

unfoldable pub read : ℕ → Stream → Bytes × Stream
read size [] = ([], [])
read size ([] ∷ pieces) = read size pieces
read size ((b ∷ bs) ∷ pieces) = (take size (b ∷ bs), drop size (b ∷ bs) ∷ pieces)

-- Behind one read of the loop of `_read_up_to`.
read_more : ℕ → Bytes × Stream → (ℕ → Stream → Bytes × Stream) → Bytes × Stream
read_more remaining ([], s) next = ([], s)
read_more remaining (b ∷ bs, s) next =
    let (rest, s') = next (remaining - length (b ∷ bs)) s in ((b ∷ bs) ++ rest, s')

read_loop : ℕ → ℕ → Stream → Bytes × Stream
unfolding read_more
read_loop zero remaining s = ([], s)
read_loop (suc fuel) zero s = ([], s)
read_loop (suc fuel) (suc remaining) s =
    read_more (suc remaining) (read (suc remaining) s) (read_loop fuel)

-- A read that is not the last gives a byte, so `size` of them are enough.
unfoldable pub read_up_to : Stream → ℕ → Bytes × Stream
unfolding read_loop
read_up_to s size = read_loop size size s

-- All the bytes that the stream has left.
unfoldable pub left : Stream → Bytes
left [] = []
left (piece ∷ pieces) = piece ++ left pieces

-- One read takes bytes from the front, no more than it was asked for, and none only at the end.
abbrev Front : ℕ → Stream → Bytes × Stream → Type 0
Front size s (piece, s') =
    (left s ≡ piece ++ left s') × (length piece ≤ size) × (piece ≡ [] → left s ≡ [])

read-Front : (size : ℕ) (s : Stream) → 0 < size → Front size s (read size s)
unfolding read left
read-Front size [] h = (refl, omega arith, λ e. refl)
read-Front size ([] ∷ pieces) h = read-Front size pieces h
read-Front zero ((b ∷ bs) ∷ pieces) h = absurd (omega arith)
read-Front (suc size) ((b ∷ bs) ∷ pieces) h = (
  sym (
      sym (append_assoc (take (suc size) (b ∷ bs)) (drop (suc size) (b ∷ bs)) (left pieces))
      ∙ ap (λ t. t ++ left pieces) (take-append-drop (suc size) (b ∷ bs))),
  omega (arith, length-take (suc size) (b ∷ bs)),
  λ e. cc,
)

-- The bytes that a read of so many gives, and those that it leaves.
abbrev pub Splits : ℕ → Bytes → Bytes × Stream → Type 0
Splits size bytes (front, s) = (front ≡ take size bytes) × (left s ≡ drop size bytes)

take-nil : (n : ℕ) → take {A = ℕ} n [] ≡ []
take-nil zero = refl
take-nil (suc n) = refl

drop-nil : (n : ℕ) → drop {A = ℕ} n [] ≡ []
drop-nil zero = refl
drop-nil (suc n) = refl

read_more-Splits :
    (remaining : ℕ) (s : Stream) (p : Bytes × Stream) (next : ℕ → Stream → Bytes × Stream)
    → Front remaining s p
    → ((r : ℕ) (s' : Stream) → r < remaining → Splits r (left s') (next r s'))
    → Splits remaining (left s) (read_more remaining p next)
unfolding read_more
read_more-Splits remaining s ([], s') next f ih =
    let none_left : left s ≡ [] = f.2 refl in
    rw none_left (sym (take-nil remaining), sym f.0 ∙ none_left ∙ sym (drop-nil remaining))
read_more-Splits remaining s (b ∷ bs, s') next f ih =
    let rest = ih (remaining - length (b ∷ bs)) s' (omega (arith, f.1)) in
    rw f.0 (
      ap (λ t. (b ∷ bs) ++ t) rest.0 ∙ sym (take-past remaining (b ∷ bs) (left s') f.1),
      rest.1 ∙ sym (drop-past remaining (b ∷ bs) (left s') f.1),
    )

read_loop-Splits :
    (fuel remaining : ℕ) (s : Stream)
    → remaining ≤ fuel
    → Splits remaining (left s) (read_loop fuel remaining s)
unfolding read_loop
read_loop-Splits zero zero s h = (refl, refl)
read_loop-Splits zero (suc remaining) s h = absurd (omega arith)
read_loop-Splits (suc fuel) zero s h = (refl, refl)
read_loop-Splits (suc fuel) (suc remaining) s h =
    read_more-Splits (suc remaining) s (read (suc remaining) s) (read_loop fuel)
      (read-Front (suc remaining) s (omega arith))
      (λ r s' l. read_loop-Splits fuel r s' (omega arith))

-- In whatever pieces the bytes of a stream come, `_read_up_to` returns the next `size` of them, or all
-- there are if they are fewer, and leaves the bytes behind them.
pub read_up_to-Splits : (s : Stream) (size : ℕ) → Splits size (left s) (read_up_to s size)
unfolding read_up_to
read_up_to-Splits s size = read_loop-Splits size size s (omega arith)
