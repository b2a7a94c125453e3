-- ===== src/Order/Walk/Place.antt =====
-- Placing the records of one stream (`_Placer` and `_StreamPlacer` of order.py).
use python_zipline.Base.{
  ℕ, ◌+◌, ◌-◌, ◌%◌, ◌≤◌, ◌<◌, ◌≡◌, ◌⊎◌, inl, inr, refl, ap, true, false, Option, none, some, List,
  [], ◌∷◌, ◌++◌, map, ◌∙◌, arith,
}
use python_zipline.Base.Int.{ℤ, pos, negsuc, pos_part, ◌+ℤ◌, ltb_ℤ, int_laws}
use python_zipline.Blocks.Types.{Record}
use python_zipline.Order.Serial.{seq_space, seq_high_bit, serial_delta}
use python_zipline.Order.Serial.Laws.{serial_delta_forward, serial_delta_bounds}
use python_zipline.Order.Walk.{
  Walk, delta, placer, place_seq, place, StreamPlacer, start, stream_placer, stream_place,
}

-- The walk of a stream with this origin that stands at the offset `p`.
abbrev pub at : ℕ → ℕ → Walk
at o p = record { value = (o + p) % seq_space; position = pos p }

-- The sequence number at an offset, on the wire.
abbrev pub wire : ℕ → ℕ → ℕ
wire o q = (o + q) % seq_space

pub pos_nonneg : (n : ℕ) → ltb_ℤ (pos n) (pos 0) ≡ false
pos_nonneg n = ground arith

pub negsuc_neg : (n : ℕ) → ltb_ℤ (negsuc n) (pos 0) ≡ true
negsuc_neg n = ground arith

pub place_seq_forward :
    (o p q : ℕ)
    → p ≤ q
    → q < p + seq_high_bit
    → place_seq (some (wire o q)) (at o p) ≡ (some (pos q), at o q)
unfolding place_seq
place_seq_forward o p q h k =
    let d : serial_delta (wire o q) (wire o p) ≡ pos (q - p) = serial_delta_forward o p q h k in
    let sum : pos p +ℤ pos (q - p) ≡ pos q = omega int_laws in
    let low : wire o q % seq_space ≡ wire o q = omega arith in rw (d, pos_nonneg (q - p), sum, low)

-- What placing one record may do.
abbrev pub Placed : ℤ → Option ℤ → Walk → Walk → Type 0
Placed start offset w w' =
    ((offset ≡ none) × (w' ≡ w))
    ⊎ ((p : ℕ) × (p < seq_high_bit)
        × (offset ≡ some (start +ℤ pos p))
        × (w'.position ≡ start +ℤ pos p))

place_step_by :
    (s : ℕ) (w : Walk) (d : ℤ)
    → delta w s ≡ d
    → pos_part d < seq_high_bit
    → Placed w.position (place_seq (some s) w).0 w (place_seq (some s) w).1
unfolding place_seq
place_step_by s w (pos n) e h = rw (e, pos_nonneg n) (inr (n, h, refl, refl))
place_step_by s w (negsuc n) e h = rw (e, negsuc_neg n) (inl (refl, refl))

-- One record, whatever it carries: it is unplaceable and the walk stays where it was, or it is placed
-- less than 2^31 past the walk's position and the walk moves there.
pub place_step : (r : Record) (w : Walk) → Placed w.position (place r w).0 w (place r w).1
unfolding place
place_step r w = by_seq r.seq_start
  where
    by_seq : (s : Option ℕ) → Placed w.position (place_seq s w).0 w (place_seq s w).1
    by_seq none = inl (refl, refl)
    by_seq (some s) =
        place_step_by s w (delta w s) refl (unfold delta in (serial_delta_bounds s w.value).0)

-- The loop over a stream that the callers of `place` run.
unfoldable pub place_all : Walk → List Record → List (Option ℤ)
place_all w [] = []
place_all w (r ∷ rs) = let (offset, w') = place r w in offset ∷ place_all w' rs

-- What a stream in stored order carries: each record has no `seq_start`, or that of its true offset,
-- which is less than 2^31 past the last one and otherwise unbounded.
pub data Carries (o : ℕ) : ℕ → List (Option ℕ) → List Record → Type 0 where
  carries_none : {p : ℕ} → Carries o p [] []
  bare :
      {p : ℕ} {qs : List (Option ℕ)} {rs : List Record} (r : Record)
      → r.seq_start ≡ none
      → Carries o p qs rs
      → Carries o p (none ∷ qs) (r ∷ rs)
  sequenced :
      {p : ℕ} {qs : List (Option ℕ)} {rs : List Record} (r : Record) (q : ℕ)
      → r.seq_start ≡ some (wire o q)
      → p ≤ q
      → q < p + seq_high_bit
      → Carries o q qs rs
      → Carries o p (some q ∷ qs) (r ∷ rs)

abbrev pub offsets : List (Option ℕ) → List (Option ℤ)
offsets [] = []
offsets (none ∷ qs) = none ∷ offsets qs
offsets (some q ∷ qs) = some (pos q) ∷ offsets qs

place_bare : (r : Record) (w : Walk) → r.seq_start ≡ none → place r w ≡ (none, w)
unfolding place
place_bare r w e = rw e

pub place_forward :
    (r : Record) (o p q : ℕ)
    → r.seq_start ≡ some (wire o q)
    → p ≤ q
    → q < p + seq_high_bit
    → place r (at o p) ≡ (some (pos q), at o q)
place_forward r o p q e h k = unfold place in (rw e (place_seq_forward o p q h k))

place_all-at :
    {o p : ℕ} {qs : List (Option ℕ)} {rs : List Record}
    → Carries o p qs rs
    → place_all (at o p) rs ≡ offsets qs
unfolding place_all
place_all-at carries_none = refl
place_all-at {o} {p} (bare r e c) = rw (place_bare r (at o p) e) (rw (place_all-at c))
place_all-at {o} {p} (sequenced r q e h k c) =
    rw (place_forward r o p q e h k) (rw (place_all-at c))

placer-at : (o : ℕ) → placer (o % seq_space) ≡ at o 0
unfolding placer
placer-at o = let low : o % seq_space % seq_space ≡ (o + 0) % seq_space = omega arith in rw low

-- A stream whose records carry the sequence numbers of its true offsets, each less than 2^31 past the
-- last, is placed at those offsets, however long the stream is; a record without one is unplaceable.
pub place_all_true :
    (o : ℕ) (qs : List (Option ℕ)) (rs : List Record)
    → Carries o 0 qs rs
    → place_all (placer (o % seq_space)) rs ≡ offsets qs
place_all_true o qs rs c = rw (placer-at o) (place_all-at c)

-- The same loop for a placer that learns its origin.
stream_place_all : StreamPlacer → List Record → List (Option ℤ)
stream_place_all s [] = []
stream_place_all s (r ∷ rs) = let (offset, s') = stream_place r s in offset ∷ stream_place_all s' rs

stream_place_all-place_all :
    (w : Walk) (origin : Option ℕ) (rs : List Record)
    → stream_place_all (record { placer = some w; origin = origin }) rs ≡ place_all w rs
unfolding stream_place_all place_all stream_place
stream_place_all-place_all w origin [] = refl
stream_place_all-place_all w origin (r ∷ rs) =
    ap (λ t. (place r w).0 ∷ t) (stream_place_all-place_all (place r w).1 origin rs)

-- With a declared `isn`, a stream whose records carry the sequence numbers of their true offsets,
-- counted from `isn + 1` and each less than 2^31 past the last, is placed at those offsets.
stream_place_all_isn :
    (isn : ℕ) (qs : List (Option ℕ)) (rs : List Record)
    → Carries (isn + 1) 0 qs rs
    → stream_place_all (stream_placer (some isn)) rs ≡ offsets qs
unfolding stream_placer
stream_place_all_isn isn qs rs c =
    stream_place_all-place_all _ _ rs ∙ place_all_true (isn + 1) qs rs c

abbrev pub AllBare : List Record → Type 0
AllBare [] = Unit {0}
AllBare (r ∷ rs) = (r.seq_start ≡ none) × AllBare rs

place_first :
    (o : ℕ) (r : Record)
    → r.seq_start ≡ some (wire o 0)
    → stream_place r (stream_placer none)
      ≡ (some (pos 0), record { placer = some (at o 0); origin = some (wire o 0) })
unfolding stream_place stream_placer
place_first o r e =
    let anchored : placer (wire o 0) ≡ at o 0 =
      unfold placer in (let low : wire o 0 % seq_space ≡ wire o 0 = omega arith in rw low) in
    rw (e, anchored, place_forward r o 0 0 e (omega arith) (omega arith))

place_unanchored :
    (r : Record)
    → r.seq_start ≡ none
    → stream_place r (stream_placer none) ≡ (none, stream_placer none)
unfolding stream_place stream_placer
place_unanchored r e = rw e

-- With none declared, records before the first `seq_start` are unplaceable, that one is offset 0, and
-- the records behind it, each less than 2^31 past the last, are placed at their true offsets from it.
stream_place_all_first :
    (o : ℕ) (r : Record) (qs : List (Option ℕ)) (front rs : List Record)
    → AllBare front
    → r.seq_start ≡ some (wire o 0)
    → Carries o 0 qs rs
    → stream_place_all (stream_placer none) (front ++ (r ∷ rs))
      ≡ map (λ _. none) front ++ (some (pos 0) ∷ offsets qs)
unfolding stream_place_all
stream_place_all_first o r qs [] rs b e c =
    rw (place_first o r e)
      (rw (stream_place_all-place_all (at o 0) (some (wire o 0)) rs, place_all-at c))
stream_place_all_first o r qs (f ∷ front) rs b e c =
    rw (place_unanchored f b.0) (rw (stream_place_all_first o r qs front rs b.1 e c))
