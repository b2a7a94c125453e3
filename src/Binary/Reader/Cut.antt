-- ===== src/Binary/Reader/Cut.antt =====
-- What binary.py reads of a file that was cut off at any byte.
use mathlib.Core.Path.{subst}
use python_zipline.Base.{
  ℕ, zero, suc, ◌+◌, ◌-◌, ◌≤◌, ◌<◌, ◌≡◌, refl, sym, ap, ◌∙◌, Bool, true, false, ◌||◌, Option, none,
  some, List, [], ◌∷◌, leb, ◌==◌, length, take, arith, is_some, leb→le, leb→gt, Bool-cases, inl,
  inr,
}
use python_zipline.Blocks.Types.{FileHeader, Block, file_header}
use python_zipline.Binary.Stream.{Stream, left}
use python_zipline.Binary.Writer.{is_end}
use python_zipline.Binary.Reader.{
  BlockReader, block_reader, item, well_placed, note_block, list_blocks,
}
use python_zipline.Binary.Reader.Frames.{
  join, whole, is_cut, Follow, Listed, IsReading, note_block-Kept, next-after_end, take-nil,
  whole-cut, Listed-stop, Listed-item, Listed-cut,
}
use python_zipline.Binary.Reader.Step.{Framed, size, IsFramed, next-end, next-cut, next-item}

-- Nothing is left, for whichever reason.
nothing-Listed :
    (r : BlockReader) (n fuel : ℕ)
    → IsReading r
    → left r.stream ≡ []
    → Listed r.strict n [] r.complete (list_blocks (suc fuel) r)
nothing-Listed r n fuel v e =
    let (s, q) = next-end r v.is_open v.moved e in
    Listed-stop r _ n fuel [] q v.untruncated refl refl (unfold whole in refl)
      (unfold is_cut in refl)

after_end-Listed :
    (r : BlockReader) (n fuel : ℕ)
    → r.finished ≡ false
    → r.after_end ≡ true
    → r.is_truncated ≡ false
    → left r.stream ≡ []
    → Listed r.strict n [] r.complete (list_blocks (suc fuel) r)
after_end-Listed r n fuel h k t e =
    Listed-stop r _ n fuel [] (next-after_end r h k e) t refl refl (unfold whole in refl)
      (unfold is_cut in refl)

-- Behind a block that has been read: the next frames, or the end that an End block makes.
behind-Listed :
    (fs : List Framed) (m fuel : ℕ) (b : Block) (r : BlockReader)
    → IsReading r
    → left r.stream ≡ take m (join fs)
    → (is_end b ≡ true → fs ≡ [])
    → ((r' : BlockReader)
        → IsReading r'
        → left r'.stream ≡ take m (join fs)
        → Listed r'.strict m fs r'.complete (list_blocks (suc fuel) r'))
    → Listed
        (note_block b r).strict
        m
        fs
        (note_block b r).complete
        (list_blocks (suc fuel) (note_block b r))
behind-Listed fs m fuel b r v e last ih =
    let (kh, ks, ko, kf, kst, kt, ka, kc) = note_block-Kept b r v.has_header in
    let left_now : left (note_block b r).stream ≡ take m (join fs) = ap left ks ∙ e in
    elim (Bool-cases (is_end b)) [
      | inl t ↦
          let none_left : fs ≡ [] = last t in
          let empty : left (note_block b r).stream ≡ [] =
            left_now ∙ ap (λ x. take m (join x)) none_left ∙ take-nil m in
          let stopped : (note_block b r).after_end ≡ true = ka ∙ ap (λ x. x || r.after_end) t in
          subst
            (λ x.
              Listed (note_block b r).strict m x (note_block b r).complete
                (list_blocks (suc fuel) (note_block b r)))
            (sym none_left)
            (after_end-Listed (note_block b r) m fuel (kf ∙ v.is_open.0) stopped
              (kt ∙ v.untruncated) empty)
      | inr t ↦
          ih (note_block b r)
            (record {
              is_open = (kf ∙ v.is_open.0, ka ∙ ap (λ x. x || r.after_end) t ∙ v.is_open.1);
              has_header = kh;
              moved = subst (λ x. 0 < x) (sym ko) v.moved;
              untruncated = kt ∙ v.untruncated;
            })
            left_now
    ]

well_placed-later :
    (o : Option FileHeader) (t : ℕ) → is_some o ≡ true → (t == 1) ≡ false → well_placed o t ≡ true
well_placed-later none t h k = cc
well_placed-later (some x) t h k = rw k

-- The frames behind the header, the bytes of the stream cut off behind the first `n`.
later_blocks-Listed :
    (fs : List Framed) (n fuel : ℕ) (r : BlockReader)
    → Follow fs
    → IsReading r
    → left r.stream ≡ take n (join fs)
    → length fs ≤ fuel
    → Listed r.strict n fs r.complete (list_blocks (suc fuel) r)
later_blocks-Listed [] n fuel r w v e l = nothing-Listed r n fuel v (e ∙ take-nil n)
later_blocks-Listed (f ∷ fs) n zero r w v e l = absurd (omega arith)
later_blocks-Listed (f ∷ fs) zero (suc fuel) r w v e l =
    let (s, q) = next-end r v.is_open v.moved e in
    let big : leb (size f) 0 ≡ false = ground arith in
    Listed-stop r _ 0 (suc fuel) (f ∷ fs) q v.untruncated refl refl (whole-cut 0 f fs big).0
      (whole-cut 0 f fs big).1
later_blocks-Listed (f ∷ fs) (suc n) (suc fuel) r w v e l =
    elim (Bool-cases (leb (size f) (suc n))) [
      | inr t ↦
          let (s, q) =
            next-cut r f (join fs) (suc n) v.is_open w.0 e (omega arith)
              (omega (arith, leb→gt (size f) (suc n) t)) in
          Listed-cut r (record r { stream = s }) (suc n) (suc fuel) f fs r.offset q refl refl t
            (ground arith)
      | inl t ↦
          let (s, left_after, q) =
            next-item r f (join fs) (suc n) v.is_open w.0 e (leb→le (size f) (suc n) t)
              (well_placed-later r.header f.block_type v.has_header w.1) in
          let r₁ : BlockReader = record r {
            stream = s;
            offset = r.offset + (8 + length f.content);
          } in
          let v₁ : IsReading r₁ = record {
            is_open = v.is_open;
            has_header = v.has_header;
            moved = omega arith;
            untruncated = v.untruncated;
          } in
          let kept = note_block-Kept f.object.block r₁ v.has_header in
          Listed-item r (note_block f.object.block r₁) (suc n) (suc fuel) f fs q t kept.4 kept.7 (
            behind-Listed fs (suc n - size f) fuel f.object.block r₁ v₁ left_after w.2
              (λ r' v' e'. later_blocks-Listed fs (suc n - size f) fuel r' w.3 v' e' (omega arith)))
    ]

-- A file: its header's frame and the frames behind it.
abbrev pub IsFile : FileHeader → Framed → List Framed → Type 0
IsFile h f fs = IsFramed f × (f.block_type ≡ 1) × (f.object.block ≡ file_header h) × Follow fs

-- A file that was cut off at any byte, but not within its header, and that comes in any pieces: the
-- reader lists the blocks of all the frames that are whole, in order, and finishes; if the cut is inside a frame it
-- is marked truncated, and an error in strict mode only; it is complete if an End block was whole.
pub list_blocks-Listed :
    (h : FileHeader) (f : Framed) (fs : List Framed) (n : ℕ) (strict : Bool) (stream : Stream)
    → IsFile h f fs
    → left stream ≡ take n (join (f ∷ fs))
    → size f ≤ n
    → Listed strict n (f ∷ fs) false (list_blocks (length fs + 2) (block_reader stream strict))
unfolding block_reader
list_blocks-Listed h f fs n strict stream w e l =
    let r : BlockReader = block_reader stream strict in
    let (s, left_after, q) =
      next-item r f (join fs) n (unfold block_reader in (refl, refl)) w.0 e l
        (rw w.1 (unfold block_reader in refl)) in
    let r₁ : BlockReader = record r { stream = s; offset = r.offset + (8 + length f.content) } in
    let same : note_block f.object.block r₁ ≡ note_block (file_header h) r₁ =
      ap (λ b. note_block b r₁) w.2 in
    let fuel_enough : length fs + 2 ≡ suc (suc (length fs)) = omega arith in
    let v₁ : IsReading (note_block (file_header h) r₁) = record {
      is_open = (refl, refl);
      has_header = refl;
      moved = omega arith;
      untruncated = refl;
    } in
    let not_end : is_end f.object.block ≡ false = ap is_end w.2 in
    rw fuel_enough (
      Listed-item r (note_block (file_header h) r₁) n (suc (length fs)) f fs
        (q ∙ ap (λ x. (item f.object, x)) same) (le→leb _ _ l) refl
        (sym (ap (λ x. x || false) not_end))
        (later_blocks-Listed fs (n - size f) (length fs) (note_block (file_header h) r₁) w.3 v₁
          left_after (omega arith)))
  where
    le→leb : (a b : ℕ) → a ≤ b → leb a b ≡ true
    le→leb a b h = ground arith
