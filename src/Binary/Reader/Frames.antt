-- ===== src/Binary/Reader/Frames.antt =====
-- The loop over a reader of binary.py, one `__next__` longer: what a listing says of the frames of a
-- file that was cut off, and the steps that make such a listing.
use python_zipline.Base.{
  ℕ, zero, suc, ◌-◌, ◌<◌, ◌≡◌, refl, ap, ◌∙◌, Bool, true, false, ◌&&◌, ◌||◌, none, some, List, [],
  ◌∷◌, ◌++◌, map, ltb, leb, ◌==◌, if◌then◌else◌, take, arith, is_some, Bool-cases, inl, inr,
}
use python_zipline.Base.Outcome.{truncated}
use python_zipline.Blocks.Types.{
  Bytes, Block, file_header, source, decoder, session, participant, session_end, record_block,
  undecoded, discontinuity, name_resolution, end, custom, unknown_block,
}
use python_zipline.Blocks.Dispatch.{BlockObject}
use python_zipline.Binary.Stream.{Stream, left, read}
use python_zipline.Binary.Writer.{is_end}
use python_zipline.Binary.Reader.{
  BlockReader, item, stop_iteration, truncate, check_trailing, after_read, note_block, next,
  Listing, list_on, list_blocks,
}
use python_zipline.Binary.Reader.Step.{Framed, bytes_of, size, IsFramed, IsOpen}

abbrev pub join : List Framed → Bytes
join [] = []
join (f ∷ fs) = bytes_of f ++ join fs

-- The frames that lie within the first `n` bytes, and whether byte `n` is inside the next.
unfoldable pub whole : ℕ → List Framed → List Framed
whole n [] = []
whole n (f ∷ fs) = let rest = whole (n - size f) fs in if leb (size f) n then f ∷ rest else []

unfoldable pub is_cut : ℕ → List Framed → Bool
is_cut n [] = false
is_cut n (f ∷ fs) = let rest = is_cut (n - size f) fs in if leb (size f) n then rest else ltb 0 n

abbrev pub has_end : List Framed → Bool
has_end [] = false
has_end (f ∷ fs) = is_end f.object.block || has_end fs

-- The frames of a file behind its header: no second header, and nothing behind an End block.
abbrev pub Follow : List Framed → Type 0
Follow [] = Unit {0}
Follow (f ∷ fs) =
    IsFramed f
    × ((f.block_type == 1) ≡ false)
    × (is_end f.object.block ≡ true → fs ≡ [])
    × Follow fs

-- What a listing says of the frames and the place of the cut.
abbrev pub Listed : Bool → ℕ → List Framed → Bool → Listing → Type 0
Listed strict n fs complete l =
    (l.blocks ≡ map (λ (f : Framed). f.object) (whole n fs))
    × (l.fault ≡ (if is_cut n fs && strict then some truncated else none))
    × (l.reader.is_truncated ≡ is_cut n fs)
    × (l.reader.complete ≡ (has_end (whole n fs) || complete))
    × (l.reader.finished ≡ true)

abbrev pub Kept : Block → BlockReader → Type 0
Kept b r =
    (is_some (note_block b r).header ≡ true)
    × ((note_block b r).stream ≡ r.stream)
    × ((note_block b r).offset ≡ r.offset)
    × ((note_block b r).finished ≡ r.finished)
    × ((note_block b r).strict ≡ r.strict)
    × ((note_block b r).is_truncated ≡ r.is_truncated)
    × ((note_block b r).after_end ≡ (is_end b || r.after_end))
    × ((note_block b r).complete ≡ (is_end b || r.complete))

pub note_block-Kept : (b : Block) (r : BlockReader) → is_some r.header ≡ true → Kept b r
note_block-Kept (file_header h) r e = (refl, refl, refl, refl, refl, refl, refl, refl)
note_block-Kept (source x) r e = (e, refl, refl, refl, refl, refl, refl, refl)
note_block-Kept (decoder x) r e = (e, refl, refl, refl, refl, refl, refl, refl)
note_block-Kept (session x) r e = (e, refl, refl, refl, refl, refl, refl, refl)
note_block-Kept (participant x) r e = (e, refl, refl, refl, refl, refl, refl, refl)
note_block-Kept (session_end x) r e = (e, refl, refl, refl, refl, refl, refl, refl)
note_block-Kept (record_block x) r e = (e, refl, refl, refl, refl, refl, refl, refl)
note_block-Kept (undecoded x) r e = (e, refl, refl, refl, refl, refl, refl, refl)
note_block-Kept (discontinuity x) r e = (e, refl, refl, refl, refl, refl, refl, refl)
note_block-Kept (name_resolution x) r e = (e, refl, refl, refl, refl, refl, refl, refl)
note_block-Kept (end x) r e = (e, refl, refl, refl, refl, refl, refl, refl)
note_block-Kept (custom x) r e = (e, refl, refl, refl, refl, refl, refl, refl)
note_block-Kept (unknown_block t c) r e = (e, refl, refl, refl, refl, refl, refl, refl)

-- A reader between two frames, behind the header.
pub record IsReading (r : BlockReader) : Type 0 where
  pub is_open : IsOpen r
  pub has_header : is_some r.header ≡ true
  pub moved : 0 < r.offset
  pub untruncated : r.is_truncated ≡ false

list_stop :
    (fuel : ℕ) (r r' : BlockReader)
    → next r ≡ (stop_iteration, r')
    → list_blocks (suc fuel) r ≡ record { blocks = []; fault = none; reader = r' }
unfolding list_blocks list_on
list_stop fuel r r' e = ap (λ p. list_on p (list_blocks fuel)) e

list_item :
    (fuel : ℕ) (r r' : BlockReader) (o : BlockObject)
    → next r ≡ (item o, r')
    → list_blocks (suc fuel) r ≡ record {
      blocks = o ∷ (list_blocks fuel r').blocks;
      fault = (list_blocks fuel r').fault;
      reader = (list_blocks fuel r').reader;
    }
unfolding list_blocks list_on
list_item fuel r r' o e = ap (λ p. list_on p (list_blocks fuel)) e

list_truncate :
    (fuel : ℕ) (r r' : BlockReader) (at : ℕ)
    → next r ≡ truncate at r'
    → ((list_blocks (suc fuel) r).blocks ≡ [])
      × ((list_blocks (suc fuel) r).fault ≡ (if r'.strict then some truncated else none))
      × ((list_blocks (suc fuel) r).reader.is_truncated ≡ true)
      × ((list_blocks (suc fuel) r).reader.complete ≡ r'.complete)
      × ((list_blocks (suc fuel) r).reader.finished ≡ true)
unfolding list_blocks list_on truncate
list_truncate fuel r r' at e = elim (Bool-cases r'.strict) [
  | inl t ↦ rw (e, t) (refl, refl, refl, refl, refl)
  | inr t ↦ rw (e, t) (refl, refl, refl, refl, refl)
]

read-left-nil : (s : Stream) → left s ≡ [] → (read 1 s).0 ≡ []
unfolding read left
read-left-nil [] e = refl
read-left-nil ([] ∷ pieces) e = read-left-nil pieces e
read-left-nil ((b ∷ bs) ∷ pieces) e = cc

after_read-nil :
    (p : Bytes × Stream) (r : BlockReader)
    → p.0 ≡ []
    → after_read p r ≡ (stop_iteration, record r { finished = true; stream = p.1 })
unfolding after_read
after_read-nil ([], s) r e = refl
after_read-nil (b ∷ bs, s) r e = cc

next-check_trailing :
    (r : BlockReader) → r.finished ≡ false → r.after_end ≡ true → next r ≡ check_trailing r
unfolding next
next-check_trailing r h k = simp (h, k) refl

-- Behind the End block there is nothing.
pub next-after_end :
    (r : BlockReader)
    → r.finished ≡ false
    → r.after_end ≡ true
    → left r.stream ≡ []
    → next r ≡ (stop_iteration, record r { finished = true; stream = (read 1 r.stream).1 })
unfolding check_trailing
next-after_end r h k e =
    next-check_trailing r h k ∙ after_read-nil (read 1 r.stream) r (read-left-nil r.stream e)

pub take-nil : (n : ℕ) → take {A = ℕ} n [] ≡ []
take-nil zero = refl
take-nil (suc n) = refl

whole-fits :
    (n : ℕ) (f : Framed) (fs : List Framed)
    → leb (size f) n ≡ true
    → (whole n (f ∷ fs) ≡ f ∷ whole (n - size f) fs) × (is_cut n (f ∷ fs) ≡ is_cut (n - size f) fs)
unfolding whole is_cut
whole-fits n f fs e = (rw e, rw e)

pub whole-cut :
    (n : ℕ) (f : Framed) (fs : List Framed)
    → leb (size f) n ≡ false
    → (whole n (f ∷ fs) ≡ []) × (is_cut n (f ∷ fs) ≡ ltb 0 n)
unfolding whole is_cut
whole-cut n f fs e = (rw e, rw e)

or_swap : (a b c : Bool) → (a || (b || c)) ≡ ((b || a) || c)
or_swap a b c = ground arith

-- A listing that stops at once.
pub Listed-stop :
    (r r' : BlockReader) (n fuel : ℕ) (fs : List Framed)
    → next r ≡ (stop_iteration, r')
    → r'.is_truncated ≡ false
    → r'.complete ≡ r.complete
    → r'.finished ≡ true
    → whole n fs ≡ []
    → is_cut n fs ≡ false
    → Listed r.strict n fs r.complete (list_blocks (suc fuel) r)
Listed-stop r r' n fuel fs e t c d w k = rw (list_stop fuel r r' e, w, k) (refl, refl, t, c, d)

-- A listing that begins with a whole frame.
pub Listed-item :
    (r r' : BlockReader) (n fuel : ℕ) (f : Framed) (fs : List Framed)
    → next r ≡ (item f.object, r')
    → leb (size f) n ≡ true
    → r'.strict ≡ r.strict
    → r'.complete ≡ (is_end f.object.block || r.complete)
    → Listed r'.strict (n - size f) fs r'.complete (list_blocks fuel r')
    → Listed r.strict n (f ∷ fs) r.complete (list_blocks (suc fuel) r)
Listed-item r r' n fuel f fs e l s c (b, t, u, k, d) =
    rw (list_item fuel r r' f.object e, (whole-fits n f fs l).0, (whole-fits n f fs l).1)
      (
        ap (λ x. f.object ∷ x) b,
        t ∙ ap (λ x. if is_cut (n - size f) fs && x then some truncated else none) s,
        u,
        k
            ∙ ap (λ x. has_end (whole (n - size f) fs) || x) c
            ∙ or_swap (has_end (whole (n - size f) fs)) (is_end f.object.block) r.complete,
        d,
      )

pub Listed-cut :
    (r r' : BlockReader) (n fuel : ℕ) (f : Framed) (fs : List Framed) (at : ℕ)
    → next r ≡ truncate at r'
    → r'.strict ≡ r.strict
    → r'.complete ≡ r.complete
    → leb (size f) n ≡ false
    → ltb 0 n ≡ true
    → Listed r.strict n (f ∷ fs) r.complete (list_blocks (suc fuel) r)
Listed-cut r r' n fuel f fs at e s c l p =
    let (b, t, u, k, d) = list_truncate fuel r r' at e in
    rw ((whole-cut n f fs l).0, (whole-cut n f fs l).1, p)
      (b, t ∙ ap (λ x. if x then some truncated else none) s, u, k ∙ c, d)
