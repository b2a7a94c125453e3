-- ===== src/Binary/Writer/ReadBack.antt =====
-- The writer and the reader of binary.py, one after the other.
use mathlib.Core.Path.{subst}
use mathlib.Core.List.{append_assoc, append-nil}
use python_zipline.Base.{
  ℕ, suc, ◌+◌, ◌-◌, ◌≤◌, ◌<◌, ◌≡◌, refl, sym, ap, ◌∙◌, Bool, true, false, ◌&&◌, ◌||◌, none, some,
  List, [], ◌∷◌, ◌++◌, map, leb, ◌==◌, if◌then◌else◌, length, take, arith, length-append,
}
use python_zipline.Base.Outcome.{Outcome, ok, raised, truncated, ok-injective}
use python_zipline.Blocks.Types.{Bytes, Block, FileHeader, file_header}
use python_zipline.Blocks.Dispatch.{BlockObject, block_type_of, to_bytes}
use python_zipline.Binary.Stream.{Stream, left}
use python_zipline.Binary.Writer.{
  BlockWriter, block_writer, is_header, is_end, frame_bytes, write, after_write, write_all,
}
use python_zipline.Binary.Writer.Sound.{AllValid, IsSound, AllSound, valid-AllSound}
use python_zipline.Binary.Writer.Keeps.{
  Write, refused, written, behind, write-Write, length-frame_bytes,
}
use python_zipline.Binary.Reader.{block_reader, Listing, list_blocks}
use python_zipline.Binary.Reader.Step.{Framed, bytes_of, size, IsFramed}
use python_zipline.Binary.Reader.Frames.{join, whole, is_cut, has_end, Follow, Listed}
use python_zipline.Binary.Reader.Cut.{list_blocks-Listed}

-- A block as it was built, without bytes that it was parsed from.
abbrev pub fresh : Block → BlockObject
fresh b = record { block = b; content = none }

abbrev framed : (b : Block) → IsSound b → Framed
framed b v = record {
  block_type = block_type_of b;
  content = v.reads_back.0;
  object = record { block = b; content = some v.reads_back.0 };
}

abbrev frames : (bs : List Block) → AllSound bs → List Framed
frames [] v = []
frames (b ∷ bs) v = framed b v.0 ∷ frames bs v.1

-- A write that succeeded.
write-ok :
    (b : Block) (v : IsSound b) (w w' : BlockWriter) (offset : ℕ)
    → write (fresh b) w ≡ (ok offset, w')
    → (w' ≡ behind (fresh b) v.reads_back.0 w)
      × (w.ended ≡ false)
      × (is_header b ≡ (w.offset == 0))
      × IsFramed (framed b v)
write-ok b v w w' offset h = by_write (write (fresh b) w) (write-Write (fresh b) w) h
  where
    by_write :
        (p : Outcome ℕ × BlockWriter)
        → Write (fresh b) w p
        → p ≡ (ok offset, w')
        → (w' ≡ behind (fresh b) v.reads_back.0 w)
          × (w.ended ≡ false)
          × (is_header b ≡ (w.offset == 0))
          × IsFramed (framed b v)
    by_write p (refused e q) k = cc (q, k)
    by_write p (written content a c d e f q) k =
        let same : content ≡ v.reads_back.0 =
          ok-injective (sym a ∙ unfold to_bytes in v.reads_back.1) in
        (
          ap (λ (x : Outcome ℕ × BlockWriter). x.1) (sym k ∙ q)
              ∙ ap (λ x. behind (fresh b) x w) same,
          e,
          f,
          record {
            narrow = v.narrow;
            short = rw (← same) c;
            aligned = v.aligned;
            parses = v.reads_back.2;
          },
        )

-- What a run of successful writes behind the header has written.
abbrev Wrote : (bs : List Block) → AllSound bs → BlockWriter → BlockWriter → Type 0
Wrote bs v w w' =
    Follow (frames bs v)
    × (w'.sink ≡ w.sink ++ join (frames bs v))
    × (w'.ended ≡ (has_end (frames bs v) || w.ended))
    × (w.ended ≡ true → bs ≡ [])

write_all-cons :
    (o : BlockObject) (os : List BlockObject) (w w' : BlockWriter)
    → write_all (o ∷ os) w ≡ (ok tt, w')
    → (offset : ℕ) × (w₁ : BlockWriter) × (write o w ≡ (ok offset, w₁))
      × (write_all os w₁ ≡ (ok tt, w'))
unfolding write_all after_write
write_all-cons o os w w' h = by_result (write o w) refl h
  where
    by_result :
        (p : Outcome ℕ × BlockWriter)
        → write o w ≡ p
        → after_write p (write_all os) ≡ (ok tt, w')
        → (offset : ℕ) × (w₁ : BlockWriter) × (write o w ≡ (ok offset, w₁))
          × (write_all os w₁ ≡ (ok tt, w'))
    by_result (raised e, w₁) q k = cc k
    by_result (ok offset, w₁) q k = (offset, w₁, q, k)

frames-nil : (bs : List Block) (v : AllSound bs) → bs ≡ [] → frames bs v ≡ []
frames-nil [] v e = refl
frames-nil (b ∷ bs) v e = cc

or_move : (a b c : Bool) → (a || (b || c)) ≡ ((b || a) || c)
or_move a b c = ground arith

write_all-nil : (w : BlockWriter) → (ok tt, w) ≡ write_all [] w
unfolding write_all
write_all-nil w = refl

write_all-Wrote :
    (bs : List Block) (v : AllSound bs) (w w' : BlockWriter)
    → 0 < w.offset
    → write_all (map fresh bs) w ≡ (ok tt, w')
    → Wrote bs v w w'
write_all-Wrote [] v w w' m h =
    let same : w ≡ w' = ap (λ (x : Outcome (Unit {0}) × BlockWriter). x.1) (write_all-nil w ∙ h) in
    rw (← same) (tt, sym (append-nil w.sink), refl, λ x. refl)
write_all-Wrote (b ∷ bs) v w w' m h =
    let (offset, w₁, e, k) = write_all-cons (fresh b) (map fresh bs) w w' h in
    let (p, open_still, first, fits) = write-ok b v.0 w w₁ offset e in
    let content : Bytes = v.0.reads_back.0 in
    let moved : 0 < w₁.offset = rw p (omega arith) in
    let (follow, sink, ended, last) = write_all-Wrote bs v.1 w₁ w' moved k in
    let ended₁ : w₁.ended ≡ (is_end b || w.ended) = ap (λ (x : BlockWriter). x.ended) p in
    let sink₁ : w₁.sink ≡ w.sink ++ frame_bytes (block_type_of b) content =
      ap (λ (x : BlockWriter). x.sink) p in
    let not_first : (w.offset == 0) ≡ false = ground arith in
    (
      (
        fits,
        sym v.0.typed ∙ first ∙ not_first,
        λ t. frames-nil bs v.1 (last (ended₁ ∙ ap (λ x. x || w.ended) t)),
        follow,
      ),
      sink
          ∙ ap (λ x. x ++ join (frames bs v.1)) sink₁
          ∙ append_assoc w.sink (frame_bytes (block_type_of b) content) (join (frames bs v.1)),
      ended
          ∙ ap (λ x. has_end (frames bs v.1) || x) ended₁
          ∙ or_move (has_end (frames bs v.1)) (is_end b) w.ended,
      λ t. cc,
    )

whole-all :
    (fs : List Framed) (n : ℕ) → length (join fs) ≡ n → (whole n fs ≡ fs) × (is_cut n fs ≡ false)
unfolding whole is_cut
whole-all [] n h = (refl, refl)
whole-all (f ∷ fs) n h =
    let sum = length-append (bytes_of f) (join fs) in
    let one = length-frame_bytes f.block_type f.content in
    let fits : leb (size f) n ≡ true = ground (arith, sum, one) in
    let rest = whole-all fs (n - size f) (omega (arith, h, sum, one)) in
    rw fits (ap (λ t. f ∷ t) rest.0, rest.1)

take-length : (xs : Bytes) → xs ≡ take (length xs) xs
take-length [] = refl
take-length (x ∷ xs) = ap (λ t. x ∷ t) (take-length xs)

blocks-frames :
    (bs : List Block) (v : AllSound bs)
    → map (λ (o : BlockObject). o.block) (map (λ (f : Framed). f.object) (frames bs v)) ≡ bs
blocks-frames [] v = refl
blocks-frames (b ∷ bs) v = ap (λ t. b ∷ t) (blocks-frames bs v.1)

length-frames : (bs : List Block) (v : AllSound bs) → length (frames bs v) ≡ length bs
length-frames [] v = refl
length-frames (b ∷ bs) v = ap suc (length-frames bs v.1)

-- The reader lists these blocks and then stops with no error, and is complete if `complete`.
abbrev pub ListsBack : List Block → Bool → Listing → Type 0
ListsBack bs complete l =
    (map (λ (o : BlockObject). o.block) l.blocks ≡ bs)
    × (l.fault ≡ none)
    × (l.reader.is_truncated ≡ false)
    × (l.reader.complete ≡ complete)
    × (l.reader.finished ≡ true)

or_false : (b : Bool) → (b || false) ≡ b
or_false b = ground arith

-- A header and valid blocks of any known classes that a new writer accepted, one after the other, are read back from the bytes of
-- its sink, in whatever pieces they come and strict or not: the same blocks in the same order, with no
-- error and no truncation, and complete exactly if the writer had been given an End block.
pub write_all-ListsBack :
    (h : FileHeader) (bs : List Block) (w : BlockWriter) (stream : Stream) (strict : Bool)
    → AllValid (file_header h ∷ bs)
    → write_all (map fresh (file_header h ∷ bs)) block_writer ≡ (ok tt, w)
    → left stream ≡ w.sink
    → ListsBack
        (file_header h ∷ bs)
        w.ended
        (list_blocks (length bs + 2) (block_reader stream strict))
write_all-ListsBack h bs w stream strict valid e l =
    let v : AllSound (file_header h ∷ bs) = valid-AllSound (file_header h ∷ bs) valid in
    let (offset, w₁, e₁, k) =
      write_all-cons (fresh (file_header h)) (map fresh bs) block_writer w e in
    let (p, _, _, fits) = write-ok (file_header h) v.0 block_writer w₁ offset e₁ in
    let moved : 0 < w₁.offset = rw p (unfold block_writer in (omega arith)) in
    let (follow, sink, ended, _) = write_all-Wrote bs v.1 w₁ w moved k in
    let f : Framed = framed (file_header h) v.0 in
    let fs : List Framed = frames bs v.1 in
    let sink₁ : w₁.sink ≡ bytes_of f =
      ap (λ (x : BlockWriter). x.sink) p ∙ unfold block_writer in refl in
    let ended₁ : w₁.ended ≡ false =
      ap (λ (x : BlockWriter). x.ended) p ∙ unfold block_writer in refl in
    let bytes : left stream ≡ join (f ∷ fs) = l ∙ sink ∙ ap (λ x. x ++ join fs) sink₁ in
    let all = whole-all (f ∷ fs) (length (join (f ∷ fs))) refl in
    let fits_all : size f ≤ length (join (f ∷ fs)) =
      omega
        (arith, length-append (bytes_of f) (join fs), length-frame_bytes f.block_type f.content) in
    let type : f.block_type ≡ 1 = unfold block_type_of in refl in
    let listed =
      list_blocks-Listed h f fs (length (join (f ∷ fs))) strict stream (fits, type, refl, follow)
        (bytes ∙ take-length (join (f ∷ fs))) fits_all in
    let fuel : length fs + 2 ≡ length bs + 2 = ap (λ x. x + 2) (length-frames bs v.1) in
    let (blocks, fault, cut, complete, finished) =
      subst
        (λ x.
          Listed strict (length (join (f ∷ fs))) (f ∷ fs) false
            (list_blocks x (block_reader stream strict)))
        fuel listed in
    (
      ap (map (λ (o : BlockObject). o.block)) (blocks ∙ ap (map (λ (g : Framed). g.object)) all.0)
          ∙ blocks-frames (file_header h ∷ bs) v,
      fault ∙ ap (λ x. if x && strict then some truncated else none) all.1,
      cut ∙ all.1,
      complete
          ∙ ap (λ x. has_end x || false) all.0
          ∙ sym (ended ∙ ap (λ x. has_end fs || x) ended₁),
      finished,
    )
