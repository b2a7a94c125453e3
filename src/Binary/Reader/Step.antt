-- ===== src/Binary/Reader/Step.antt =====
-- One `__next__` of binary.py on bytes that hold frames, perhaps cut off.
use python_zipline.Base.{
  ℕ, ◌+◌, ◌-◌, ◌%◌, ◌^◌, ◌≤◌, ◌<◌, ◌≡◌, refl, ap, ◌∙◌, min, true, false, [], ◌∷◌, ◌++◌, ltb, ◌==◌,
  length, take, drop, arith, length-append, length-take, take-take, drop-take, take-append,
  drop-append, lt→ltb, ltb→lt, ltb→ge, Bool-cases, inl, inr,
}
use python_zipline.Base.Outcome.{ok}
use python_zipline.Blocks.Types.{Bytes}
use python_zipline.Blocks.Values.{field_at}
use python_zipline.Blocks.Dispatch.{BlockObject, parse_block}
use python_zipline.Frame.{pack, unpack}
use python_zipline.Frame.Words.{unpack-pack}
use python_zipline.Binary.Stream.{Stream, read_up_to, left, read_up_to-Splits}
use python_zipline.Binary.Writer.{frame_bytes, max_block_length}
use python_zipline.Binary.Reader.{
  BlockReader, item, stop_iteration, frame_size, truncate, well_placed, note_block, take_parsed,
  to_block, take_content, read_content, take_frame, next,
}

-- A frame, and the block that its content is.
pub record Framed : Type 0 where
  pub block_type : ℕ
  pub content : Bytes
  pub object : BlockObject

abbrev pub bytes_of : Framed → Bytes
bytes_of f = frame_bytes f.block_type f.content

abbrev pub size : Framed → ℕ
size f = 8 + length f.content

-- The frame can be written, and its content parses as the block.
pub record IsFramed (f : Framed) : Type 0 where
  pub narrow : f.block_type < 2 ^ 16
  pub short : length f.content ≤ max_block_length
  pub aligned : (length f.content % 4 == 0) ≡ true
  pub parses : parse_block f.block_type f.content ≡ ok f.object

-- The eight bytes before the content.
abbrev head_bytes : ℕ → ℕ → Bytes
head_bytes block_type len = pack 2 block_type ++ (pack 2 0 ++ pack 4 len)

frame_bytes-head :
    (t : ℕ) (c rest : Bytes) → frame_bytes t c ++ rest ≡ head_bytes t (length c) ++ (c ++ rest)
unfolding frame_bytes pack
frame_bytes-head t c rest = refl

length-head : (t n : ℕ) → length (head_bytes t n) ≡ 8
unfolding pack
length-head t n = omega arith

head_type : (t n : ℕ) → t < 2 ^ 16 → field_at 0 2 (head_bytes t n) ≡ t
unfolding pack
head_type t n h = let back : unpack (pack 2 t) ≡ t = unpack-pack 2 t (omega arith) in back

head_len : (t n : ℕ) → n ≤ max_block_length → field_at 4 4 (head_bytes t n) ≡ n
unfolding pack
head_len t n h = let back : unpack (pack 4 n) ≡ n = unpack-pack 4 n (omega arith) in back

take_frame-end :
    (p : Bytes × Stream) (r : BlockReader)
    → p.0 ≡ []
    → 0 < r.offset
    → take_frame p r ≡ (stop_iteration, record r { finished = true; stream = p.1 })
unfolding take_frame
take_frame-end ([], s) r e h = let moved : (r.offset == 0) ≡ false = ground arith in rw moved
take_frame-end (b ∷ bs, s) r e h = cc

take_frame-short :
    (p : Bytes × Stream) (r : BlockReader)
    → 0 < length p.0
    → length p.0 < 8
    → take_frame p r ≡ truncate r.offset (record r { stream = p.1 })
unfolding take_frame
take_frame-short ([], s) r h k = absurd (omega (arith, h))
take_frame-short (b ∷ bs, s) r h k =
    let t : ltb (length (b ∷ bs)) frame_size ≡ true = lt→ltb _ _ k in rw t

take_frame-whole :
    (p : Bytes × Stream) (r : BlockReader)
    → length p.0 ≡ 8
    → take_frame p r
      ≡ read_content (field_at 0 2 p.0) (field_at 4 4 p.0) (record r { stream = p.1 })
unfolding take_frame
take_frame-whole ([], s) r h = absurd (omega (arith, h))
take_frame-whole (b ∷ bs, s) r h =
    let t : ltb (length (b ∷ bs)) frame_size ≡ false = ground (arith, h) in rw t

-- A reader that goes on.
abbrev pub IsOpen : BlockReader → Type 0
IsOpen r = (r.finished ≡ false) × (r.after_end ≡ false)

next-take_frame :
    (r : BlockReader) → IsOpen r → next r ≡ take_frame (read_up_to r.stream frame_size) r
unfolding next
next-take_frame r h = rw (h.0, h.1)

-- At the end of the bytes the iteration stops.
pub next-end :
    (r : BlockReader)
    → IsOpen r
    → 0 < r.offset
    → left r.stream ≡ []
    → (s : Stream) × (next r ≡ (stop_iteration, record r { finished = true; stream = s }))
next-end r h k e =
    let p : Bytes × Stream = read_up_to r.stream frame_size in
    let nothing : p.0 ≡ [] = (read_up_to-Splits r.stream 8).0 ∙ ap (take 8) e in
    (p.1, next-take_frame r h ∙ take_frame-end p r nothing k)

module _ (r : BlockReader) (f : Framed) (rest : Bytes) (n : ℕ) (h : IsOpen r) (v : IsFramed f)
    (e : left r.stream ≡ take n (bytes_of f ++ rest)) where
  abbrev first_read : Bytes × Stream
  first_read = read_up_to r.stream frame_size

  abbrev behind : BlockReader
  behind = record r { stream = first_read.1 }

  first_bytes :
      first_read.0
      ≡ take (min 8 n) (head_bytes f.block_type (length f.content) ++ (f.content ++ rest))
  first_bytes =
      (read_up_to-Splits r.stream 8).0
      ∙ ap (take 8) e
      ∙ take-take 8 n _
      ∙ ap (take (min 8 n)) (frame_bytes-head f.block_type f.content rest)

  first_length : length first_read.0 ≡ min 8 n
  first_length = ap length first_bytes ∙ length-take (min 8 n) _ ∙ enough
    where
      enough :
          min (min 8 n) (length (head_bytes f.block_type (length f.content) ++ (f.content ++ rest)))
          ≡ min 8 n
      enough = omega (
        arith,
        length-append (head_bytes f.block_type (length f.content)) (f.content ++ rest),
        length-head f.block_type (length f.content),
      )

  left_behind : left first_read.1 ≡ take (n - 8) (f.content ++ rest)
  left_behind =
      (read_up_to-Splits r.stream 8).1
      ∙ ap (drop 8) e
      ∙ drop-take 8 n _
      ∙ ap (λ t. take (n - 8) (drop 8 t)) (frame_bytes-head f.block_type f.content rest)
      ∙ ap (take (n - 8)) (unfold pack in refl)

  whole_head : 8 ≤ n → first_read.0 ≡ head_bytes f.block_type (length f.content)
  whole_head k =
      let eight : min 8 n ≡ 8 = omega arith in
      let front : take 8 (head_bytes f.block_type (length f.content) ++ (f.content ++ rest))
          ≡ head_bytes f.block_type (length f.content) =
        unfold pack in refl in
      first_bytes
      ∙ ap (λ t. take t (head_bytes f.block_type (length f.content) ++ (f.content ++ rest))) eight
      ∙ front

  next-read_content :
      8 ≤ n
      → next r
        ≡ take_content f.block_type
            (length f.content)
            (read_up_to first_read.1 (length f.content))
            behind
  unfolding read_content
  next-read_content k =
      next-take_frame r h
      ∙ take_frame-whole first_read r (first_length ∙ omega arith)
      ∙ ap (λ t. read_content (field_at 0 2 t) (field_at 4 4 t) behind) (whole_head k)
      ∙ rw
          (
            head_type f.block_type (length f.content) v.narrow,
            head_len f.block_type (length f.content) v.short,
            v.aligned,
          )
          refl

  -- Bytes that end inside the frame are reported as a cut.
  pub next-cut :
      0 < n → n < size f → (s : Stream) × (next r ≡ truncate r.offset (record r { stream = s }))
  next-cut k l = elim (Bool-cases (ltb n 8)) [
    | inl t ↦ (
      first_read.1,
      next-take_frame r h
          ∙ take_frame-short first_read r (omega (arith, first_length))
              (omega (arith, first_length, ltb→lt n 8 t)),
    )
    | inr t ↦
        let m : 8 ≤ n = ltb→ge n 8 t in
        let q : Bytes × Stream = read_up_to first_read.1 (length f.content) in
        let sp = read_up_to-Splits first_read.1 (length f.content) in
        let few : ltb (length q.0) (length f.content) ≡ true = lt→ltb _ _ (
          omega (
            arith,
            ap length (sp.0 ∙ ap (take (length f.content)) left_behind),
            length-take (length f.content) (take (n - 8) (f.content ++ rest)),
            length-take (n - 8) (f.content ++ rest),
          )) in
        (q.1, next-read_content m ∙ unfold take_content in (rw few refl))
  ]

  -- A whole frame is read as its block, and the bytes behind it are left.
  pub next-item :
      size f ≤ n
      → well_placed r.header f.block_type ≡ true
      → (s : Stream) × (left s ≡ take (n - size f) rest)
        × (next r ≡ (
          item f.object,
          note_block f.object.block
              (record r { stream = s; offset = r.offset + (8 + length f.content) }),
        ))
  next-item k w =
      let len : ℕ = length f.content in
      let q : Bytes × Stream = read_up_to first_read.1 len in
      let sp = read_up_to-Splits first_read.1 len in
      let full : q.0 ≡ f.content =
        sp.0
        ∙ ap (take len) left_behind
        ∙ take-take len (n - 8) _
        ∙ ap (λ t. take t (f.content ++ rest)) (omega arith)
        ∙ take-append f.content rest in
      let all : ltb (length q.0) len ≡ false = rw full (ground arith) in
      let left_after : left q.1 ≡ take (n - size f) rest =
        sp.1
        ∙ ap (drop len) left_behind
        ∙ drop-take len (n - 8) _
        ∙ ap (take (n - 8 - len)) (drop-append f.content rest)
        ∙ ap (λ t. take t rest) (omega arith) in
      (
        q.1,
        left_after,
        next-read_content (omega arith)
            ∙ unfold take_content to_block take_parsed in (rw (all, full, w, v.parses) refl),
      )
