-- ===== src/Binary/Writer/Keeps.antt =====
-- What one `write` of binary.py does, on every path.
use python_zipline.Base.{
  ℕ, ◌+◌, ◌≤◌, ◌≡◌, refl, Bool, true, false, not, ◌&&◌, ◌||◌, ◌++◌, ltb, ◌==◌, length, arith,
  length-append, Bool-cases, inl, inr, ltb→ge,
}
use python_zipline.Base.Outcome.{Fault, Outcome, ok, raised, zpf_error, structural, encode}
use python_zipline.Blocks.Types.{Bytes}
use python_zipline.Blocks.Dispatch.{BlockObject, block_type_of, to_bytes}
use python_zipline.Frame.{pack}
use python_zipline.Binary.Writer.{
  BlockWriter, is_header, is_end, max_block_length, frame_bytes, write_content, write,
}

-- The writer behind a written block.
abbrev pub behind : BlockObject → Bytes → BlockWriter → BlockWriter
behind o content w = record w {
  sink = w.sink ++ frame_bytes (block_type_of o.block) content;
  offset = w.offset + (8 + length content);
  ended = is_end o.block || w.ended;
}

pub data Write (o : BlockObject) (w : BlockWriter) (p : Outcome ℕ × BlockWriter) : Type 0 where
  refused : (e : Fault) → p ≡ (raised e, w) → Write o w p
  written :
      (content : Bytes)
      → to_bytes o ≡ ok content
      → length content ≤ max_block_length
      → w.closed ≡ false
      → w.ended ≡ false
      → is_header o.block ≡ (w.offset == 0)
      → p ≡ (ok w.offset, behind o content w)
      → Write o w p

header_rule :
    (first header : Bool)
    → (first && not header) ≡ false
    → (not first && header) ≡ false
    → header ≡ first
header_rule true true h k = refl
header_rule true false h k = cc
header_rule false true h k = cc
header_rule false false h k = refl

later : (n : ℕ) → ltb 0 n ≡ not (n == 0)
later n = ground arith

write_content-Write :
    (o : BlockObject) (w : BlockWriter) (c : Outcome Bytes)
    → to_bytes o ≡ c
    → w.closed ≡ false
    → w.ended ≡ false
    → is_header o.block ≡ (w.offset == 0)
    → Write o w (write_content o c w)
unfolding write_content
write_content-Write o w (raised e) h k l m = refused e refl
write_content-Write o w (ok content) h k l m =
    elim (Bool-cases (ltb max_block_length (length content))) [
      | inl t ↦ refused encode (rw t refl)
      | inr t ↦ written content h (ltb→ge max_block_length (length content) t) k l m (rw t refl)
    ]

-- A write that is refused, for whichever error, changes nothing. Otherwise the writer was open, no End
-- block had been written, and the block is a header exactly at offset 0; its frame is appended, and the
-- offset returned is the one where the frame begins.
pub write-Write : (o : BlockObject) (w : BlockWriter) → Write o w (write o w)
unfolding write
write-Write o w = elim (Bool-cases w.closed) [
  | inl a ↦ refused zpf_error (simp a refl)
  | inr a ↦ elim (Bool-cases w.ended) [
    | inl b ↦ refused structural (simp (a, b) refl)
    | inr b ↦ elim (Bool-cases (w.offset == 0 && not (is_header o.block))) [
      | inl c ↦ refused structural (simp (a, b, c) refl)
      | inr c ↦ elim (Bool-cases (ltb 0 w.offset && is_header o.block)) [
        | inl d ↦ refused structural (simp (a, b, c, d) refl)
        | inr d ↦
            let rule : is_header o.block ≡ (w.offset == 0) =
              header_rule (w.offset == 0) (is_header o.block) c (rw (later w.offset) at d) in
            simp (a, b, c, d) (write_content-Write o w (to_bytes o) refl a b rule)
      ]
    ]
  ]
]

pub length-frame_bytes : (t : ℕ) (c : Bytes) → length (frame_bytes t c) ≡ 8 + length c
unfolding frame_bytes pack
length-frame_bytes t c = omega arith

-- A writer whose offset is the number of bytes in its sink has such an offset after every write,
-- refused or not.
pub write-offset :
    (o : BlockObject) (w : BlockWriter)
    → w.offset ≡ length w.sink
    → (write o w).1.offset ≡ length (write o w).1.sink
write-offset o w h = by_write (write o w) (write-Write o w)
  where
    by_write : (p : Outcome ℕ × BlockWriter) → Write o w p → p.1.offset ≡ length p.1.sink
    by_write p (refused e q) = rw q h
    by_write p (written content a b c d e q) = rw q (
        omega (
          arith,
          h,
          length-append w.sink (frame_bytes (block_type_of o.block) content),
          length-frame_bytes (block_type_of o.block) content,
        ))
