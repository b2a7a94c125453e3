-- ===== src/Binary/Writer.antt =====
-- `BlockWriter` of binary.py, without a checker (`check=False`), on a sink that takes all bytes.
pub mod Keeps
pub mod Sound
pub mod ReadBack
use python_zipline.Base.{
  ℕ, zero, suc, ◌+◌, Bool, true, false, not, ◌&&◌, ◌||◌, List, [], ◌∷◌, ◌++◌, ltb, ◌==◌,
  if◌then◌else◌, length,
}
use python_zipline.Base.Outcome.{zpf_error, structural, encode, Outcome, ok, raised}
use python_zipline.Blocks.Types.{Bytes, Block, file_header, end}
use python_zipline.Blocks.Dispatch.{BlockObject, block_type_of, to_bytes}
use python_zipline.Frame.{pack}

pub record BlockWriter : Type 0 where
  pub offset : ℕ
  pub closed : Bool
  pub ended : Bool
  pub sink : Bytes

unfoldable pub block_writer : BlockWriter
block_writer = record { offset = 0; closed = false; ended = false; sink = [] }

abbrev pub is_header : Block → Bool
is_header (file_header h) = true
is_header b = false

abbrev pub is_end : Block → Bool
is_end (end e) = true
is_end b = false

abbrev pub max_block_length : ℕ
max_block_length = 0xFFFFFFFF

unfoldable pub frame_bytes : ℕ → Bytes → Bytes
frame_bytes block_type content =
    pack 2 block_type ++ (pack 2 0 ++ (pack 4 (length content) ++ content))

unfoldable pub write_content : BlockObject → Outcome Bytes → BlockWriter → Outcome ℕ × BlockWriter
unfolding frame_bytes
write_content o (raised e) w = (raised e, w)
write_content o (ok content) w =
    if ltb max_block_length (length content) then (raised encode, w) else (
      ok w.offset,
      record w {
        sink = w.sink ++ frame_bytes (block_type_of o.block) content;
        offset = w.offset + (8 + length content);
        ended = is_end o.block || w.ended;
      },
    )

unfoldable pub write : BlockObject → BlockWriter → Outcome ℕ × BlockWriter
unfolding write_content
write o w =
    if w.closed
    then (raised zpf_error, w)
    else if w.ended
    then (raised structural, w)
    else if w.offset == 0 && not (is_header o.block)
    then (raised structural, w)
    else if ltb 0 w.offset && is_header o.block
    then (raised structural, w)
    else write_content o (to_bytes o) w

unfoldable pub close : BlockWriter → BlockWriter
close w = record w { closed = true }

unfoldable pub after_write :
    Outcome ℕ × BlockWriter
    → (BlockWriter → Outcome (Unit {0}) × BlockWriter)
    → Outcome (Unit {0}) × BlockWriter
after_write (raised e, w) go = (raised e, w)
after_write (ok offset, w) go = go w

-- `for block in blocks: writer.write(block)`
unfoldable pub write_all : List BlockObject → BlockWriter → Outcome (Unit {0}) × BlockWriter
unfolding after_write
write_all [] w = (ok tt, w)
write_all (o ∷ os) w = after_write (write o w) (write_all os)
