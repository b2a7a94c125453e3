-- ===== src/Binary/Checked.antt =====
-- `BlockWriter` of binary.py with a checker (`check=True`), on a sink that takes all bytes.
pub mod Passes
pub mod Refused
use python_zipline.Base.{ℕ, Bool, true, false, not, ◌&&◌, List, [], ◌∷◌, ltb, ◌==◌, if◌then◌else◌}
use python_zipline.Base.Outcome.{Fault, zpf_error, structural, Outcome, ok, raised}
use python_zipline.Blocks.Dispatch.{BlockObject, to_bytes}
use python_zipline.Conformance.State.{Checker, checker}
use python_zipline.Conformance.{observe, finish}
use python_zipline.Binary.Writer.{BlockWriter, block_writer, is_header, write_content, close}

pub record CheckedWriter : Type 0 where
  pub writer : BlockWriter
  pub checks : Checker

unfoldable pub checked_writer : CheckedWriter
checked_writer = record { writer = block_writer; checks = checker }

with_checks : Checker → Outcome ℕ × BlockWriter → Outcome ℕ × CheckedWriter
with_checks c (result, w) = (result, record { writer = w; checks = c })

-- The end of `write`, behind the call of `observe`.
write_observed :
    BlockObject → BlockWriter → Outcome (Unit {0}) × Checker → Outcome ℕ × CheckedWriter
unfolding with_checks
write_observed o w (raised fault, c) = (raised fault, record { writer = w; checks = c })
write_observed o w (ok u, c) = with_checks c (write_content o (to_bytes o) w)

-- write
unfoldable pub checked_write : BlockObject → CheckedWriter → Outcome ℕ × CheckedWriter
unfolding write_observed
checked_write o w =
    if w.writer.closed
    then (raised zpf_error, w)
    else if w.writer.ended
    then (raised structural, w)
    else if w.writer.offset == 0 && not (is_header o.block)
    then (raised structural, w)
    else if ltb 0 w.writer.offset && is_header o.block
    then (raised structural, w)
    else write_observed o w.writer (observe o.block w.checks)

finished : BlockWriter → Outcome (Unit {0}) × Checker → Outcome (Unit {0}) × CheckedWriter
finished w (result, c) = (result, record { writer = close w; checks = c })

-- close: the writer is closed whatever `finish` raises.
unfoldable pub checked_close : CheckedWriter → Outcome (Unit {0}) × CheckedWriter
unfolding finished
checked_close w = if w.writer.closed then (ok tt, w) else finished w.writer (finish w.checks)

after_checked_write :
    Outcome ℕ × CheckedWriter
    → (CheckedWriter → Outcome (Unit {0}) × CheckedWriter)
    → Outcome (Unit {0}) × CheckedWriter
after_checked_write (raised fault, w) next = (raised fault, w)
after_checked_write (ok offset, w) next = next w

-- `for block in blocks: writer.write(block)`
unfoldable pub checked_write_all :
    List BlockObject → CheckedWriter → Outcome (Unit {0}) × CheckedWriter
unfolding after_checked_write
checked_write_all [] w = (ok tt, w)
checked_write_all (o ∷ os) w = after_checked_write (checked_write o w) (checked_write_all os)
