-- ===== src/Binary/Checked/Passes.antt =====
-- The checked writer of binary.py: its file, read back, and the checker.
use python_zipline.Base.{
  ℕ, ◌+◌, ◌≡◌, refl, sym, ap, ◌∙◌, Bool, true, false, not, ◌&&◌, List, [], ◌∷◌, map, ltb, ◌==◌,
  if◌then◌else◌, length,
}
use python_zipline.Base.Outcome.{zpf_error, structural, Outcome, ok, raised}
use python_zipline.Blocks.Types.{Block, FileHeader, file_header}
use python_zipline.Blocks.Dispatch.{BlockObject, to_bytes}
use python_zipline.Conformance.State.{Checker, checker}
use python_zipline.Conformance.Monad.{and_then}
use python_zipline.Conformance.{observe, check, finish}
use python_zipline.Binary.Writer.{
  BlockWriter, block_writer, is_header, write_content, write, after_write, write_all,
}
use python_zipline.Binary.Stream.{Stream, left}
use python_zipline.Binary.Reader.{block_reader, list_blocks}
use python_zipline.Binary.Writer.Sound.{AllValid}
use python_zipline.Binary.Writer.Keeps.{Write, refused, written, write-Write}
use python_zipline.Binary.Writer.ReadBack.{fresh, ListsBack, write_all-ListsBack}
use python_zipline.Binary.Checked.{
  CheckedWriter, checked_writer, with_checks, write_observed, checked_write, checked_close,
  finished, after_checked_write, checked_write_all,
}

pair_path : {A B : Type 0} {a a' : A} {b b' : B} → a ≡ a' → b ≡ b' → ◌≡◌ {A = A × B} (a, b) (a', b')
pair_path p q = cc

with_checks-ok :
    (c : Checker) (q : Outcome ℕ × BlockWriter) (w' : CheckedWriter) (offset : ℕ)
    → with_checks c q ≡ (ok offset, w')
    → (q ≡ (ok offset, w'.writer)) × (c ≡ w'.checks)
unfolding with_checks
with_checks-ok c (result, w) w' offset e =
    let same : record { writer = w; checks = c } ≡ w' =
      ap (λ (x : Outcome ℕ × CheckedWriter). x.1) e in
    let good : result ≡ ok offset = ap (λ (x : Outcome ℕ × CheckedWriter). x.0) e in
    (
      pair_path good (ap (λ (x : CheckedWriter). x.writer) same),
      ap (λ (x : CheckedWriter). x.checks) same,
    )

write_observed-ok :
    (o : BlockObject) (w : BlockWriter) (p : Outcome (Unit {0}) × Checker) (w' : CheckedWriter)
    (offset : ℕ)
    → write_observed o w p ≡ (ok offset, w')
    → (write_content o (to_bytes o) w ≡ (ok offset, w'.writer)) × (p ≡ (ok tt, w'.checks))
unfolding write_observed
write_observed-ok o w (raised fault, c) w' offset e = cc
write_observed-ok o w (ok u, c) w' offset e =
    let (wrote, same) = with_checks-ok c (write_content o (to_bytes o) w) w' offset e in
    (wrote, ap (λ x. (ok u, x)) same)

-- A checked write that succeeds is a write that succeeds, of a block that the checker passes.
pub checked_write-write :
    (o : BlockObject) (w w' : CheckedWriter) (offset : ℕ)
    → checked_write o w ≡ (ok offset, w')
    → (write o w.writer ≡ (ok offset, w'.writer)) × (observe o.block w.checks ≡ (ok tt, w'.checks))
unfolding checked_write write
checked_write-write o w w' offset e =
    by_guards w.writer.closed w.writer.ended (w.writer.offset == 0 && not (is_header o.block))
      (ltb 0 w.writer.offset && is_header o.block)
      (write_observed o w.writer (observe o.block w.checks)) (write_content o (to_bytes o) w.writer)
      (write_observed-ok o w.writer (observe o.block w.checks) w' offset) e
  where
    refuse : {W : Type 0} → Bool → Bool → Bool → Bool → W → Outcome ℕ × W → Outcome ℕ × W
    refuse a b c d w p =
        if a
        then (raised zpf_error, w)
        else if b
        then (raised structural, w)
        else if c
        then (raised structural, w)
        else if d
        then (raised structural, w)
        else p

    by_guards :
        (a b c d : Bool) (p : Outcome ℕ × CheckedWriter) (q : Outcome ℕ × BlockWriter)
        → (p ≡ (ok offset, w')
            → (q ≡ (ok offset, w'.writer)) × (observe o.block w.checks ≡ (ok tt, w'.checks)))
        → refuse a b c d w p ≡ (ok offset, w')
        → (refuse a b c d w.writer q ≡ (ok offset, w'.writer))
          × (observe o.block w.checks ≡ (ok tt, w'.checks))
    by_guards true b c d p q next k = cc
    by_guards false true c d p q next k = cc
    by_guards false false true d p q next k = cc
    by_guards false false false true p q next k = cc
    by_guards false false false false p q next k = next k

checked_write_all-write_all :
    (os : List BlockObject) (w w' : CheckedWriter)
    → checked_write_all os w ≡ (ok tt, w')
    → (write_all os w.writer ≡ (ok tt, w'.writer))
      × (check (map (λ (o : BlockObject). o.block) os) w.checks ≡ (ok tt, w'.checks))
unfolding checked_write_all write_all check
checked_write_all-write_all [] w w' e =
    let same : w ≡ w' = ap (λ (x : Outcome (Unit {0}) × CheckedWriter). x.1) e in
    (
      ap (λ (x : CheckedWriter). (ok tt, x.writer)) same,
      ap (λ (x : CheckedWriter). (ok tt, x.checks)) same,
    )
checked_write_all-write_all (o ∷ os) w w' e =
    first (checked_write o w) (checked_write-write o w) (λ w1. checked_write_all-write_all os w1 w')
      e
  where
    first :
        (p : Outcome ℕ × CheckedWriter)
        → ((w1 : CheckedWriter) (offset : ℕ)
            → p ≡ (ok offset, w1)
            → (write o w.writer ≡ (ok offset, w1.writer))
              × (observe o.block w.checks ≡ (ok tt, w1.checks)))
        → ((w1 : CheckedWriter)
            → checked_write_all os w1 ≡ (ok tt, w')
            → (write_all os w1.writer ≡ (ok tt, w'.writer))
              × (check (map (λ (o : BlockObject). o.block) os) w1.checks ≡ (ok tt, w'.checks)))
        → after_checked_write p (checked_write_all os) ≡ (ok tt, w')
        → (after_write (write o w.writer) (write_all os) ≡ (ok tt, w'.writer))
          × (and_then
                (λ _. check (map (λ (o : BlockObject). o.block) os))
                (observe o.block w.checks)
              ≡ (ok tt, w'.checks))
    first (raised fault, w1) one rest k = cc
    first (ok offset, w1) one rest k =
        let (wrote, seen) = one w1 offset refl in
        let (wrote_all, checked) = rest w1 k in (rw wrote wrote_all, rw seen checked)

write-closed : (o : BlockObject) (w : BlockWriter) → (write o w).1.closed ≡ w.closed
write-closed o w = by_write (write o w) (write-Write o w)
  where
    by_write : (p : Outcome ℕ × BlockWriter) → Write o w p → p.1.closed ≡ w.closed
    by_write p (refused fault e) = ap (λ (x : Outcome ℕ × BlockWriter). x.1.closed) e
    by_write p (written content a b c d f e) = ap (λ (x : Outcome ℕ × BlockWriter). x.1.closed) e

write_all-closed : (os : List BlockObject) (w : BlockWriter) → (write_all os w).1.closed ≡ w.closed
unfolding write_all after_write
write_all-closed [] w = refl
write_all-closed (o ∷ os) w = first (write o w) (write-closed o w) (λ w1. write_all-closed os w1)
  where
    first :
        (p : Outcome ℕ × BlockWriter)
        → p.1.closed ≡ w.closed
        → ((w1 : BlockWriter) → (write_all os w1).1.closed ≡ w1.closed)
        → (after_write p (write_all os)).1.closed ≡ w.closed
    first (raised fault, w1) h next = h
    first (ok offset, w1) h next = next w1 ∙ h

checked_close-finish :
    (w : CheckedWriter)
    → w.writer.closed ≡ false
    → (checked_close w).0 ≡ ok tt
    → (finish w.checks).0 ≡ ok tt
unfolding checked_close finished
checked_close-finish w f e = rw f at e

blocks_of-fresh : (bs : List Block) → map (λ (o : BlockObject). o.block) (map fresh bs) ≡ bs
blocks_of-fresh [] = refl
blocks_of-fresh (b ∷ bs) = ap (λ t. b ∷ t) (blocks_of-fresh bs)

-- A file that a checking writer has taken block by block and then closed without an error: it is read
-- back, in whatever pieces it comes and strict or not, as the blocks that were written, and these
-- blocks pass a checker that starts anew, to the end of its `finish`.
pub checked_file_passes :
    (h : FileHeader) (bs : List Block) (w : CheckedWriter) (stream : Stream) (strict : Bool)
    → AllValid (file_header h ∷ bs)
    → checked_write_all (map fresh (file_header h ∷ bs)) checked_writer ≡ (ok tt, w)
    → (checked_close w).0 ≡ ok tt
    → left stream ≡ w.writer.sink
    → ListsBack
        (file_header h ∷ bs)
        w.writer.ended
        (list_blocks (length bs + 2) (block_reader stream strict))
      × ((check (file_header h ∷ bs) checker).0 ≡ ok tt)
      × ((finish (check (file_header h ∷ bs) checker).1).0 ≡ ok tt)
unfolding checked_writer
checked_file_passes h bs w stream strict valid e c l =
    let (wrote, checked) =
      checked_write_all-write_all (map fresh (file_header h ∷ bs)) checked_writer w e in
    let passed : check (file_header h ∷ bs) checker ≡ (ok tt, w.checks) =
      rw (blocks_of-fresh bs) at checked in
    let opened : w.writer.closed ≡ false =
      ap (λ (x : Outcome (Unit {0}) × BlockWriter). x.1.closed) (sym wrote)
      ∙ write_all-closed (map fresh (file_header h ∷ bs)) block_writer
      ∙ (unfold block_writer in refl) in
    (
      write_all-ListsBack h bs w.writer stream strict valid wrote l,
      ap (λ (x : Outcome (Unit {0}) × Checker). x.0) passed,
      ap (λ (x : Outcome (Unit {0}) × Checker). (finish x.1).0) passed
          ∙ checked_close-finish w opened c,
    )
