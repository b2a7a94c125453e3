-- ===== src/Binary/Checked/Refused.antt =====
-- The checked writer of binary.py: what a write that raises leaves behind.
use python_zipline.Base.{ℕ, ◌≡◌, refl, not, ◌&&◌, ltb, ◌==◌, length, Bool-cases, inl, inr}
use python_zipline.Base.Outcome.{
  Fault, zpf_error, structural, semantic, advisory, content_fault, truncated, encode, value_error,
  Outcome, ok, raised,
}
use python_zipline.Blocks.Types.{Bytes}
use python_zipline.Blocks.Dispatch.{BlockObject, to_bytes}
use python_zipline.Conformance.State.{Checker}
use python_zipline.Conformance.Registry.{Registry}
use python_zipline.Conformance.Handlers.Frame.{Matches}
use python_zipline.Conformance.Observed.{Taken, Observed, observe-Observed}
use python_zipline.Conformance.{observe}
use python_zipline.Binary.Writer.{BlockWriter, is_header, max_block_length, write_content}
use python_zipline.Binary.Checked.{CheckedWriter, with_checks, write_observed, checked_write}

-- The file is as it was, and the checker has taken the block.
abbrev pub CountedUnwritten :
    Registry → BlockObject → BlockWriter → Outcome ℕ × CheckedWriter → Type 0
CountedUnwritten R o w (raised advisory, w') = (w'.writer ≡ w) × Taken R o.block w'.checks
CountedUnwritten R o w (raised fault, w') = w'.writer ≡ w
CountedUnwritten R o w (ok offset, w') = Taken R o.block w'.checks

counted :
    (R : Registry) (o : BlockObject) (w : BlockWriter) (fault : Fault) (c : Checker)
    → Taken R o.block c
    → CountedUnwritten R o w (raised fault, record { writer = w; checks = c })
counted R o w zpf_error c h = refl
counted R o w structural c h = refl
counted R o w semantic c h = refl
counted R o w advisory c h = (refl, h)
counted R o w content_fault c h = refl
counted R o w truncated c h = refl
counted R o w encode c h = refl
counted R o w value_error c h = refl

with_checks-CountedUnwritten :
    (R : Registry) (o : BlockObject) (w : BlockWriter) (c : Checker) (content : Outcome Bytes)
    → Taken R o.block c
    → CountedUnwritten R o w (with_checks c (write_content o content w))
unfolding with_checks write_content
with_checks-CountedUnwritten R o w c (raised fault) h = counted R o w fault c h
with_checks-CountedUnwritten R o w c (ok content) h =
    elim (Bool-cases (ltb max_block_length (length content))) [
      | inl long ↦ rw long refl
      | inr short ↦ rw short h
    ]

write_observed-CountedUnwritten :
    (R : Registry) (o : BlockObject) (w : BlockWriter) (p : Outcome (Unit {0}) × Checker)
    → Observed R o.block p
    → CountedUnwritten R o w (write_observed o w p)
unfolding write_observed
write_observed-CountedUnwritten R o w (ok u, c) h =
    with_checks-CountedUnwritten R o w c (to_bytes o) h
write_observed-CountedUnwritten R o w (raised zpf_error, c) h = refl
write_observed-CountedUnwritten R o w (raised structural, c) h = refl
write_observed-CountedUnwritten R o w (raised semantic, c) h = refl
write_observed-CountedUnwritten R o w (raised advisory, c) h = (refl, h)
write_observed-CountedUnwritten R o w (raised content_fault, c) h = refl
write_observed-CountedUnwritten R o w (raised truncated, c) h = refl
write_observed-CountedUnwritten R o w (raised encode, c) h = refl
write_observed-CountedUnwritten R o w (raised value_error, c) h = refl

-- A checked write that raises leaves the file as it was, and one that succeeds leaves a checker that
-- has taken the block; but where it raises the advisory finding, the checker has taken the block too,
-- which is then not in the file.
pub checked_write-CountedUnwritten :
    (o : BlockObject) (R : Registry) (w : CheckedWriter)
    → Matches R w.checks
    → CountedUnwritten R o w.writer (checked_write o w)
unfolding checked_write
checked_write-CountedUnwritten o R w m = elim (Bool-cases w.writer.closed) [
  | inl t ↦ rw t refl
  | inr f1 ↦ elim (Bool-cases w.writer.ended) [
    | inl t ↦ rw (f1, t) refl
    | inr f2 ↦ elim (Bool-cases (w.writer.offset == 0 && not (is_header o.block))) [
      | inl t ↦ rw (f1, f2, t) refl
      | inr f3 ↦ elim (Bool-cases (ltb 0 w.writer.offset && is_header o.block)) [
        | inl t ↦ rw (f1, f2, f3, t) refl
        | inr f4 ↦
            simp (f1, f2, f3, f4)
              (write_observed-CountedUnwritten R o w.writer (observe o.block w.checks)
                (observe-Observed o.block R w.checks m))
      ]
    ]
  ]
]
