-- ===== src/Reassembly/Tiling.antt =====
-- The chunks that StreamView.chunks of reassembly.py yields, laid end to end.
use mathlib.Core.Path.{subst}
use python_zipline.Base.{
  ℕ, ◌+◌, ltb→lt, ltb→ge, lt→ltb, leb→le, ◌≤◌, ◌<◌, ◌≡◌, refl, sym, ◌∙◌, inl, inr, max, true,
  Option, none, some, List, [], ◌∷◌, ◌++◌, length, ltb, leb, Bool-cases, length-append, arith,
}
use python_zipline.Base.Int.{ℤ}
use python_zipline.Base.Dict.{nat_eq, contains}
use python_zipline.Base.Outcome.{ok, zpf_error, ok-injective, guard, >>=-eq-ok}
use python_zipline.Blocks.Types.{Bytes, Record, Participant}
use python_zipline.Intervals.Spec.{Interval}
use python_zipline.Order.Walk.{Walk}
use python_zipline.Reassembly.Ranges.Reached.{contains-fins_below}
use python_zipline.Reassembly.{
  Contribution, Chunk, segment, gap, Assembly, Chunks, trim_overlap, flushed, open_hole, extend_run,
  add_payload, take_placed, start_walk, assemble_with, assemble, assemble_all, trailing_hole,
  hole_chunks, hole_list, close_chunks, assembly, stream_chunks, is_stream_oriented,
}
use python_zipline.Reassembly.Ranges.{note_end, fins_below, place_offset}

-- The chunks lie end to end from `a` to `e`: a segment is as long as its bytes and not empty, a gap is not
-- empty and is the next of `holes`, and no offset is left out but one that a FIN holds.
pub data Tiles (fins : List ℕ) : ℕ → ℕ → List Chunk → List Interval → Type 0 where
  tiles_end : {a : ℕ} → Tiles fins a a [] []
  tiles_segment :
      {a b e : ℕ} {cs : List Chunk} {hs : List Interval} (bytes : Bytes) (ts : ℤ)
      (parts : List Contribution)
      → 0 < length bytes
      → a + length bytes ≡ b
      → Tiles fins b e cs hs
      → Tiles fins a e (segment bytes a b ts parts ∷ cs) hs
  tiles_gap :
      {a b e : ℕ} {cs : List Chunk} {hs : List Interval}
      → a < b
      → Tiles fins b e cs hs
      → Tiles fins a e (gap a b ∷ cs) ((a, b) ∷ hs)
  tiles_fin :
      {a e : ℕ} {cs : List Chunk} {hs : List Interval}
      → contains fins a ≡ true
      → Tiles fins (a + 1) e cs hs
      → Tiles fins a e cs hs

Tiles-append :
    {fins : List ℕ} {a b e : ℕ} {xs ys : List Chunk} {hs ks : List Interval}
    → Tiles fins a b xs hs
    → Tiles fins b e ys ks
    → Tiles fins a e (xs ++ ys) (hs ++ ks)
Tiles-append tiles_end u = u
Tiles-append (tiles_segment bytes ts parts n l t) u =
    tiles_segment bytes ts parts n l (Tiles-append t u)
Tiles-append (tiles_gap l t) u = tiles_gap l (Tiles-append t u)
Tiles-append (tiles_fin c t) u = tiles_fin c (Tiles-append t u)

past_trim : (payload : Bytes) (off cursor : ℕ) → cursor ≤ (trim_overlap payload off cursor).1
unfolding trim_overlap
past_trim payload off cursor = elim (Bool-cases (leb cursor off)) [
  | inl p ↦ rw p (leb→le cursor off p)
  | inr p ↦ rw p (omega arith)
]

module _ (fins : List ℕ) where
  -- What is yielded reaches the open run, and the open run reaches `to`.
  LaidTo : ℕ → Assembly → Type 0
  LaidTo to s =
      (start : ℕ) × Tiles fins 0 start s.emitted s.holes
      × (start + length s.run ≡ to)
      × (0 < length s.run → start ≡ s.run_start)

  flushed-Tiles :
      (s : Assembly) (start : ℕ)
      → start + length s.run ≡ s.cursor
      → (0 < length s.run → start ≡ s.run_start)
      → Tiles fins start s.cursor (flushed s) []
  unfolding flushed
  flushed-Tiles s start l o = elim (Bool-cases (ltb 0 (length s.run))) [
    | inl p ↦
        let n : 0 < length s.run = ltb→lt 0 (length s.run) p in
        let e : s.run_start + length s.run ≡ s.cursor = omega (arith, o n, l) in
        rw (p, o n) (tiles_segment s.run s.run_ts s.parts n e tiles_end)
    | inr p ↦
        let e : start ≡ s.cursor = omega (arith, ltb→ge 0 (length s.run) p, l) in
        rw (p, e) tiles_end
  ]

  LaidTo-open_hole :
      (off : ℕ) (s : Assembly) → LaidTo s.cursor s → s.cursor ≤ off → LaidTo off (open_hole off s)
  unfolding LaidTo open_hole
  LaidTo-open_hole off s (start, t, l, o) h = elim (Bool-cases (ltb s.cursor off)) [
    | inl p ↦
        let hole : Tiles fins s.cursor off (gap s.cursor off ∷ []) ((s.cursor, off) ∷ []) =
          tiles_gap (ltb→lt s.cursor off p) tiles_end in
        rw p (
          off,
          Tiles-append t (Tiles-append (flushed-Tiles s start l o) hole),
          omega arith,
          λ n. absurd (omega arith),
        )
    | inr p ↦
        let e : s.cursor ≡ off = omega (arith, ltb→ge s.cursor off p) in rw p (start, t, l ∙ e, o)
  ]

  LaidTo-extend_run :
      (r : Record) (payload : Bytes) (off : ℕ) (s : Assembly)
      → LaidTo off s
      → LaidTo (off + length payload) (extend_run r payload off s)
  unfolding LaidTo extend_run
  LaidTo-extend_run r payload off s (start, t, l, o) =
      let longer : start + length (s.run ++ payload) ≡ off + length payload =
        omega (arith, length-append s.run payload) in
      (
        start,
        t,
        longer,
        λ n. elim (Bool-cases (ltb 0 (length s.run))) [
          | inl p ↦ rw p (o (ltb→lt 0 (length s.run) p))
          | inr p ↦ rw p (omega (arith, ltb→ge 0 (length s.run) p))
        ],
      )

  abbrev IsLaid : Assembly → Type 0
  IsLaid s = LaidTo s.cursor s

  add_payload-IsLaid :
      (r : Record) (x : Bytes × ℕ) (s : Assembly)
      → s.cursor ≤ x.1
      → IsLaid s
      → IsLaid (add_payload r x s)
  unfolding add_payload
  add_payload-IsLaid r (payload, off) s h l = elim (Bool-cases (ltb 0 (length payload))) [
    | inl p ↦ rw p (
        unfold extend_run in
        (LaidTo-extend_run r payload off (open_hole off s) (LaidTo-open_hole off s l h)))
    | inr p ↦ rw p l
  ]

  take_placed-IsLaid :
      (r : Record) (off : Option ℕ) (s : Assembly) → IsLaid s → IsLaid (take_placed r off s)
  unfolding take_placed
  take_placed-IsLaid r none s l = l
  take_placed-IsLaid r (some off) s l =
      let s' : Assembly = record s { found = note_end r (some off) s.found } in
      let l' : IsLaid s' = unfold LaidTo in l in
      elim (Bool-cases (ltb 0 (length r.payload))) [
        | inl p ↦ rw p (
            add_payload-IsLaid r (trim_overlap r.payload off s.cursor) s'
              (past_trim r.payload off s.cursor) l')
        | inr p ↦ rw p l'
      ]

  assemble-IsLaid : (r : Record) (s : Assembly) → IsLaid s → IsLaid (assemble r s)
  unfolding assemble assemble_with
  assemble-IsLaid r s l = by_walk (start_walk s.walk r.seq_start)
    where
      by_walk : (w : Option Walk) → IsLaid (assemble_with r w s)
      by_walk none = l
      by_walk (some w) =
          take_placed-IsLaid r (place_offset r w).0 (record s { walk = some (place_offset r w).1 })
            (unfold LaidTo in l)

  assemble_all-IsLaid : (rs : List Record) (s : Assembly) → IsLaid s → IsLaid (assemble_all rs s)
  unfolding assemble_all
  assemble_all-IsLaid [] s l = l
  assemble_all-IsLaid (r ∷ rs) s l = assemble_all-IsLaid rs (assemble r s) (assemble-IsLaid r s l)

  assembly-IsLaid : (p : Participant) → IsLaid (assembly p)
  unfolding LaidTo assembly
  assembly-IsLaid p = (0, tiles_end, refl, λ n. absurd (omega arith))

-- The end of the walk, whatever `start` the trailing hole has.
module _ (cursor reach : ℕ) (fs : List ℕ) where
  abbrev below : List ℕ
  below = fins_below (max cursor reach) fs

  abbrev Closes : Option Interval → Type 0
  Closes hole = Tiles below cursor (max cursor reach) (hole_chunks hole) (hole_list hole)

  reach_here : reach ≤ cursor → Closes none
  reach_here h = let e : max cursor reach ≡ cursor = omega arith in rw e tiles_end

  reach_past_fin :
      contains fs cursor ≡ true
      → cursor < reach
      → (hole : Option Interval)
      → Tiles below (cursor + 1) reach (hole_chunks hole) (hole_list hole)
      → Closes hole
  reach_past_fin c h hole t =
      let e : max cursor reach ≡ reach = omega arith in
      let fin : contains below cursor ≡ true =
        rw (contains-fins_below (max cursor reach) cursor fs, c)
          (lt→ltb cursor (max cursor reach) (omega arith)) in
      tiles_fin fin
        (subst (λ x. Tiles below (cursor + 1) x (hole_chunks hole) (hole_list hole)) (sym e) t)

  trailing_hole-Closes : Closes (trailing_hole cursor reach fs)
  unfolding trailing_hole
  trailing_hole-Closes = elim (Bool-cases (contains fs cursor)) [
    | inl c ↦ elim (Bool-cases (ltb (cursor + 1) reach)) [
      | inl p ↦
          rw (c, p)
            (reach_past_fin c (omega (arith, ltb→lt (cursor + 1) reach p))
              (some (cursor + 1, reach)) (tiles_gap (ltb→lt (cursor + 1) reach p) tiles_end))
      | inr p ↦ elim (Bool-cases (ltb cursor reach)) [
        | inl q ↦
            let e : cursor + 1 ≡ reach =
              omega (arith, ltb→lt cursor reach q, ltb→ge (cursor + 1) reach p) in
            rw (c, p)
              (reach_past_fin c (ltb→lt cursor reach q) none
                (subst (λ x. Tiles below (cursor + 1) x [] []) e tiles_end))
        | inr q ↦ rw (c, p) (reach_here (ltb→ge cursor reach q))
      ]
    ]
    | inr c ↦ elim (Bool-cases (ltb cursor reach)) [
      | inl p ↦
          let e : max cursor reach ≡ reach = omega (arith, ltb→lt cursor reach p) in
          rw (c, p)
            (subst (λ x. Tiles below cursor x (gap cursor reach ∷ []) ((cursor, reach) ∷ []))
              (sym e) (tiles_gap (ltb→lt cursor reach p) tiles_end))
      | inr p ↦ rw (c, p) (reach_here (ltb→ge cursor reach p))
    ]
  ]

close_chunks-Tiles :
    (s : Assembly)
    → ((fins : List ℕ) → IsLaid fins s)
    → Tiles
        (close_chunks s).fins
        0
        (close_chunks s).extent
        (close_chunks s).chunks
        (close_chunks s).gaps
unfolding close_chunks LaidTo
close_chunks-Tiles s laid =
    let (start, t, l, o) = laid (fins_below (max s.cursor s.found.reach) s.found.fins) in
    Tiles-append t (
      Tiles-append (flushed-Tiles _ s start l o)
        (trailing_hole-Closes s.cursor s.found.reach s.found.fins))

-- What `chunks` yields lies end to end from offset 0 to the extent it measures: every segment holds as
-- many bytes as its range is long and at least one, every gap is the next one of the measured holes, and
-- no offset is left out but those that the measured FIN positions name.
pub stream_chunks_tile :
    (p : Participant) (records : List Record) (c : Chunks)
    → stream_chunks p records ≡ ok c
    → Tiles c.fins 0 c.extent c.chunks c.gaps
unfolding stream_chunks
stream_chunks_tile p records c e =
    let (u, g, f) = >>=-eq-ok (guard (is_stream_oriented p records) zpf_error) _ e in
    subst (λ d. Tiles d.fins 0 d.extent d.chunks d.gaps) (ok-injective f)
      (close_chunks-Tiles (assemble_all records (assembly p))
        (λ fins. assemble_all-IsLaid fins records (assembly p) (assembly-IsLaid fins p)))
