-- ===== src/Reassembly/Sent.antt =====
-- What StreamView.reassembled of reassembly.py gives back of the bytes that a participant sent.
use mathlib.Core.Path.{subst}
use mathlib.Core.List.{append-nil}
use python_zipline.Base.{
  ℕ, zero, suc, ◌+◌, ◌-◌, ◌≤◌, ◌<◌, ◌≡◌, refl, sym, ap, ◌∙◌, inl, inr, max, true, false, none, some,
  List, [], ◌∷◌, ◌++◌, length, take, drop, drop-take, drop-drop, length-drop, ltb, leb, Bool-cases,
  arith, ltb→ge, lt→ltb, leb→le, leb→gt,
}
use python_zipline.Base.Outcome.{ok, ◌>>=◌}
use python_zipline.Blocks.Types.{Bytes, Record, Participant}
use python_zipline.Order.Serial.{seq_high_bit}
use python_zipline.Order.Walk.{placer, walk_at}
use python_zipline.Order.Walk.Place.{at, wire, place_forward}
use python_zipline.Reassembly.{
  Assembly, trim_overlap, flushed, open_hole, extend_run, add_payload, take_placed, assemble,
  assemble_all, trailing_hole, close_chunks, assembly, isn_walk, is_stream_oriented, stream_chunks,
  join_segments, reassembled,
}
use python_zipline.Reassembly.Ranges.{place_offset, note_end}
use python_zipline.Reassembly.Extent.{assemble_known, take_placed_keeps}

-- The records of a stream that carries `data` from the sequence number `o` on: each carries the bytes at
-- its offset, which is less than 2^31 past the record before it and leaves no byte out behind those
-- before it. What several records carry, they carry alike; `sent` is how far they reach.
pub data Sent (o : ℕ) (data' : Bytes) : ℕ → ℕ → List Record → ℕ → Type 0 where
  sent_none : {p sent : ℕ} → Sent o data' p sent [] sent
  sent_more :
      {p so_far sent : ℕ} {rs : List Record} (r : Record) (q : ℕ)
      → r.seq_start ≡ some (wire o q)
      → p ≤ q
      → q < p + seq_high_bit
      → q ≤ so_far
      → r.payload ≡ take (length r.payload) (drop q data')
      → Sent o data' q (max so_far (q + length r.payload)) rs sent
      → Sent o data' p so_far (r ∷ rs) sent

take-both : (m n : ℕ) (xs : Bytes) → take m xs ++ take n (drop m xs) ≡ take (m + n) xs
take-both zero n xs = let e : 0 + n ≡ n = omega arith in rw e refl
take-both (suc m) zero [] = let e : suc m + 0 ≡ suc m = omega arith in rw e refl
take-both (suc m) (suc n) [] = let e : suc m + suc n ≡ suc (m + suc n) = omega arith in rw e refl
take-both (suc m) n (x ∷ xs) =
    let e : suc m + n ≡ suc (m + n) = omega arith in rw e (ap (λ t. x ∷ t) (take-both m n xs))

-- The bytes at `q`, less those up to `c`.
slice_past :
    (data' payload : Bytes) (q c : ℕ)
    → payload ≡ take (length payload) (drop q data')
    → q ≤ c
    → c ≤ q + length payload
    → take c data' ++ drop (c - q) payload ≡ take (q + length payload) data'
slice_past data' payload q c e h k =
    let n : ℕ = length payload in
    let rest : drop (c - q) payload ≡ take (n - (c - q)) (drop (q + (c - q)) data') =
      ap (drop (c - q)) e
      ∙ (drop-take (c - q) n (drop q data')
          ∙ ap (take (n - (c - q))) (drop-drop q (c - q) data')) in
    let here : q + (c - q) ≡ c = omega arith in
    let total : c + (n - (c - q)) ≡ q + n = omega arith in
    ap (λ t. take c data' ++ t) (rest ∙ ap (λ x. take (n - (c - q)) (drop x data')) here)
    ∙ (take-both c (n - (c - q)) data' ∙ ap (λ x. take x data') total)

trim_within :
    (payload : Bytes) (q c : ℕ) → q ≤ c → trim_overlap payload q c ≡ (drop (c - q) payload, c)
unfolding trim_overlap
trim_within payload q c h = elim (Bool-cases (leb c q)) [
  | inl p ↦
      let none_left : c - q ≡ 0 = omega (arith, leb→le c q p) in
      let here : q ≡ c = omega (arith, leb→le c q p) in
      rw (p, none_left) (ap (λ x. (payload, x)) here)
  | inr p ↦ rw p refl
]

add_payload_here :
    (r : Record) (payload : Bytes) (s : Assembly)
    → 0 < length payload
    → add_payload r (payload, s.cursor) s ≡ extend_run r payload s.cursor s
unfolding add_payload open_hole
add_payload_here r payload s h =
    let nonempty : ltb 0 (length payload) ≡ true = lt→ltb 0 (length payload) h in
    let closed : ltb s.cursor s.cursor ≡ false = ground arith in rw (nonempty, closed) refl

add_payload_nothing :
    (r : Record) (payload : Bytes) (off : ℕ) (s : Assembly)
    → length payload ≡ 0
    → add_payload r (payload, off) s ≡ s
unfolding add_payload
add_payload_nothing r payload off s h = rw h refl

-- What has been yielded and gathered is the data up to the cursor, without a hole.
abbrev Delivers : Bytes → Assembly → Type 0
Delivers data' s = (s.emitted ≡ []) × (s.run ≡ take s.cursor data') × (s.found.reach ≤ s.cursor)

module _ (data' : Bytes) (r : Record) (q : ℕ) (s : Assembly) where
  abbrev After : Assembly → Type 0
  After t = Delivers data' t × (t.cursor ≡ max s.cursor (q + length r.payload))

  abbrev marked : Assembly
  marked = record s { found = note_end r (some q) s.found }

  covered_already : q + length r.payload ≤ s.cursor → Delivers data' s → After marked
  unfolding note_end
  covered_already h (emitted, run, reach) = ((emitted, run, omega arith), omega arith)

  extends :
      q ≤ s.cursor
      → s.cursor < q + length r.payload
      → r.payload ≡ take (length r.payload) (drop q data')
      → Delivers data' s
      → After (extend_run r (drop (s.cursor - q) r.payload) s.cursor marked)
  unfolding extend_run note_end
  extends h k e (emitted, run, reach) =
      let rest : ℕ = length (drop (s.cursor - q) r.payload) in
      let end : s.cursor + rest ≡ q + length r.payload =
        omega (arith, length-drop (s.cursor - q) r.payload) in
      let joined : s.run ++ drop (s.cursor - q) r.payload ≡ take (q + length r.payload) data' =
        ap (λ t. t ++ drop (s.cursor - q) r.payload) run
        ∙ slice_past data' r.payload q s.cursor e h (omega arith) in
      rw end ((emitted, joined, omega arith), omega arith)

  trimmed-After :
      q ≤ s.cursor
      → r.payload ≡ take (length r.payload) (drop q data')
      → Delivers data' s
      → After (add_payload r (drop (s.cursor - q) r.payload, s.cursor) marked)
  trimmed-After h e d = elim (Bool-cases (leb (q + length r.payload) s.cursor)) [
    | inl p ↦
        let covered : q + length r.payload ≤ s.cursor = leb→le (q + length r.payload) s.cursor p in
        let empty : length rest ≡ 0 = omega (arith, length-drop (s.cursor - q) r.payload) in
        subst After (sym (add_payload_nothing r rest s.cursor marked empty))
          (covered_already covered d)
    | inr p ↦
        let past : s.cursor < q + length r.payload = leb→gt (q + length r.payload) s.cursor p in
        let some_left : 0 < length rest = omega (arith, length-drop (s.cursor - q) r.payload) in
        subst After (sym (add_payload_here r rest marked some_left)) (extends h past e d)
  ]
    where
      rest : Bytes
      rest = drop (s.cursor - q) r.payload

  take_placed-After :
      q ≤ s.cursor
      → r.payload ≡ take (length r.payload) (drop q data')
      → Delivers data' s
      → After (take_placed r (some q) s)
  unfolding take_placed
  take_placed-After h e d = elim (Bool-cases (ltb 0 (length r.payload))) [
    | inr p ↦ rw p (covered_already (omega (arith, ltb→ge 0 (length r.payload) p)) d)
    | inl p ↦
        let trimmed : trim_overlap r.payload q s.cursor
            ≡ (drop (s.cursor - q) r.payload, s.cursor) =
          trim_within r.payload q s.cursor h in
        rw p (subst (λ x. After (add_payload r x marked)) (sym trimmed) (trimmed-After h e d))
  ]

assemble_all-Delivers :
    {data' : Bytes} {o p so_far sent : ℕ} {rs : List Record}
    → Sent o data' p so_far rs sent
    → (s : Assembly) → s.walk ≡ some (at o p)
    → s.cursor ≡ so_far
    → Delivers data' s
    → Delivers data' (assemble_all rs s) × ((assemble_all rs s).cursor ≡ sent)
unfolding assemble_all
assemble_all-Delivers sent_none s walk cursor d = (d, cursor)
assemble_all-Delivers {data'} {o} {p} {so_far} {sent} (sent_more {rs = rs} r q seq h k l e more) s
      walk cursor d =
    let s' : Assembly = record s { walk = some (at o q) } in
    let placed : place_offset r (at o p) ≡ (some q, at o q) =
      unfold place_offset in (rw (place_forward r o p q seq h k) refl) in
    let step : assemble r s ≡ take_placed r (some q) s' =
      assemble_known r (at o p) s walk
      ∙ ap (λ x. take_placed r x.0 (record s { walk = some x.1 })) placed in
    let (d', cursor') = take_placed-After data' r q s' (omega arith) e d in
    let walk' : (take_placed r (some q) s').walk ≡ some (at o q) =
      (take_placed_keeps r (some q) s').1 in
    subst (λ t. Delivers data' (assemble_all rs t) × ((assemble_all rs t).cursor ≡ sent)) (sym step)
      (assemble_all-Delivers more (take_placed r (some q) s') walk'
        (cursor' ∙ ap (λ x. max x (q + length r.payload)) cursor) d')

no_trailing :
    (cursor reach : ℕ) (fins : List ℕ) → reach ≤ cursor → trailing_hole cursor reach fins ≡ none
unfolding trailing_hole
no_trailing cursor reach fins h = ground arith

empty_run : (xs : Bytes) → length xs ≡ 0 → xs ≡ []
empty_run [] h = refl
empty_run (x ∷ xs) h = absurd (omega arith)

join_flushed :
    (data' : Bytes) (s : Assembly)
    → Delivers data' s
    → join_segments (close_chunks s).chunks ≡ ok (take s.cursor data')
unfolding close_chunks flushed join_segments
join_flushed data' s (emitted, run, reach) =
    let whole : join_segments (flushed s ++ []) ≡ ok (take s.cursor data') =
      elim (Bool-cases (ltb 0 (length s.run))) [
        | inl p ↦ rw p (ap ok (append-nil s.run ∙ run))
        | inr p ↦
            let empty : length s.run ≡ 0 = omega (arith, ltb→ge 0 (length s.run) p) in
            rw p (ap ok (sym (empty_run s.run empty) ∙ run))
      ] in
    rw (emitted, no_trailing s.cursor s.found.reach s.found.fins reach) whole

start_walk_at :
    (p : Participant) (isn : ℕ) → p.isn ≡ some isn → (assembly p).walk ≡ some (at (isn + 1) 0)
unfolding assembly isn_walk placer walk_at
start_walk_at p isn e = let here : isn + 1 + 0 ≡ isn + 1 = omega arith in rw (e, here) refl

stream_chunks_isn :
    (p : Participant) (isn : ℕ) (records : List Record)
    → p.isn ≡ some isn
    → stream_chunks p records ≡ ok (close_chunks (assemble_all records (assembly p)))
unfolding stream_chunks is_stream_oriented
stream_chunks_isn p isn records e = rw e refl

-- From a stream with a declared `isn` whose records carry data from `isn + 1` on without a hole, in
-- the order of their offsets and each less than 2^31 past the last, `reassembled` returns the data up to
-- where the records reach: a byte that several records carry is returned once, and no length of the
-- stream disturbs it.
pub reassembled-Sent :
    (p : Participant) (isn : ℕ) (records : List Record) (data' : Bytes) (sent : ℕ)
    → p.isn ≡ some isn
    → Sent (isn + 1) data' 0 0 records sent
    → reassembled p records ≡ ok (take sent data')
unfolding reassembled
reassembled-Sent p isn records data' sent e c =
    let starts : Delivers data' (assembly p) = unfold assembly in (refl, refl, omega arith) in
    let (d, cursor) =
      assemble_all-Delivers c (assembly p) (start_walk_at p isn e) (unfold assembly in refl)
        starts in
    ap (λ o. o >>= λ c. join_segments c.chunks) (stream_chunks_isn p isn records e)
    ∙ (join_flushed data' (assemble_all records (assembly p)) d
        ∙ ap (λ n. ok (take n data')) cursor)
