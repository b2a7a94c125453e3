-- ===== src/Reassembly/Extent.antt =====
-- The extent and the FIN positions of a stream: what StreamView.chunks measures, and what stream_extent
-- and fin_positions of reassembly.py compute.
use mathlib.Core.Path.{subst}
use python_zipline.Base.{
  ℕ, ◌+◌, ◌-◌, ◌%◌, ◌≤◌, ◌<◌, ◌≡◌, refl, sym, ap, ◌∙◌, inl, inr, max, true, ◌||◌, Option, none,
  some, List, [], ◌∷◌, length, ltb, leb, Bool-cases, Option-cases, length-drop, arith, ltb→lt,
  leb→gt, is_some,
}
use python_zipline.Base.Outcome.{ok, zpf_error, ok-injective, guard, >>=-eq-ok, guard-eq-ok}
use python_zipline.Blocks.Types.{Bytes, Record, Participant}
use python_zipline.Order.Serial.{seq_space}
use python_zipline.Order.Walk.{Walk, placer, walk_at}
use python_zipline.Conformance.State.{transport}
use python_zipline.Reassembly.Ranges.Reached.{placed_ranges_reach}
use python_zipline.Reassembly.{
  Assembly, Chunks, trim_overlap, open_hole, extend_run, add_payload, take_placed, start_walk,
  assemble_with, assemble, assemble_all, close_chunks, isn_walk, assembly, is_stream_oriented,
  starts_hinted, stream_chunks,
}
use python_zipline.Reassembly.Ranges.{
  StreamBlock, records_of, transport_origin, origin_or, first_seq, place_offset, placed_ranges,
  ranges_from, record_ranges, greatest_end, stream_extent, fins_below, Reach, note_end, find_reach,
  fins_from, fin_positions,
}

open_hole_keeps :
    (off : ℕ) (s : Assembly)
    → ((open_hole off s).found ≡ s.found) × ((open_hole off s).walk ≡ s.walk)
unfolding open_hole
open_hole_keeps off s = elim (Bool-cases (ltb s.cursor off)) [
  | inl p ↦ rw p (refl, refl)
  | inr p ↦ rw p (refl, refl)
]

add_payload_keeps :
    (r : Record) (x : Bytes × ℕ) (s : Assembly)
    → ((add_payload r x s).found ≡ s.found) × ((add_payload r x s).walk ≡ s.walk)
unfolding add_payload extend_run
add_payload_keeps r (payload, off) s = elim (Bool-cases (ltb 0 (length payload))) [
  | inl p ↦ rw p (open_hole_keeps off s)
  | inr p ↦ rw p (refl, refl)
]

add_payload_below :
    (r : Record) (x : Bytes × ℕ) (s : Assembly) (bound : ℕ)
    → s.cursor ≤ bound
    → (0 < length x.0 → x.1 + length x.0 ≤ bound)
    → (add_payload r x s).cursor ≤ bound
unfolding add_payload extend_run
add_payload_below r (payload, off) s bound h k = elim (Bool-cases (ltb 0 (length payload))) [
  | inl p ↦ rw p (k (ltb→lt 0 (length payload) p))
  | inr p ↦ rw p h
]

-- Trimming takes nothing off the end.
trim_end :
    (payload : Bytes) (off cursor : ℕ)
    → 0 < length (trim_overlap payload off cursor).0
    → (trim_overlap payload off cursor).1 + length (trim_overlap payload off cursor).0
      ≡ off + length payload
unfolding trim_overlap
trim_end payload off cursor = elim (Bool-cases (leb cursor off)) [
  | inl p ↦ rw p (λ n. refl)
  | inr p ↦ rw p (λ n. omega (arith, length-drop (cursor - off) payload, leb→gt cursor off p))
]

pub take_placed_keeps :
    (r : Record) (off : Option ℕ) (s : Assembly)
    → ((take_placed r off s).found ≡ note_end r off s.found) × ((take_placed r off s).walk ≡ s.walk)
unfolding take_placed
take_placed_keeps r none s = (refl, refl)
take_placed_keeps r (some off) s =
    let s' : Assembly = record s { found = note_end r (some off) s.found } in
    elim (Bool-cases (ltb 0 (length r.payload))) [
      | inl p ↦ rw p (add_payload_keeps r (trim_overlap r.payload off s.cursor) s')
      | inr p ↦ rw p (refl, refl)
    ]

take_placed_below :
    (r : Record) (off : Option ℕ) (s : Assembly)
    → s.cursor ≤ s.found.reach
    → (take_placed r off s).cursor ≤ (note_end r off s.found).reach
unfolding take_placed note_end
take_placed_below r none s h = h
take_placed_below r (some off) s h =
    let s' : Assembly = record s { found = note_end r (some off) s.found } in
    let trimmed : Bytes × ℕ = trim_overlap r.payload off s.cursor in
    let bound : ℕ = max s.found.reach (off + length r.payload) in
    let low : s.cursor ≤ bound = omega arith in
    elim (Bool-cases (ltb 0 (length r.payload))) [
      | inl p ↦ rw p (
          add_payload_below r trimmed s' bound low
            (λ n. omega (arith, trim_end r.payload off s.cursor n)))
      | inr p ↦ rw p low
    ]

pub assemble_known :
    (r : Record) (w : Walk) (s : Assembly)
    → s.walk ≡ some w
    → assemble r s
      ≡ take_placed r (place_offset r w).0 (record s { walk = some (place_offset r w).1 })
unfolding assemble start_walk assemble_with
assemble_known r w s e = rw e refl

-- One pass of `chunks` over records behind a known origin finds what fin_positions finds, and never
-- delivers a byte past the reach.
assemble_all_found :
    (rs : List Record) (w : Walk) (s : Assembly)
    → s.walk ≡ some w
    → s.cursor ≤ s.found.reach
    → ((assemble_all rs s).found ≡ find_reach w s.found rs)
      × ((assemble_all rs s).cursor ≤ (assemble_all rs s).found.reach)
unfolding assemble_all find_reach
assemble_all_found [] w s e h = (refl, h)
assemble_all_found (r ∷ rs) w s e h =
    let (off, w') = place_offset r w in
    let s' : Assembly = record s { walk = some w' } in
    let (found, walk) = take_placed_keeps r off s' in
    let below : (take_placed r off s').cursor ≤ (take_placed r off s').found.reach =
      rw found (take_placed_below r off s' h) in
    let (same, reached) = assemble_all_found rs w' (take_placed r off s') walk below in
    subst
      (λ t.
        ((assemble_all rs t).found ≡ find_reach w' (note_end r off s.found) rs)
        × ((assemble_all rs t).cursor ≤ (assemble_all rs t).found.reach))
      (sym (assemble_known r w s e)) (same ∙ ap (λ f. find_reach w' f rs) found, reached)

-- The origin that the view finds is the one that record_ranges uses.
placer_wraps : (o : ℕ) → placer (o % seq_space) ≡ placer o
unfolding placer walk_at
placer_wraps o = let low : o % seq_space % seq_space ≡ o % seq_space = omega arith in rw low refl

anchored :
    (p : Participant) (rs : List Record)
    → is_stream_oriented p rs ≡ true
    → (o : ℕ) × (transport_origin p rs ≡ some o)
      × (assemble_all rs (assembly p)
          ≡ assemble_all rs (record (assembly p) { walk = some (placer o) }))
unfolding is_stream_oriented starts_hinted transport_origin origin_or first_seq assembly isn_walk
    assemble_with
anchored p rs h = by_isn p.isn rs h
  where
    Anchored : Option ℕ → List Record → Type 0
    Anchored isn rs =
        (o : ℕ) × (origin_or isn rs ≡ some o)
        × (assemble_all rs (record (assembly p) { walk = isn_walk isn })
            ≡ assemble_all rs (record (assembly p) { walk = some (placer o) }))

    by_seq : (r : Record) (rs : List Record) → is_some r.seq_start ≡ true → Anchored none (r ∷ rs)
    by_seq r rs h = elim (Option-cases r.seq_start) [
      | inl e ↦ absurd cc
      | inr (n, e) ↦ (n, rw e refl, unfold assemble_all assemble start_walk in (rw e refl))
    ]

    by_isn :
        (isn : Option ℕ) (rs : List Record)
        → (is_some isn || starts_hinted rs) ≡ true
        → Anchored isn rs
    by_isn (some isn) rs h = ((isn + 1) % seq_space, refl, rw (placer_wraps (isn + 1)) refl)
    by_isn none [] h = absurd cc
    by_isn none (r ∷ rs) h = by_seq r rs h

module _ (p : Participant) (blocks : List StreamBlock) (o : ℕ)
    (e : transport_origin p (records_of blocks) ≡ some o) where
  abbrev reached_from : Reach
  reached_from = find_reach (placer o) (record { reach = 0; fins = [] }) (records_of blocks)

  stream_extent-find_reach : stream_extent p blocks transport ≡ ok reached_from.reach
  unfolding stream_extent record_ranges ranges_from
  stream_extent-find_reach =
      let more : ℕ = greatest_end (placed_ranges (placer o) 0 (records_of blocks)) in
      let low : more ≡ max 0 more = omega arith in
      rw e (ap ok (low ∙ placed_ranges_reach (placer o) (records_of blocks) [] 0))

  fin_positions-find_reach :
      fin_positions p blocks transport ≡ fins_below reached_from.reach reached_from.fins
  unfolding fin_positions fins_from
  fin_positions-find_reach = rw e refl

close_chunks_measures :
    (s : Assembly) (z : Reach)
    → s.found ≡ z
    → s.cursor ≤ s.found.reach
    → ((close_chunks s).extent ≡ z.reach) × ((close_chunks s).fins ≡ fins_below z.reach z.fins)
unfolding close_chunks
close_chunks_measures s z e h =
    let low : max s.cursor s.found.reach ≡ s.found.reach = omega arith in
    (
      low ∙ ap (λ t. t.reach) e,
      ap (λ n. fins_below n s.found.fins) low ∙ ap (λ t. fins_below t.reach t.fins) e,
    )

-- The extent and the FIN positions that a complete walk of `chunks` measures on a stream are those that
-- stream_extent and fin_positions compute from the same records, in every layout of breaks among them.
pub stream_chunks_measures :
    (p : Participant) (blocks : List StreamBlock) (c : Chunks)
    → stream_chunks p (records_of blocks) ≡ ok c
    → (stream_extent p blocks transport ≡ ok c.extent) × (fin_positions p blocks transport ≡ c.fins)
unfolding stream_chunks
stream_chunks_measures p blocks c h =
    let (u, g, f) = >>=-eq-ok (guard (is_stream_oriented p (records_of blocks)) zpf_error) _ h in
    let (o, origin, walked) = anchored p (records_of blocks) (guard-eq-ok _ zpf_error g) in
    let s : Assembly = record (assembly p) { walk = some (placer o) } in
    let (found, reached) =
      assemble_all_found (records_of blocks) (placer o) s refl (unfold assembly in (omega arith)) in
    let (extent, fins) =
      close_chunks_measures (assemble_all (records_of blocks) s) _ found reached in
    let ends : close_chunks (assemble_all (records_of blocks) s) ≡ c =
      ap close_chunks (sym walked) ∙ ok-injective f in
    (
      stream_extent-find_reach p blocks o origin ∙ ap ok (sym extent ∙ ap (λ t. t.extent) ends),
      fin_positions-find_reach p blocks o origin ∙ (sym fins ∙ ap (λ t. t.fins) ends),
    )
