-- ===== src/Blocks/RoundTrip/Chunks.antt =====
-- `_chunks` of blocks.py and the options that it splits a list over.
use python_zipline.Base.{
  ℕ, zero, suc, ◌*◌, ◌/◌, ◌%◌, ◌≤◌, ◌<◌, ◌≡◌, refl, ap, ◌∙◌, true, some, List, [], ◌∷◌, ◌++◌, leb,
  ◌==◌, All, length, take, drop, arith, length-drop, take-append-drop,
}
use python_zipline.Blocks.Types.{Bytes, Span, InputExtent}
use python_zipline.Blocks.Values.{
  Value, spans, extents, Codec, span_list, extent_list, decode, pack_span, unpack_span,
  unpack_spans, pack_extent, unpack_extent, unpack_extents, join_packed, chunks, chunks_loop,
}
use python_zipline.Blocks.Options.{spans_of, extents_of}
use python_zipline.Blocks.Options.Fold.{DecodeTo}
use python_zipline.Blocks.Check.{span_fits, extent_fits}
use python_zipline.Frame.{pack, unpack}
use python_zipline.Frame.Words.{unpack-pack}

abbrev pub IsSpan : Span → Type 0
IsSpan s = span_fits s ≡ true

abbrev pub IsExtent : InputExtent → Type 0
IsExtent e = extent_fits e ≡ true

unpack_span-pack_span : (s : Span) (rest : Bytes) → IsSpan s → unpack_span (pack_span s ++ rest) ≡ s
unfolding unpack_span pack_span pack
unpack_span-pack_span s rest h =
    let src : unpack (pack 2 s.source_id) ≡ s.source_id =
      unpack-pack 2 s.source_id (unfold span_fits in ground (arith, h)) in
    let pid : unpack (pack 2 s.participant_id) ≡ s.participant_id =
      unpack-pack 2 s.participant_id (unfold span_fits in ground (arith, h)) in
    let sid : unpack (pack 8 s.session_id) ≡ s.session_id =
      unpack-pack 8 s.session_id (unfold span_fits in ground (arith, h)) in
    let from : unpack (pack 8 s.off_start) ≡ s.off_start =
      unpack-pack 8 s.off_start (unfold span_fits in ground (arith, h)) in
    let upto : unpack (pack 8 s.off_end) ≡ s.off_end =
      unpack-pack 8 s.off_end (unfold span_fits in ground (arith, h)) in
    simp (src, pid, sid, from, upto) refl

unpack_extent-pack_extent :
    (e : InputExtent) (rest : Bytes) → IsExtent e → unpack_extent (pack_extent e ++ rest) ≡ e
unfolding unpack_extent pack_extent pack
unpack_extent-pack_extent e rest h =
    let src : unpack (pack 2 e.source_id) ≡ e.source_id =
      unpack-pack 2 e.source_id (unfold extent_fits in ground (arith, h)) in
    let pid : unpack (pack 2 e.participant_id) ≡ e.participant_id =
      unpack-pack 2 e.participant_id (unfold extent_fits in ground (arith, h)) in
    let sid : unpack (pack 8 e.session_id) ≡ e.session_id =
      unpack-pack 8 e.session_id (unfold extent_fits in ground (arith, h)) in
    let ext : unpack (pack 8 e.extent) ≡ e.extent =
      unpack-pack 8 e.extent (unfold extent_fits in ground (arith, h)) in
    simp (src, pid, sid, ext) refl

drop-pack_span : (s : Span) (rest : Bytes) → drop 28 (pack_span s ++ rest) ≡ rest
unfolding pack_span pack
drop-pack_span s rest = refl

drop-pack_extent : (e : InputExtent) (rest : Bytes) → drop 20 (pack_extent e ++ rest) ≡ rest
unfolding pack_extent pack
drop-pack_extent e rest = refl

length-spans : (es : List Span) → length (join_packed pack_span es) ≡ 28 * length es
unfolding join_packed pack_span pack
length-spans [] = omega arith
length-spans (e ∷ es) = omega (arith, length-spans es)

length-extents : (es : List InputExtent) → length (join_packed pack_extent es) ≡ 20 * length es
unfolding join_packed pack_extent pack
length-extents [] = omega arith
length-extents (e ∷ es) = omega (arith, length-extents es)

unpack_spans-join :
    (es : List Span) → All IsSpan es → unpack_spans (length es) (join_packed pack_span es) ≡ some es
unfolding unpack_spans join_packed
unpack_spans-join [] h = refl
unpack_spans-join (e ∷ es) h =
    let onward : leb e.off_start e.off_end ≡ true = unfold span_fits in ground (arith, h.0) in
    rw
      (
        unpack_span-pack_span e (join_packed pack_span es) h.0,
        drop-pack_span e (join_packed pack_span es),
        unpack_spans-join es h.1,
        onward,
      )
      refl

unpack_extents-join :
    (es : List InputExtent)
    → All IsExtent es
    → unpack_extents (length es) (join_packed pack_extent es) ≡ es
unfolding unpack_extents join_packed
unpack_extents-join [] h = refl
unpack_extents-join (e ∷ es) h =
    rw
      (
        unpack_extent-pack_extent e (join_packed pack_extent es) h.0,
        drop-pack_extent e (join_packed pack_extent es),
        unpack_extents-join es h.1,
      )
      refl

decode-spans :
    (es : List Span) → All IsSpan es → decode span_list (join_packed pack_span es) ≡ some (spans es)
unfolding decode
decode-spans es h =
    let size = length-spans es in
    let even : (length (join_packed pack_span es) % 28 == 0) ≡ true = ground (arith, size) in
    let count : length (join_packed pack_span es) / 28 ≡ length es = omega (arith, size) in
    rw (even, count, unpack_spans-join es h) refl

decode-extents :
    (es : List InputExtent)
    → All IsExtent es
    → decode extent_list (join_packed pack_extent es) ≡ some (extents es)
unfolding decode
decode-extents es h =
    let size = length-extents es in
    let even : (length (join_packed pack_extent es) % 20 == 0) ≡ true = ground (arith, size) in
    let count : length (join_packed pack_extent es) / 20 ≡ length es = omega (arith, size) in
    rw (even, count, unpack_extents-join es h) refl

All-take : {A : Type 0} (P : A → Type 0) (n : ℕ) (xs : List A) → All P xs → All P (take n xs)
All-take P zero xs h = tt
All-take P (suc n) [] h = tt
All-take P (suc n) (x ∷ xs) h = (h.0, All-take P n xs h.1)

All-drop : {A : Type 0} (P : A → Type 0) (n : ℕ) (xs : List A) → All P xs → All P (drop n xs)
All-drop P zero xs h = h
All-drop P (suc n) [] h = tt
All-drop P (suc n) (x ∷ xs) h = All-drop P n xs h.1

-- The values that the options of a list of entries are decoded to.
abbrev pub groups : {A : Type 0} → (List A → Value) → ℕ → ℕ → List A → List Value
groups value zero per es = []
groups value (suc fuel) per [] = []
groups value (suc fuel) per (e ∷ es) =
    value (take per (e ∷ es)) ∷ groups value fuel per (drop per (e ∷ es))

-- Entries of any kind, given how one option's worth of them is decoded.
module _ {A : Type 0} (P : A → Type 0) (pack_entry : A → Bytes) (codec : Codec)
    (value : List A → Value) (collect : List Value → List A)
    (decodes : (es : List A)
      → All P es
      → decode codec (join_packed pack_entry es) ≡ some (value es))
    (collects : (es : List A) (vs : List Value) → collect (value es ∷ vs) ≡ es ++ collect vs)
    (collect_nil : collect [] ≡ []) where
  groups-DecodeTo :
      (fuel per : ℕ) (es : List A)
      → All P es
      → DecodeTo codec (chunks_loop fuel pack_entry per es) (groups value fuel per es)
  unfolding chunks_loop
  groups-DecodeTo zero per es h = tt
  groups-DecodeTo (suc fuel) per [] h = tt
  groups-DecodeTo (suc fuel) per (e ∷ es) h = (
    decodes (take per (e ∷ es)) (All-take P per (e ∷ es) h),
    groups-DecodeTo fuel per (drop per (e ∷ es)) (All-drop P per (e ∷ es) h),
  )

  collect-groups :
      (fuel per : ℕ) (es : List A)
      → 0 < per
      → length es ≤ fuel
      → collect (groups value fuel per es) ≡ es
  collect-groups zero per [] k h = collect_nil
  collect-groups zero per (e ∷ es) k h = absurd (omega arith)
  collect-groups (suc fuel) per [] k h = collect_nil
  collect-groups (suc fuel) per (e ∷ es) k h =
      collects (take per (e ∷ es)) (groups value fuel per (drop per (e ∷ es)))
      ∙ ap (λ t. take per (e ∷ es) ++ t)
          (collect-groups fuel per (drop per (e ∷ es)) k (omega (arith, length-drop per (e ∷ es))))
      ∙ take-append-drop per (e ∷ es)

abbrev pub span_groups : ℕ → List Span → List Value
span_groups per es = groups spans (length es) per es

abbrev pub extent_groups : ℕ → List InputExtent → List Value
extent_groups per es = groups extents (length es) per es

pub chunks-span_groups :
    (per : ℕ) (es : List Span)
    → All IsSpan es
    → DecodeTo span_list (chunks pack_span per es) (span_groups per es)
unfolding chunks
chunks-span_groups per es h =
    groups-DecodeTo IsSpan pack_span span_list spans spans_of decode-spans (λ es vs. refl) refl
      (length es) per es h

pub chunks-extent_groups :
    (per : ℕ) (es : List InputExtent)
    → All IsExtent es
    → DecodeTo extent_list (chunks pack_extent per es) (extent_groups per es)
unfolding chunks
chunks-extent_groups per es h =
    groups-DecodeTo IsExtent pack_extent extent_list extents extents_of decode-extents
      (λ es vs. refl) refl (length es) per es h

pub spans_of-span_groups : (per : ℕ) (es : List Span) → 0 < per → spans_of (span_groups per es) ≡ es
spans_of-span_groups per es k =
    collect-groups IsSpan pack_span span_list spans spans_of decode-spans (λ es vs. refl) refl
      (length es) per es k (omega arith)

pub extents_of-extent_groups :
    (per : ℕ) (es : List InputExtent) → 0 < per → extents_of (extent_groups per es) ≡ es
extents_of-extent_groups per es k =
    collect-groups IsExtent pack_extent extent_list extents extents_of decode-extents
      (λ es vs. refl) refl (length es) per es k (omega arith)
