-- ===== src/Conformance/Coverage/Accounted.antt =====
-- What the findings of the coverage ledger of conformance.py decide.
use python_zipline.Base.{
  ℕ, suc, ◌+◌, ◌≤◌, ◌<◌, ◌≡◌, ◌≢◌, ◌↔◌, ◌⊎◌, refl, ◌∙◌, Bool, true, false, not, ◌&&◌, ◌||◌, List,
  [], ◌∷◌, ◌++◌, ltb, length, All, arith, Bool-cases, inl, inr,
}
use python_zipline.Base.Dict.{nat_eq, include, Dict}
use python_zipline.Intervals.Spec.{Interval, covers, CoalescedFrom, SortedFrom}
use python_zipline.Intervals.Add.{covers-coalesce}
use python_zipline.Intervals.Gaps.{covers-complement, complement_bare}
use python_zipline.Intervals.{complement}
use python_zipline.Conformance.State.{StreamKey, StreamLedger, CoverageLedger}
use python_zipline.Conformance.Coverage.{
  covered, reach_of, distinct, gap_findings, gaps_of, extent_finding, findings_with,
  stream_findings, key_leb, insert_key, sort_keys, findings_from, findings,
}

CoalescedFrom-SortedFrom : (lo : ℕ) (xs : List Interval) → CoalescedFrom lo xs → SortedFrom lo xs
CoalescedFrom-SortedFrom lo [] c = tt
CoalescedFrom-SortedFrom lo ((a, b) ∷ xs) c =
    (c.0, SortedFrom_le (suc b) a xs (omega arith) (CoalescedFrom-SortedFrom (suc b) xs c.2))
  where
    SortedFrom_le :
        (lo lo' : ℕ) (xs : List Interval) → lo' ≤ lo → SortedFrom lo xs → SortedFrom lo' xs
    SortedFrom_le lo lo' [] h c = tt
    SortedFrom_le lo lo' ((a, b) ∷ xs) h c = (omega arith, c.1)

-- The reach is the least bound of the covered offsets of a coalesced list.
pub reach_bound : (xs : List Interval) (o : ℕ) → covers xs o ≡ true → o < reach_of xs
unfolding covers reach_of
reach_bound [] o h = absurd (ground arith)
reach_bound ((a, b) ∷ xs) o h = ground (arith, reach_bound xs o)

-- Every offset below the reach is covered by a span or by an Undecoded block, where there are spans;
-- and what is declared is one extent, the reach or one past it.
abbrev pub Accounted : StreamLedger → Type 0
Accounted s =
    (0 < length s.spans
      → (o : ℕ) → o < reach_of (covered s)
      → (covers s.spans o || covers s.undecoded o) ≡ true)
    × ((extent : ℕ) × (reach_of (covered s) ≤ extent)
        × (extent ≤ reach_of (covered s) + 1)
        × All (λ d. d.1 ≡ extent) s.declared)

covers-append : (xs ys : List Interval) (o : ℕ) → covers (xs ++ ys) o ≡ (covers xs o || covers ys o)
unfolding covers
covers-append [] ys o = refl
covers-append ((a, b) ∷ xs) ys o = ground (arith, covers-append xs ys o)

pub covers-covered :
    (s : StreamLedger) (o : ℕ) → covers (covered s) o ≡ (covers s.spans o || covers s.undecoded o)
unfolding covered
covers-covered s o =
    (covers-coalesce (s.spans ++ s.undecoded)).1 o ∙ covers-append s.spans s.undecoded o

covers-gaps :
    (s : StreamLedger) (o : ℕ)
    → covers (complement (covered s) (reach_of (covered s))) o
      ≡ (ltb o (reach_of (covered s)) && not (covers s.spans o || covers s.undecoded o))
unfolding covered
covers-gaps s o =
    let c = CoalescedFrom-SortedFrom 0 (covered s) (covers-coalesce (s.spans ++ s.undecoded)).0 in
    ground (arith, covers-complement (covered s) (reach_of (covered s)) o c, covers-covered s o)

not-false : (p q : Bool) → (p && not q) ≡ false → p ≡ true → q ≡ true
not-false p q h k = ground arith

GapFree : StreamLedger → Type 0
GapFree s =
    0 < length s.spans
    → (o : ℕ) → o < reach_of (covered s)
    → (covers s.spans o || covers s.undecoded o) ≡ true

covers_nothing : (o : ℕ) → covers [] o ≡ false
unfolding covers
covers_nothing o = refl

gaps_of-GapFree : (s : StreamLedger) → (gaps_of s ≡ []) ↔ GapFree s
unfolding gaps_of GapFree
gaps_of-GapFree s = elim (Bool-cases (ltb 0 (length s.spans))) [
  | inr bare ↦ rw bare (λ _ p. absurd (ground (arith, p)), λ _. refl)
  | inl spanned ↦ rw spanned (
    λ e _ o below.
        let none' : covers (complement (covered s) (reach_of (covered s))) o ≡ false =
          rw e (covers_nothing o) in
        ground (arith, covers-gaps s o, none'),
    λ h. complement_bare (covered s) (reach_of (covered s)) (λ o.
        elim (Bool-cases (ltb o (reach_of (covered s)))) [
          | inr past ↦ ground (arith, covers-gaps s o)
          | inl below ↦ ground (arith, covers-gaps s o, h (ground arith) o (ground arith))
        ]),
  )
]

include_cons : (x : ℕ) (v : List ℕ) → include x v ≢ []
include_cons x [] h = cc
include_cons x (y ∷ v) h = ground arith

include_one : (x e : ℕ) (v : List ℕ) → include x v ≡ e ∷ [] → (x ≡ e) × ((v ≡ []) ⊎ (v ≡ e ∷ []))
include_one x e [] h = (ground arith, inl refl)
include_one x e (y ∷ []) h = ground arith
include_one x e (y ∷ z ∷ v) h = absurd (ground arith)

-- The distinct extents of a table.
distinct-none : (d : Dict ℕ ℕ) → distinct d ≡ [] → d ≡ []
unfolding distinct
distinct-none [] h = refl
distinct-none ((sid, x) ∷ d) h = absurd (include_cons x (distinct d) h)

distinct-one : (d : Dict ℕ ℕ) (e : ℕ) → distinct d ≡ e ∷ [] → All (λ x. x.1 ≡ e) d
unfolding distinct
distinct-one [] e h = tt
distinct-one ((sid, x) ∷ d) e h =
    let (same, before) = include_one x e (distinct d) h in
    (
      same,
      elim before [ inl none' ↦ rw (distinct-none d none') tt | inr one ↦ distinct-one d e one ],
    )

All-distinct :
    (d : Dict ℕ ℕ) (e : ℕ) → All (λ x. x.1 ≡ e) d → (distinct d ≡ []) ⊎ (distinct d ≡ e ∷ [])
unfolding distinct
All-distinct [] e h = inl refl
All-distinct ((sid, x) ∷ d) e h = elim (All-distinct d e h.1) [
  | inl k ↦ inr (ground arith)
  | inr k ↦ inr (ground arith)
]

-- One extent that is declared agrees with what is accounted for.
Reaches : ℕ → ℕ → Type 0
Reaches reach extent = (reach ≤ extent) × (extent ≤ reach + 1)

extent_finding-Reaches :
    (key : StreamKey) (extent reach : ℕ)
    → (extent_finding key extent reach ≡ []) ↔ Reaches reach extent
unfolding extent_finding Reaches
extent_finding-Reaches key extent reach = ground arith

append_bare : {A : Type 0} (xs ys : List A) → ((xs ++ ys) ≡ []) ↔ ((xs ≡ []) × (ys ≡ []))
append_bare [] ys = (λ h. (refl, h), λ h. h.1)
append_bare (x ∷ xs) ys = (λ h. cc, λ h. cc)

gap_findings_bare :
    (key : StreamKey) (gaps : List Interval) → (gap_findings key gaps ≡ []) ↔ (gaps ≡ [])
unfolding gap_findings
gap_findings_bare key [] = (λ _. refl, λ _. refl)
gap_findings_bare key (gap ∷ gaps) = (λ h. cc, λ h. cc)

OneExtent : StreamLedger → Type 0
OneExtent s =
    (extent : ℕ) × Reaches (reach_of (covered s)) extent × All (λ d. d.1 ≡ extent) s.declared

module _ (key : StreamKey) (s : StreamLedger) where
  gaps_bare : (gap_findings key (gaps_of s) ≡ []) ↔ GapFree s
  gaps_bare =
      let (f, g) = gap_findings_bare key (gaps_of s) in
      let (f', g') = gaps_of-GapFree s in (λ h. f' (f h), λ h. g (g' h))

  -- Of no extent, or of one.
  findings_with-bare :
      (values : List ℕ)
      → distinct s.declared ≡ values
      → (findings_with key s values ≡ []) ↔ (GapFree s × OneExtent s)
  unfolding findings_with OneExtent Reaches
  findings_with-bare [] e = (
    λ h. (
      gaps_bare.0 h,
      (reach_of (covered s), (omega arith, omega arith), rw (distinct-none s.declared e) tt),
    ),
    λ h. gaps_bare.1 h.0,
  )
  findings_with-bare (extent ∷ []) e = (
    λ h.
        let both = (append_bare _ _).0 h in
        (
          gaps_bare.0 both.0,
          (
            extent,
            (extent_finding-Reaches key extent (reach_of (covered s))).0 both.1,
            distinct-one s.declared extent e,
          ),
        ),
    λ h. elim (All-distinct s.declared h.1.0 h.1.2) [
      | inl bare ↦ absurd (cc)
      | inr one ↦
          let same : h.1.0 ≡ extent = ground arith in
          (append_bare _ _).1 (
            gaps_bare.1 h.0,
            (extent_finding-Reaches key extent (reach_of (covered s))).1 (rw (← same) h.1.1),
          )
    ],
  )
  findings_with-bare (extent ∷ other ∷ more) e = (
    λ h. cc,
    λ h. elim (All-distinct s.declared h.1.0 h.1.2) [ inl bare ↦ absurd cc | inr one ↦ absurd cc ],
  )

-- A stream has no finding exactly if its offsets are accounted for: where spans cite it, every offset
-- below the reach is in a span or in an Undecoded block; and the extents that are declared for it are
-- one, the reach or one past it.
pub stream_findings-Accounted :
    (key : StreamKey) (s : StreamLedger) → (stream_findings key s ≡ []) ↔ Accounted s
unfolding stream_findings GapFree OneExtent Reaches
stream_findings-Accounted key s =
    let (f, g) = findings_with-bare key s (distinct s.declared) refl in
    (
      λ h. let (gaps, one) = f h in (gaps, (one.0, one.1.0, one.1.1, one.2)),
      λ h. g (h.0, (h.1.0, (h.1.1, h.1.2), h.1.3)),
    )

abbrev Entries : Type 0
Entries = Dict StreamKey StreamLedger

abbrev pub AllAccounted : Entries → Type 0
AllAccounted streams = All (λ entry. Accounted entry.1) streams

findings_from-AllAccounted :
    (streams : Entries) → (findings_from streams ≡ []) ↔ AllAccounted streams
unfolding findings_from
findings_from-AllAccounted [] = (λ _. tt, λ _. refl)
findings_from-AllAccounted ((key, s) ∷ rest) =
    let (f, g) = stream_findings-Accounted key s in
    let (f', g') = findings_from-AllAccounted rest in
    let (split, join) = append_bare (stream_findings key s) (findings_from rest) in
    (λ h. let (now, later) = split h in (f now, f' later), λ h. join (g h.0, g' h.1))

-- The order in which the streams are reported does not matter.
insert_key-AllAccounted :
    (x : StreamKey × StreamLedger) (ys : Entries)
    → AllAccounted (insert_key x ys) ↔ (Accounted x.1 × AllAccounted ys)
unfolding insert_key
insert_key-AllAccounted x [] = (λ h. h, λ h. h)
insert_key-AllAccounted x (y ∷ ys) = elim (Bool-cases (key_leb x.0 y.0)) [
  | inl p ↦ rw p (λ h. h, λ h. h)
  | inr p ↦
      let (f, g) = insert_key-AllAccounted x ys in
      rw p (λ h. let (now, later) = f h.1 in (now, (h.0, later)), λ h. (h.1.0, g (h.0, h.1.1)))
]

sort_keys-AllAccounted :
    (streams : Entries) → AllAccounted (sort_keys streams) ↔ AllAccounted streams
unfolding sort_keys
sort_keys-AllAccounted [] = (λ h. h, λ h. h)
sort_keys-AllAccounted (x ∷ xs) =
    let (f, g) = insert_key-AllAccounted x (sort_keys xs) in
    let (f', g') = sort_keys-AllAccounted xs in
    (λ h. let (now, later) = f h in (now, f' later), λ h. g (h.0, g' h.1))

-- The ledger has no finding exactly if every input stream that it knows is accounted for.
pub findings-AllAccounted : (l : CoverageLedger) → (findings l ≡ []) ↔ AllAccounted l.streams
unfolding findings
findings-AllAccounted l =
    let (f, g) = findings_from-AllAccounted (sort_keys l.streams) in
    let (f', g') = sort_keys-AllAccounted l.streams in (λ h. f' (f h), λ h. g (g' h))
