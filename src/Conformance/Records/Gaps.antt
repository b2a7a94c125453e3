-- ===== src/Conformance/Records/Gaps.antt =====
-- The gaps that the checker of conformance.py finds between the regions of two records.
use python_zipline.Base.{
  ℕ, ◌≡◌, refl, sym, ap, ◌∙◌, min, max, Bool, true, false, not, ◌&&◌, ◌||◌, Option, none, some,
  List, [], ◌∷◌, ◌++◌, ltb, leb, is_some, arith, Bool-cases, Option-cases, inl, inr,
}
use python_zipline.Base.Dict.{
  nat_eq, Dict, lookup, insert, has, lookup-insert, has-insert, has-lookup,
}
use python_zipline.Blocks.Types.{Span, Record}
use python_zipline.Intervals.Spec.{inside}
use python_zipline.Conformance.State.{StreamKey, key_eq, BreakCandidate}
use python_zipline.Conformance.Coverage.{span_key}
use python_zipline.Conformance.Records.{or_else, reach_and_starts, candidate_if, candidates_of}

-- Does a span cite this stream; does every span that does end at `o` or before; start behind `o`?
abbrev pub cites : StreamKey → List Span → Bool
cites key [] = false
cites key (s ∷ rest) = key_eq.beq (span_key s) key || cites key rest

abbrev pub ends_by : StreamKey → ℕ → List Span → Bool
ends_by key o [] = true
ends_by key o (s ∷ rest) =
    (not (key_eq.beq (span_key s) key) || leb s.off_end o) && ends_by key o rest

abbrev pub starts_past : StreamKey → ℕ → List Span → Bool
starts_past key o [] = true
starts_past key o (s ∷ rest) =
    (not (key_eq.beq (span_key s) key) || ltb o s.off_start) && starts_past key o rest

-- The offset lies between the input regions of the two records.
abbrev pub parts : StreamKey → ℕ → Record → Record → Bool
parts key o r next =
    cites key r.spans
    && (cites key next.spans && (ends_by key o r.spans && starts_past key o next.spans))

-- Is the offset in the gap of some candidate?
abbrev pub in_gap : StreamKey → ℕ → List BreakCandidate → Bool
in_gap key o [] = false
in_gap key o (b ∷ rest) = (key_eq.beq b.stream key && inside b.gap.0 b.gap.1 o) || in_gap key o rest

abbrev up_to : Option ℕ → ℕ → Bool
up_to none o = true
up_to (some end) o = leb end o

abbrev past : Option ℕ → ℕ → Bool
past none o = true
past (some start) o = ltb o start

raised_end :
    (l : Option ℕ) (end o : ℕ)
    → (up_to (some (max (or_else l end) end)) o ≡ (up_to l o && leb end o))
      × (true ≡ (is_some l || true))
raised_end none end o = ground arith
raised_end (some e) end o = ground arith

lowered_start :
    (l : Option ℕ) (start o : ℕ)
    → (past (some (min (or_else l start) start)) o ≡ (past l o && ltb o start))
      × (true ≡ (is_some l || true))
lowered_start none start o = ground arith
lowered_start (some e) start o = ground arith

kept : (b c : Bool) → (b ≡ (b && true)) × (c ≡ (c || false))
kept b c = ground arith

and_group : (a b c : Bool) → (a && b && c) ≡ (a && (b && c))
and_group a b c = ground arith

pub or_group : (a b c : Bool) → (a || b || c) ≡ (a || (b || c))
or_group a b c = ground arith

module _ (key k : StreamKey) (d : Dict StreamKey ℕ) where
  own_value : key_eq.beq k key ≡ true → lookup key d ≡ lookup k d
  own_value own = ap (λ x. lookup x d) (sym ((key_eq.beq_iff k key).0 own))

  one_end :
      (end o : ℕ)
      → (up_to (lookup key (insert k (max (or_else (lookup k d) end) end) d)) o
          ≡ (up_to (lookup key d) o && (not (key_eq.beq k key) || leb end o)))
        × (is_some (lookup key (insert k (max (or_else (lookup k d) end) end) d))
            ≡ (is_some (lookup key d) || key_eq.beq k key))
  one_end end o = elim (Bool-cases (key_eq.beq k key)) [
    | inl own ↦
        rw (lookup-insert key k (max (or_else (lookup k d) end) end) d, own, own_value own)
          (raised_end (lookup k d) end o)
    | inr other ↦
        rw (lookup-insert key k (max (or_else (lookup k d) end) end) d, other)
          (kept (up_to (lookup key d) o) (is_some (lookup key d)))
  ]

  one_start :
      (start o : ℕ)
      → (past (lookup key (insert k (min (or_else (lookup k d) start) start) d)) o
          ≡ (past (lookup key d) o && (not (key_eq.beq k key) || ltb o start)))
        × (is_some (lookup key (insert k (min (or_else (lookup k d) start) start) d))
            ≡ (is_some (lookup key d) || key_eq.beq k key))
  one_start start o = elim (Bool-cases (key_eq.beq k key)) [
    | inl own ↦
        rw (lookup-insert key k (min (or_else (lookup k d) start) start) d, own, own_value own)
          (lowered_start (lookup k d) start o)
    | inr other ↦
        rw (lookup-insert key k (min (or_else (lookup k d) start) start) d, other)
          (kept (past (lookup key d) o) (is_some (lookup key d)))
  ]

abbrev Both : Type 0
Both = Dict StreamKey ℕ × Dict StreamKey ℕ

reach_found :
    (key : StreamKey) (o : ℕ) (spans : List Span) (d : Both)
    → (up_to (lookup key (reach_and_starts spans d).0) o
        ≡ (up_to (lookup key d.0) o && ends_by key o spans))
      × (is_some (lookup key (reach_and_starts spans d).0)
          ≡ (is_some (lookup key d.0) || cites key spans))
unfolding reach_and_starts
reach_found key o [] d = kept _ _
reach_found key o (s ∷ rest) (reach, starts) =
    let (up, known) = reach_found key o rest _ in
    let (end, here) = one_end key (span_key s) reach s.off_end o in
    (
      up
          ∙ (ap (λ b. b && ends_by key o rest) end
              ∙ and_group (up_to (lookup key reach) o)
                  (not (key_eq.beq (span_key s) key) || leb s.off_end o) (ends_by key o rest)),
      known
          ∙ (ap (λ b. b || cites key rest) here
              ∙ or_group (is_some (lookup key reach)) (key_eq.beq (span_key s) key)
                  (cites key rest)),
    )

starts_found :
    (key : StreamKey) (o : ℕ) (spans : List Span) (d : Both)
    → (past (lookup key (reach_and_starts spans d).1) o
        ≡ (past (lookup key d.1) o && starts_past key o spans))
      × (is_some (lookup key (reach_and_starts spans d).1)
          ≡ (is_some (lookup key d.1) || cites key spans))
unfolding reach_and_starts
starts_found key o [] d = kept _ _
starts_found key o (s ∷ rest) (reach, starts) =
    let (down, known) = starts_found key o rest _ in
    let (start, here) = one_start key (span_key s) starts s.off_start o in
    (
      down
          ∙ (ap (λ b. b && starts_past key o rest) start
              ∙ and_group (past (lookup key starts) o)
                  (not (key_eq.beq (span_key s) key) || ltb o s.off_start)
                  (starts_past key o rest)),
      known
          ∙ (ap (λ b. b || cites key rest) here
              ∙ or_group (is_some (lookup key starts)) (key_eq.beq (span_key s) key)
                  (cites key rest)),
    )

other_way : (j k : StreamKey) → key_eq.beq j k ≡ false → key_eq.beq k j ≡ false
other_way j k h = elim (Bool-cases (key_eq.beq k j)) [
  | inr other ↦ other
  | inl own ↦ absurd (let back = (key_eq.beq_iff j k).1 (sym ((key_eq.beq_iff k j).0 own)) in cc)
]

-- Each key stands once.
Unique : Dict StreamKey ℕ → Type 0
Unique [] = Unit {0}
Unique ((k, v) ∷ d) = (has k d ≡ false) × Unique d

Unique-insert : (k : StreamKey) (v : ℕ) (d : Dict StreamKey ℕ) → Unique d → Unique (insert k v d)
unfolding Unique insert has
Unique-insert k v [] u = (refl, tt)
Unique-insert k v ((j, w) ∷ d) u = elim (Bool-cases (key_eq.beq j k)) [
  | inl own ↦ rw own u
  | inr other ↦
      let fresh : has j (insert k v d) ≡ false =
        has-insert j k v d ∙ (ap (λ b. b || has j d) (other_way j k other) ∙ u.0) in
      rw other (fresh, Unique-insert k v d u.1)
]

starts-Unique : (spans : List Span) (d : Both) → Unique d.1 → Unique (reach_and_starts spans d).1
unfolding reach_and_starts
starts-Unique [] d u = u
starts-Unique (s ∷ rest) (reach, starts) u =
    starts-Unique rest _ (Unique-insert (span_key s) _ starts u)

-- The gap that a candidate of one stream has.
abbrev between : Option ℕ → Option ℕ → ℕ → Bool
between end start o = is_some end && (is_some start && (up_to end o && past start o))

pub in_gap-append :
    (key : StreamKey) (o : ℕ) (bs cs : List BreakCandidate)
    → in_gap key o (bs ++ cs) ≡ (in_gap key o bs || in_gap key o cs)
in_gap-append key o [] cs = refl
in_gap-append key o (b ∷ bs) cs =
    ap (λ t. (key_eq.beq b.stream key && inside b.gap.0 b.gap.1 o) || t) (in_gap-append key o bs cs)
    ∙ sym (
        or_group (key_eq.beq b.stream key && inside b.gap.0 b.gap.1 o) (in_gap key o bs)
          (in_gap key o cs))

own_candidate :
    (key : StreamKey) (o begins : ℕ) (ends : Option ℕ)
    → in_gap key o (candidate_if key begins ends) ≡ between ends (some begins) o
unfolding candidate_if
own_candidate key o begins none = refl
own_candidate key o begins (some end) = elim (Bool-cases (ltb end begins)) [
  | inl p ↦ rw (p, (key_eq.beq_iff key key).1 refl) (ground arith)
  | inr p ↦ rw p (ground arith)
]

other_candidate :
    (key k : StreamKey) (o begins : ℕ) (ends : Option ℕ)
    → key_eq.beq k key ≡ false
    → in_gap key o (candidate_if k begins ends) ≡ false
unfolding candidate_if
other_candidate key k o begins none h = refl
other_candidate key k o begins (some end) h = elim (Bool-cases (ltb end begins)) [
  | inl p ↦ rw (p, h) refl
  | inr p ↦ rw p refl
]

pub or_false : (b : Bool) → (b || false) ≡ b
or_false b = ground arith

nothing_between : (end : Option ℕ) (o : ℕ) → between end none o ≡ false
nothing_between none o = refl
nothing_between (some e) o = refl

no_entry : (key : StreamKey) (d : Dict StreamKey ℕ) → has key d ≡ false → lookup key d ≡ none
no_entry key d h = elim (Option-cases (lookup key d)) [
  | inl e ↦ e
  | inr (v, e) ↦ absurd (let known = has-lookup key d in cc)
]

-- The candidates that two dicts give have an offset in their gaps just where the entries do.
in_gap-candidates_of :
    (key : StreamKey) (o : ℕ) (starts prev : Dict StreamKey ℕ)
    → Unique starts
    → in_gap key o (candidates_of starts prev) ≡ between (lookup key prev) (lookup key starts) o
unfolding candidates_of Unique lookup
in_gap-candidates_of key o [] prev u = sym (nothing_between (lookup key prev) o)
in_gap-candidates_of key o ((k, begins) ∷ rest) prev u =
    let later = in_gap-candidates_of key o rest prev u.1 in
    in_gap-append key o (candidate_if k begins (lookup k prev)) (candidates_of rest prev)
    ∙ elim (Bool-cases (key_eq.beq k key)) [
      | inr other ↦ rw (other, other_candidate key k o begins (lookup k prev) other) later
      | inl own ↦
          let same : k ≡ key = (key_eq.beq_iff k key).0 own in
          let gone : lookup key rest ≡ none =
            no_entry key rest (ap (λ x. has x rest) (sym same) ∙ u.0) in
          let nothing : in_gap key o (candidates_of rest prev) ≡ false =
            later
            ∙ (ap (λ x. between (lookup key prev) x o) gone
                ∙ nothing_between (lookup key prev) o) in
          let here : in_gap key o (candidate_if k begins (lookup k prev))
              ≡ between (lookup key prev) (some begins) o =
            ap (λ x. in_gap key o (candidate_if x begins (lookup x prev))) same
            ∙ own_candidate key o begins (lookup key prev) in
          rw (own, nothing) (or_false (in_gap key o (candidate_if k begins (lookup k prev))) ∙ here)
    ]

four_of :
    {a b c d a' b' c' d' : Bool}
    → a ≡ a'
    → b ≡ b'
    → c ≡ c'
    → d ≡ d'
    → (a && (b && (c && d))) ≡ (a' && (b' && (c' && d')))
four_of p q r s = cc

-- The candidates that two neighbouring records give, one with the reach of the other.
pub candidates-parts :
    (key : StreamKey) (o : ℕ) (r next : Record)
    → in_gap key o (
        candidates_of
          (reach_and_starts next.spans ([], [])).1
          (reach_and_starts r.spans ([], [])).0)
      ≡ parts key o r next
unfolding lookup
candidates-parts key o r next =
    let (end, ended) = reach_found key o r.spans ([], []) in
    let (start, started) = starts_found key o next.spans ([], []) in
    in_gap-candidates_of key o (reach_and_starts next.spans ([], [])).1
      (reach_and_starts r.spans ([], [])).0
      (starts-Unique next.spans ([], []) (unfold Unique in tt))
    ∙ four_of ended started end start

pub no_gap_first :
    (key : StreamKey) (o : ℕ) (spans : List Span)
    → in_gap key o (candidates_of (reach_and_starts spans ([], [])).1 []) ≡ false
unfolding lookup
no_gap_first key o spans =
    in_gap-candidates_of key o (reach_and_starts spans ([], [])).1 []
      (starts-Unique spans ([], []) (unfold Unique in tt))
