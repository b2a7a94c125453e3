-- ===== src/Conformance/Coverage/Cited.antt =====
-- Which offsets the coverage ledger of conformance.py accounts for, read from the blocks themselves.
use mathlib.Core.Path.{subst}
use python_zipline.Base.{
  ℕ, ◌≡◌, refl, ◌∙◌, Bool, false, not, ◌&&◌, ◌||◌, List, [], ◌∷◌, ltb, if◌then◌else◌, arith,
  Bool-cases, inl, inr,
}
use python_zipline.Base.Dict.{nat_eq, Dict, lookup, insert, lookup-insert, beq_refl}
use python_zipline.Blocks.Types.{
  Span, InputExtent, Undecoded, Block, source, session_end, record_block, undecoded, file_header,
  decoder, session, participant, discontinuity, name_resolution, end, custom, unknown_block,
}
use python_zipline.Intervals.Spec.{Interval, inside, covers, IsCoalesced}
use python_zipline.Intervals.Add.{covers-add}
use python_zipline.Intervals.{add}
use python_zipline.Conformance.State.{StreamKey, key_eq, StreamLedger, CoverageLedger}
use python_zipline.Conformance.Coverage.{
  ledger_for, put_ledger, span_key, cite, cite_all, is_capture, undecoded_key, mark, declare_all,
  observe_coverage,
}

ledger_for-put_ledger :
    (j k : StreamKey) (s : StreamLedger) (l : CoverageLedger)
    → ledger_for j (put_ledger k s l) ≡ (if key_eq.beq k j then s else ledger_for j l)
unfolding ledger_for put_ledger
ledger_for-put_ledger j k s l = ground (arith, lookup-insert j k s l.streams)

-- The ranges of one stream, and the offsets that a step adds to them.
abbrev Grows : (ℕ → Bool) → List Interval → List Interval → Type 0
Grows added xs ys = IsCoalesced ys × ((o : ℕ) → covers ys o ≡ (added o || covers xs o))

grown_by_nothing : (xs : List Interval) → IsCoalesced xs → Grows (λ o. false) xs xs
grown_by_nothing xs c = (c, λ o. refl)

abbrev Whole : CoverageLedger → Type 0
Whole l =
    (key : StreamKey)
    → IsCoalesced (ledger_for key l).spans × IsCoalesced (ledger_for key l).undecoded

abbrev in_span : StreamKey → ℕ → Span → Bool
in_span key o s = key_eq.beq (span_key s) key && inside s.off_start s.off_end o

abbrev pub in_spans : StreamKey → ℕ → List Span → Bool
in_spans key o [] = false
in_spans key o (s ∷ rest) = in_span key o s || in_spans key o rest

-- What a step does to the two lists of every stream.
abbrev Accounts :
    (StreamKey → ℕ → Bool) → (StreamKey → ℕ → Bool) → CoverageLedger → CoverageLedger → Type 0
Accounts cited marked l l' =
    (key : StreamKey)
    → Grows (cited key) (ledger_for key l).spans (ledger_for key l').spans
      × Grows (marked key) (ledger_for key l).undecoded (ledger_for key l').undecoded

abbrev nothing : StreamKey → ℕ → Bool
nothing key o = false

abbrev At :
    (ℕ → Bool) → (ℕ → Bool) → StreamKey → CoverageLedger → CoverageLedger → StreamKey → Type 0
At f g k l l' key =
    Grows (λ o. key_eq.beq k key && f o) (ledger_for key l).spans (ledger_for key l').spans
    × Grows (λ o. key_eq.beq k key && g o) (ledger_for key l).undecoded
        (ledger_for key l').undecoded

-- A ledger that is written back changes its own stream only.
put_ledger-At :
    (f g : ℕ → Bool) (k : StreamKey) (s : StreamLedger) (l : CoverageLedger)
    → Whole l
    → Grows f (ledger_for k l).spans s.spans
    → Grows g (ledger_for k l).undecoded s.undecoded
    → (key : StreamKey) → At f g k l (put_ledger k s l) key
put_ledger-At f g k s l w hf hg key = elim (Bool-cases (key_eq.beq k key)) [
  | inl own ↦ subst (At f g k l (put_ledger k s l)) ((key_eq.beq_iff k key).0 own) here
  | inr other ↦
      rw (ledger_for-put_ledger key k s l, other) (((w key).0, λ o. refl), ((w key).1, λ o. refl))
]
  where
    here : At f g k l (put_ledger k s l) k
    here = rw (ledger_for-put_ledger k k s l, beq_refl k) (hf, hg)

-- A step that changes nothing.
same_ledger :
    (f g : ℕ → Bool) (k : StreamKey) (l : CoverageLedger)
    → Whole l
    → ((o : ℕ) → f o ≡ false)
    → ((o : ℕ) → g o ≡ false)
    → (key : StreamKey) → At f g k l l key
same_ledger f g k l w hf hg key =
    (((w key).0, λ o. ground (arith, hf o)), ((w key).1, λ o. ground (arith, hg o)))

inside_empty : (a b o : ℕ) → ltb a b ≡ false → inside a b o ≡ false
inside_empty a b o h = ground arith

cite-At :
    (l : CoverageLedger) (s : Span)
    → Whole l
    → (key : StreamKey)
    → At (λ o. inside s.off_start s.off_end o) (λ o. false) (span_key s) l (cite l s) key
unfolding cite
cite-At l s w key = elim (Bool-cases (ltb s.off_start s.off_end)) [
  | inr empty ↦ rw empty (
      same_ledger _ _ (span_key s) l w (λ o. inside_empty s.off_start s.off_end o empty) (λ o. refl)
        key)
  | inl proper ↦ rw proper (
      put_ledger-At _ _ (span_key s)
        (record ledger { spans = add ledger.spans s.off_start s.off_end }) l w
        (covers-add ledger.spans s.off_start s.off_end (w (span_key s)).0)
        ((w (span_key s)).1, λ o. refl) key)
]
  where
    ledger : StreamLedger
    ledger = ledger_for (span_key s) l

Accounts-Whole : (f g : StreamKey → ℕ → Bool) (l l' : CoverageLedger) → Accounts f g l l' → Whole l'
Accounts-Whole f g l l' a key = ((a key).0.0, (a key).1.0)

cite_all-Accounts :
    (spans : List Span) (l : CoverageLedger)
    → Whole l
    → Accounts (λ key o. in_spans key o spans) nothing l (cite_all l spans)
unfolding cite_all
cite_all-Accounts [] l w key = (((w key).0, λ o. refl), ((w key).1, λ o. refl))
cite_all-Accounts (s ∷ rest) l w key =
    let step = cite-At l s w in
    let w' : Whole (cite l s) = λ key. ((step key).0.0, (step key).1.0) in
    let later = cite_all-Accounts rest (cite l s) w' key in
    (
      (later.0.0, λ o. ground (arith, later.0.1 o, (step key).0.1 o)),
      (later.1.0, λ o. ground (arith, later.1.1 o, (step key).1.1 o)),
    )

-- Does the Undecoded block mark the offset, by the kinds of the sources known to it?
abbrev pub in_undecoded : Dict ℕ ℕ → StreamKey → ℕ → Undecoded → Bool
in_undecoded kinds key o u =
    key_eq.beq (undecoded_key u) key
    && (inside u.off_start u.off_end o && not (is_capture (lookup u.source_id kinds)))

mark-Accounts :
    (u : Undecoded) (l : CoverageLedger)
    → Whole l
    → Accounts nothing (λ key o. in_undecoded l.sources key o u) l (mark l u)
unfolding mark
mark-Accounts u l w key =
    let live = ltb u.off_start u.off_end && not (is_capture (lookup u.source_id l.sources)) in
    elim (Bool-cases live) [
      | inr idle ↦ rw idle (
        ((w key).0, λ o. refl),
        ((w key).1, λ o. ground (arith, inside_empty u.off_start u.off_end o)),
      )
      | inl busy ↦
          let step =
            put_ledger-At (λ o. false) (λ o. inside u.off_start u.off_end o) (undecoded_key u)
              (record ledger { undecoded = add ledger.undecoded u.off_start u.off_end }) l w
              ((w (undecoded_key u)).0, λ o. refl)
              (covers-add ledger.undecoded u.off_start u.off_end (w (undecoded_key u)).1) key in
          rw busy (
            (step.0.0, λ o. ground (arith, step.0.1 o)),
            (step.1.0, λ o. ground (arith, step.1.1 o)),
          )
    ]
  where
    ledger : StreamLedger
    ledger = ledger_for (undecoded_key u) l

declare_all-Accounts :
    (sid : ℕ) (extents : List InputExtent) (l : CoverageLedger)
    → Whole l
    → Accounts nothing nothing l (declare_all sid l extents)
unfolding declare_all
declare_all-Accounts sid [] l w key = (((w key).0, λ o. refl), ((w key).1, λ o. refl))
declare_all-Accounts sid (e ∷ rest) l w key =
    let own : StreamKey = (e.source_id, (e.session_id, e.participant_id)) in
    let ledger = ledger_for own l in
    let s : StreamLedger = record ledger { declared = insert sid e.extent ledger.declared } in
    let step =
      put_ledger-At (λ o. false) (λ o. false) own s l w ((w own).0, λ o. refl)
        ((w own).1, λ o. refl) in
    let w' : Whole (put_ledger own s l) = λ key. ((step key).0.0, (step key).1.0) in
    let later = declare_all-Accounts sid rest (put_ledger own s l) w' key in
    (
      (later.0.0, λ o. ground (arith, later.0.1 o, (step key).0.1 o)),
      (later.1.0, λ o. ground (arith, later.1.1 o, (step key).1.1 o)),
    )

-- The source table does not depend on the streams.
cite_all-sources : (spans : List Span) (l : CoverageLedger) → (cite_all l spans).sources ≡ l.sources
unfolding cite_all cite put_ledger
cite_all-sources [] l = refl
cite_all-sources (s ∷ rest) l = cite_all-sources rest (cite l s) ∙ ground arith

declare_all-sources :
    (sid : ℕ) (extents : List InputExtent) (l : CoverageLedger)
    → (declare_all sid l extents).sources ≡ l.sources
unfolding declare_all put_ledger
declare_all-sources sid [] l = refl
declare_all-sources sid (e ∷ rest) l = declare_all-sources sid rest _

mark-sources : (u : Undecoded) (l : CoverageLedger) → (mark l u).sources ≡ l.sources
unfolding mark put_ledger
mark-sources u l = ground arith

-- The source kinds behind a block.
abbrev pub kinds_after : Block → Dict ℕ ℕ → Dict ℕ ℕ
kinds_after (source b) kinds = insert b.source_id b.kind kinds
kinds_after b kinds = kinds

-- Is the offset of the stream in a span of some record of the blocks?
abbrev pub is_cited : StreamKey → ℕ → List Block → Bool
is_cited key o [] = false
is_cited key o (record_block r ∷ bs) = in_spans key o r.spans || is_cited key o bs
is_cited key o (b ∷ bs) = is_cited key o bs

-- Is it in an Undecoded block against a source that is no capture?
abbrev pub is_marked : Dict ℕ ℕ → StreamKey → ℕ → List Block → Bool
is_marked kinds key o [] = false
is_marked kinds key o (undecoded u ∷ bs) = in_undecoded kinds key o u || is_marked kinds key o bs
is_marked kinds key o (b ∷ bs) = is_marked (kinds_after b kinds) key o bs

unfoldable pub observe_all : List Block → CoverageLedger → CoverageLedger
unfolding observe_coverage
observe_all [] l = l
observe_all (b ∷ bs) l = observe_all bs (observe_coverage b l)

compose :
    (f g f' g' : StreamKey → ℕ → Bool) (l l1 l2 : CoverageLedger)
    → Accounts f g l l1
    → Accounts f' g' l1 l2
    → Accounts (λ key o. f key o || f' key o) (λ key o. g key o || g' key o) l l2
compose f g f' g' l l1 l2 a b key = (
  ((b key).0.0, λ o. ground (arith, (b key).0.1 o, (a key).0.1 o)),
  ((b key).1.0, λ o. ground (arith, (b key).1.1 o, (a key).1.1 o)),
)

by_kinds :
    (bs : List Block) (l l' : CoverageLedger) (kinds : Dict ℕ ℕ)
    → l.sources ≡ kinds
    → Accounts (λ key o. is_cited key o bs) (λ key o. is_marked l.sources key o bs) l l'
    → Accounts (λ key o. is_cited key o bs) (λ key o. is_marked kinds key o bs) l l'
by_kinds bs l l' kinds e a =
    subst (λ k. Accounts (λ key o. is_cited key o bs) (λ key o. is_marked k key o bs) l l') e a

-- After a stream of blocks the two lists of every input stream are coalesced, and they cover exactly
-- the offsets that were covered before and those that a record's span or an Undecoded block names.
observe_all-Accounts :
    (bs : List Block) (l : CoverageLedger)
    → Whole l
    → Accounts
        (λ key o. is_cited key o bs)
        (λ key o. is_marked l.sources key o bs)
        l
        (observe_all bs l)
unfolding observe_all observe_coverage ledger_for
observe_all-Accounts [] l w = λ key. (((w key).0, λ o. refl), ((w key).1, λ o. refl))
observe_all-Accounts (record_block r ∷ bs) l w =
    let step = cite_all-Accounts r.spans l w in
    let l1 = cite_all l r.spans in
    let later =
      observe_all-Accounts bs l1
        (Accounts-Whole (λ key o. in_spans key o r.spans) nothing l l1 step) in
    compose (λ key o. in_spans key o r.spans) nothing (λ key o. is_cited key o bs)
      (λ key o. is_marked l.sources key o bs) l l1 (observe_all bs l1) step
      (by_kinds bs l1 (observe_all bs l1) l.sources (cite_all-sources r.spans l) later)
observe_all-Accounts (undecoded u ∷ bs) l w =
    let step = mark-Accounts u l w in
    let later =
      observe_all-Accounts bs (mark l u)
        (Accounts-Whole nothing (λ key o. in_undecoded l.sources key o u) l (mark l u) step) in
    compose nothing (λ key o. in_undecoded l.sources key o u) (λ key o. is_cited key o bs)
      (λ key o. is_marked l.sources key o bs) l (mark l u) (observe_all bs (mark l u)) step
      (by_kinds bs (mark l u) (observe_all bs (mark l u)) l.sources (mark-sources u l) later)
observe_all-Accounts (session_end e ∷ bs) l w =
    let step = declare_all-Accounts e.session_id e.input_extents l w in
    let l1 = declare_all e.session_id l e.input_extents in
    let later = observe_all-Accounts bs l1 (Accounts-Whole nothing nothing l l1 step) in
    compose nothing nothing (λ key o. is_cited key o bs) (λ key o. is_marked l.sources key o bs) l
      l1 (observe_all bs l1) step
      (by_kinds bs l1 (observe_all bs l1) l.sources
        (declare_all-sources e.session_id e.input_extents l) later)
observe_all-Accounts (source b ∷ bs) l w =
    observe_all-Accounts bs (record l { sources = insert b.source_id b.kind l.sources }) w
observe_all-Accounts (file_header b ∷ bs) l w = observe_all-Accounts bs l w
observe_all-Accounts (decoder b ∷ bs) l w = observe_all-Accounts bs l w
observe_all-Accounts (session b ∷ bs) l w = observe_all-Accounts bs l w
observe_all-Accounts (participant b ∷ bs) l w = observe_all-Accounts bs l w
observe_all-Accounts (discontinuity b ∷ bs) l w = observe_all-Accounts bs l w
observe_all-Accounts (name_resolution b ∷ bs) l w = observe_all-Accounts bs l w
observe_all-Accounts (end b ∷ bs) l w = observe_all-Accounts bs l w
observe_all-Accounts (custom b ∷ bs) l w = observe_all-Accounts bs l w
observe_all-Accounts (unknown_block t content ∷ bs) l w = observe_all-Accounts bs l w

abbrev pub coverage_ledger : CoverageLedger
coverage_ledger = record { streams = []; sources = [] }

-- The ledger of a stream of blocks: for every input stream its two lists are coalesced, and they cover
-- exactly the offsets that a span of a record cites, and those that an Undecoded block marks against
-- a source that is no capture.
pub observe_all-Cited :
    (bs : List Block) (key : StreamKey)
    → let s = ledger_for key (observe_all bs coverage_ledger) in
      (IsCoalesced s.spans × ((o : ℕ) → covers s.spans o ≡ is_cited key o bs))
      × (IsCoalesced s.undecoded × ((o : ℕ) → covers s.undecoded o ≡ is_marked [] key o bs))
unfolding ledger_for lookup covers
observe_all-Cited bs key =
    let a = observe_all-Accounts bs coverage_ledger (λ key. (tt, tt)) key in
    ((a.0.0, λ o. ground (arith, a.0.1 o)), (a.1.0, λ o. ground (arith, a.1.1 o)))
