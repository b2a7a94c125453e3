-- ===== src/Conformance/Coverage.antt =====
-- The coverage ledger of conformance.py: which ranges of the input streams a file accounts for.
pub mod Accounted
pub mod Cited
use python_zipline.Base.{
  ℕ, ◌+◌, max, Bool, true, false, not, ◌&&◌, Option, none, some, List, [], ◌∷◌, ◌++◌, map, ltb, leb,
  ◌==◌, if◌then◌else◌, length,
}
use python_zipline.Base.Dict.{nat_eq, contains, include, Dict, lookup, insert}
use python_zipline.Blocks.Types.{
  Span, InputExtent, Source, SessionEnd, Record, Undecoded, Block, source, session_end,
  record_block, undecoded,
}
use python_zipline.Intervals.Spec.{Interval}
use python_zipline.Intervals.{add, coalesce, complement}
use python_zipline.Conformance.State.{capture, StreamKey, key_eq, StreamLedger, CoverageLedger}

abbrev pub stream_ledger : StreamLedger
stream_ledger = record { spans = []; undecoded = []; declared = [] }

-- _StreamLedger.covered
unfoldable pub covered : StreamLedger → List Interval
covered s = coalesce (s.spans ++ s.undecoded)

abbrev ledger_or_new : Option StreamLedger → StreamLedger
ledger_or_new none = stream_ledger
ledger_or_new (some s) = s

-- _for
unfoldable pub ledger_for : StreamKey → CoverageLedger → StreamLedger
ledger_for key l = ledger_or_new (lookup key l.streams)

unfoldable pub put_ledger : StreamKey → StreamLedger → CoverageLedger → CoverageLedger
put_ledger key s l = record l { streams = insert key s l.streams }

abbrev pub span_key : Span → StreamKey
span_key s = (s.source_id, (s.session_id, s.participant_id))

unfoldable pub cite : CoverageLedger → Span → CoverageLedger
unfolding ledger_for put_ledger
cite l s =
    if ltb s.off_start s.off_end
    then (let ledger = ledger_for (span_key s) l in
        put_ledger (span_key s) (record ledger { spans = add ledger.spans s.off_start s.off_end })
          l)
    else l

unfoldable pub cite_all : CoverageLedger → List Span → CoverageLedger
unfolding cite
cite_all l [] = l
cite_all l (s ∷ rest) = cite_all (cite l s) rest

abbrev pub is_capture : Option ℕ → Bool
is_capture none = false
is_capture (some kind) = kind == capture

abbrev pub undecoded_key : Undecoded → StreamKey
undecoded_key u = (u.source_id, (u.session_id, u.participant_id))

unfoldable pub mark : CoverageLedger → Undecoded → CoverageLedger
unfolding ledger_for put_ledger
mark l u =
    if ltb u.off_start u.off_end && not (is_capture (lookup u.source_id l.sources))
    then (let ledger = ledger_for (undecoded_key u) l in
        put_ledger (undecoded_key u)
          (record ledger { undecoded = add ledger.undecoded u.off_start u.off_end }) l)
    else l

unfoldable pub declare_all : ℕ → CoverageLedger → List InputExtent → CoverageLedger
unfolding ledger_for put_ledger
declare_all session_id l [] = l
declare_all session_id l (e ∷ rest) =
    let key : StreamKey = (e.source_id, (e.session_id, e.participant_id)) in
    let ledger = ledger_for key l in
    declare_all session_id
      (put_ledger key (record ledger { declared = insert session_id e.extent ledger.declared }) l)
      rest

-- CoverageLedger.observe
unfoldable pub observe_coverage : Block → CoverageLedger → CoverageLedger
unfolding cite_all mark declare_all
observe_coverage (source s) l = record l { sources = insert s.source_id s.kind l.sources }
observe_coverage (record_block r) l = cite_all l r.spans
observe_coverage (undecoded u) l = mark l u
observe_coverage (session_end e) l = declare_all e.session_id l e.input_extents
observe_coverage b l = l

pub data Category : Type 0 where
  extents_disagree coverage_gap extent_exceeds_coverage extent_below_coverage : Category

-- A finding: its stream, its offset and its category, in place of the message.
pub record CoverageFinding : Type 0 where
  pub stream : StreamKey
  pub offset : ℕ
  pub category : Category

-- `max((end for _, end in covered), default=0)`
unfoldable pub reach_of : List Interval → ℕ
reach_of [] = 0
reach_of ((a, b) ∷ rest) = max b (reach_of rest)

-- `set(ledger.declared.values())`
distinct : Dict ℕ ℕ → List ℕ
distinct [] = []
distinct ((session_id, extent) ∷ rest) = include extent (distinct rest)

gap_findings : StreamKey → List Interval → List CoverageFinding
gap_findings key gaps =
    map (λ gap. record { stream = key; offset = gap.0; category = coverage_gap }) gaps

gaps_of : StreamLedger → List Interval
unfolding covered reach_of
gaps_of s = if ltb 0 (length s.spans) then complement (covered s) (reach_of (covered s)) else []

extent_finding : StreamKey → ℕ → ℕ → List CoverageFinding
extent_finding key extent reach =
    if ltb (reach + 1) extent
    then record { stream = key; offset = reach; category = extent_exceeds_coverage } ∷ []
    else if ltb extent reach
    then record { stream = key; offset = extent; category = extent_below_coverage } ∷ []
    else []

-- The findings by the distinct extents that are declared.
findings_with : StreamKey → StreamLedger → List ℕ → List CoverageFinding
unfolding gap_findings gaps_of extent_finding
findings_with key s [] = gap_findings key (gaps_of s)
findings_with key s (extent ∷ []) =
    gap_findings key (gaps_of s) ++ extent_finding key extent (reach_of (covered s))
findings_with key s (extent ∷ other ∷ more) =
    record { stream = key; offset = 0; category = extents_disagree } ∷ []

unfoldable pub stream_findings : StreamKey → StreamLedger → List CoverageFinding
unfolding distinct findings_with
stream_findings key s = findings_with key s (distinct s.declared)

-- The order of Python's tuples.
abbrev key_leb : StreamKey → StreamKey → Bool
key_leb (a, (b, c)) (d, (e, f)) = if a == d then (if b == e then leb c f else ltb b e) else ltb a d

insert_key : StreamKey × StreamLedger → Dict StreamKey StreamLedger → Dict StreamKey StreamLedger
insert_key x [] = x ∷ []
insert_key x (y ∷ ys) = if key_leb x.0 y.0 then x ∷ (y ∷ ys) else y ∷ insert_key x ys

-- `sorted(self._streams)`, with the ledgers of the keys.
sort_keys : Dict StreamKey StreamLedger → Dict StreamKey StreamLedger
unfolding insert_key
sort_keys [] = []
sort_keys (x ∷ xs) = insert_key x (sort_keys xs)

findings_from : Dict StreamKey StreamLedger → List CoverageFinding
findings_from [] = []
findings_from ((key, s) ∷ rest) = stream_findings key s ++ findings_from rest

unfoldable pub findings : CoverageLedger → List CoverageFinding
unfolding sort_keys findings_from
findings l = findings_from (sort_keys l.streams)
