-- ===== src/Conformance/State.antt =====
-- conformance.py: the state of the checker. A text that only a message shows is not kept, and where
-- the source keeps such a text or None, the state keeps whether there is one.
use python_zipline.Base.{ℕ, Bool, false, Option, none, List, []}
use python_zipline.Base.Dict.{Eq, nat_eq, pair_eq, Dict}
use python_zipline.Blocks.Types.{Bytes, FileHeader}
use python_zipline.Intervals.Spec.{Interval}

-- The values of the enums SourceKind, OutputLayer and Adjacency.
abbrev pub capture : ℕ
capture = 0

abbrev pub zpf_input : ℕ
zpf_input = 1

abbrev pub decoded : ℕ
decoded = 0

abbrev pub transport : ℕ
transport = 1

abbrev pub contiguous : ℕ
contiguous = 0

abbrev pub units : ℕ
units = 1

-- An input stream: source, session and participant.
abbrev pub StreamKey : Type 0
StreamKey = ℕ × (ℕ × ℕ)

instance abbrev pub key_eq : Eq StreamKey
key_eq = pair_eq ⦃e = nat_eq⦄ ⦃f = pair_eq ⦃e = nat_eq⦄ ⦃f = nat_eq⦄⦄

-- _BreakCandidate
pub record BreakCandidate : Type 0 where
  pub stream : StreamKey
  pub gap : Interval

-- _ParticipantState
pub record ParticipantState : Type 0 where
  pub adjacency : ℕ
  pub adjacency_reported : Bool
  pub isn : Option ℕ
  pub provenances : List ℕ
  pub layers : List ℕ
  pub has_discontinuity : Bool
  pub anchor_seq : Option ℕ
  pub placed_any : Bool
  pub last_seq : Option ℕ
  pub prev_reach : Dict StreamKey ℕ
  pub broke_since : Bool
  pub candidates : List BreakCandidate
  pub prev_payload : Option Bytes
  pub seq_anchored : Bool
  pub first_copy : Bool

-- _SessionState
abbrev pub SessionState : Type 0
SessionState = Dict ℕ ParticipantState

-- _StreamLedger
pub record StreamLedger : Type 0 where
  pub spans : List Interval
  pub undecoded : List Interval
  pub declared : Dict ℕ ℕ

pub record CoverageLedger : Type 0 where
  pub streams : Dict StreamKey StreamLedger
  pub sources : Dict ℕ ℕ

-- The findings that a lenient reader reads past.
pub data Advice : Type 0 where
  content_type_advice handshake_advice label_advice adjacency_advice : Advice

-- The notes on a record that the offset space cannot place.
pub data Unplaceable : Type 0 where
  without_seq_start below_predecessor below_origin : Unplaceable

-- ConformanceChecker
pub record Checker : Type 0 where
  pub header : Option FileHeader
  pub sources : Dict ℕ ℕ
  pub decoders : Dict ℕ ℕ
  pub live : Dict ℕ SessionState
  pub ended : List ℕ
  pub holes : Dict StreamKey (List Interval)
  pub removed : Dict StreamKey (List Interval)
  pub breaks : List BreakCandidate
  pub transform_digest : Bool
  pub saw_zpf_sourced : Bool
  pub file_ended : Bool
  pub advisory : List Advice
  pub unplaceable : List Unplaceable
  pub coverage : CoverageLedger

abbrev pub checker : Checker
checker = record {
  header = none;
  sources = [];
  decoders = [];
  live = [];
  ended = [];
  holes = [];
  removed = [];
  breaks = [];
  transform_digest = false;
  saw_zpf_sourced = false;
  file_ended = false;
  advisory = [];
  unplaceable = [];
  coverage = record { streams = []; sources = [] };
}
