-- ===== src/Conformance/Registry.antt =====
-- The discipline of declaration and reference that the checker of conformance.py holds a stream to, as
-- a machine of its own: what each block may name, and what it declares.
pub mod Chains
use python_zipline.Base.{
  ℕ, ◌<◌, ◌≡◌, Bool, true, false, ◌&&◌, ◌||◌, Option, none, some, List, [], ◌∷◌, ◌==◌,
  if◌then◌else◌, length, All, is_some,
}
use python_zipline.Blocks.Types.{
  Span, Record, Participant, Block, file_header, source, decoder, session, participant, session_end,
  record_block, undecoded, discontinuity, name_resolution, end,
}
use python_zipline.Conformance.State.{zpf_input, contiguous, units}
use python_zipline.Conformance.Records.{follows, known_kind}

-- Where a participant of a session stands: the session is not open, or it has no such participant,
-- or the participant's last `seq_start`.
pub data Standing : Type 0 where
  not_open not_joined : Standing
  joined : Option ℕ → Standing

pub record Registry : Type 0 where
  pub kinds : ℕ → Option ℕ
  pub output_layers : ℕ → Option ℕ
  pub stands : ℕ → ℕ → Standing
  pub closed : ℕ → Bool
  pub started : Bool
  pub finished : Bool

abbrev pub registry : Registry
registry = record {
  kinds = λ id. none;
  output_layers = λ id. none;
  stands = λ sid pid. not_open;
  closed = λ sid. false;
  started = false;
  finished = false;
}

abbrev pub is_open : Standing → Bool
is_open not_open = false
is_open standing' = true

abbrev pub last_of : Standing → Option ℕ
last_of (joined last) = last
last_of standing' = none

-- What a record of the given layer of reference may be: its sender has joined and its `seq_start`
-- is serially at or past the last one, and whatever it names is declared.
abbrev pub IsPlaced : Record → Standing → Type 0
IsPlaced r (joined last) = follows r.seq_start last ≡ true
IsPlaced r standing' = Path Bool true false

abbrev pub IsSourced : Record → Option ℕ → Type 0
IsSourced r none = Path Bool true false
IsSourced r (some kind) = (known_kind kind ≡ true) × (kind ≡ zpf_input → 0 < length r.spans)

abbrev pub IsSpan : (ℕ → Option ℕ) → Span → Type 0
IsSpan kinds s = kinds s.source_id ≡ some zpf_input

abbrev pub IsDecoder : (ℕ → Option ℕ) → Option ℕ → Type 0
IsDecoder output_layers none = Unit {0}
IsDecoder output_layers (some id) = is_some (output_layers id) ≡ true

abbrev pub IsKnown : Option ℕ → Type 0
IsKnown none = Path Bool true false
IsKnown (some kind) = known_kind kind ≡ true

abbrev pub IsMember : Standing → Type 0
IsMember (joined last) = Unit {0}
IsMember standing' = Path Bool true false

-- What a block may name, beside its place in the file.
abbrev pub Names : Registry → Block → Type 0
Names R (source b) = R.kinds b.source_id ≡ none
Names R (decoder b) = R.output_layers b.decoder_id ≡ none
Names R (session b) = (is_open (R.stands b.session_id 0) ≡ false) × (R.closed b.session_id ≡ false)
Names R (participant b) =
    (R.stands b.session_id b.participant_id ≡ not_joined)
    × ((b.adjacency == contiguous || b.adjacency == units) ≡ true)
Names R (session_end b) = is_open (R.stands b.session_id 0) ≡ true
Names R (record_block r) =
    IsPlaced r (R.stands r.session_id r.sender_pid)
    × IsSourced r (R.kinds r.source_id)
    × All (IsSpan R.kinds) r.spans
    × IsDecoder R.output_layers r.decoder_id
Names R (undecoded u) = IsKnown (R.kinds u.source_id) × IsDecoder R.output_layers u.decoder_id
Names R (discontinuity b) = IsMember (R.stands b.session_id b.participant_id)
Names R (name_resolution b) = IsMember (R.stands b.session_id b.participant_id)
Names R b = Unit {0}

-- A file header is the first block and no other, and nothing follows an End block.
abbrev pub Begins : Bool → Block → Type 0
Begins started (file_header h) = started ≡ false
Begins started b = started ≡ true

abbrev pub Allowed : Registry → Block → Type 0
Allowed R b = (R.finished ≡ false) × Begins R.started b × Names R b

abbrev with_key : {V : Type 0} → ℕ → V → (ℕ → V) → ℕ → V
with_key key value f i = if key == i then value else f i

-- What a block that is taken declares.
abbrev pub declare : Block → Registry → Registry
declare (file_header h) R = record R { started = true }
declare (source b) R = record R { kinds = with_key b.source_id (some b.kind) R.kinds }
declare (decoder b) R = record R {
  output_layers = with_key b.decoder_id (some b.output_layer) R.output_layers;
}
declare (session b) R = record R { stands = with_key b.session_id (λ pid. not_joined) R.stands }
declare (participant b) R = record R {
  stands =
      with_key b.session_id (with_key b.participant_id (joined none) (R.stands b.session_id))
        R.stands;
}
declare (session_end b) R = record R {
  stands = with_key b.session_id (λ pid. not_open) R.stands;
  closed = with_key b.session_id true R.closed;
}
declare (record_block r) R = record R {
  stands =
      with_key r.session_id
        (with_key r.sender_pid
          (joined (
            if is_some r.seq_start
            then r.seq_start
            else last_of (R.stands r.session_id r.sender_pid)))
          (R.stands r.session_id))
        R.stands;
}
declare (end b) R = record R { finished = true }
declare b R = R

-- A stream of blocks that keeps the discipline from a state on.
unfoldable pub Referenced : Registry → List Block → Type 0
Referenced R [] = Unit {0}
Referenced R (b ∷ bs) = Allowed R b × Referenced (declare b R) bs
