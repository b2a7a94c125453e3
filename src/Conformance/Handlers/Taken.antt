-- ===== src/Conformance/Handlers/Taken.antt =====
-- The handler of conformance.py for a record, against the registry.
use python_zipline.Base.{
  ℕ, ◌<◌, ◌≡◌, refl, sym, ◌∙◌, Bool, true, Option, none, some, List, [], ◌∷◌, ◌++◌, ◌==◌, ltb,
  if◌then◌else◌, length, All, is_some, arith, Bool-cases, Option-cases, inl, inr,
}
use python_zipline.Base.Dict.{nat_eq, Dict, lookup}
use python_zipline.Base.Outcome.{ok, Outcome-cases}
use python_zipline.Blocks.Types.{Span, Record, record_block}
use python_zipline.Conformance.State.{
  zpf_input, adjacency_advice, ParticipantState, SessionState, Checker,
}
use python_zipline.Conformance.Monad.{and_then, pure, ◌>>◌}
use python_zipline.Conformance.Registry.{
  joined, IsSourced, IsSpan, IsDecoder, Registry, Names, declare,
}
use python_zipline.Conformance.Records.{
  content_type_finding, handshake_placement, place_record, place_at, check_placement, follows,
  check_record_order, check_copy, transport_label, found, require_source, known_kind, check_spans,
  resolve_layer, reports_adjacency, track_break_candidates, classified, note_record,
}
use python_zipline.Conformance.Handlers.{
  require_live_session, require_participant, save, header_derived, require_derived_header,
  note_placement, note_adjacency, check_provenance, classify_record, take_record, on_record,
}
use python_zipline.Conformance.Handlers.Frame.{
  Post, Post-and_then, Post-refused, standing_of, standing, Kept, Matches, Matches-Kept,
  standing-save,
}
use python_zipline.Conformance.Handlers.Declares.{Steps}

check_spans-IsSpan :
    (kinds : ℕ → Option ℕ) (sources : Dict ℕ ℕ) (spans : List Span)
    → ((id : ℕ) → lookup id sources ≡ kinds id)
    → check_spans sources spans ≡ ok tt
    → All (IsSpan kinds) spans
unfolding check_spans require_source found
check_spans-IsSpan kinds sources [] m h = tt
check_spans-IsSpan kinds sources (s ∷ rest) m h = elim (Option-cases (lookup s.source_id sources)) [
  | inl e ↦ absurd (ground (arith, e))
  | inr (kind, e) ↦
      (ground (arith, m s.source_id), check_spans-IsSpan kinds sources rest m (ground arith))
]

check_placement-last_seq :
    (r : Record) (stream : ParticipantState)
    → (check_placement r stream).1.last_seq ≡ stream.last_seq
unfolding check_placement place_record place_at
check_placement-last_seq r stream = ground arith

classified-last_seq :
    (r : Record) (source_kind layer : ℕ) (stream : ParticipantState)
    → (classified r source_kind layer stream).last_seq ≡ stream.last_seq
unfolding classified track_break_candidates
classified-last_seq r source_kind layer stream = refl

note_record-last_seq :
    (r : Record) (copy : Bool) (stream : ParticipantState)
    → (note_record r copy stream).last_seq
      ≡ (if is_some r.seq_start then r.seq_start else stream.last_seq)
unfolding note_record
note_record-last_seq r copy stream = refl

resolve_layer-IsDecoder :
    (o : Option ℕ) (R : Registry) (c : Checker) (layer : ℕ)
    → Matches R c
    → resolve_layer o c.decoders ≡ ok layer
    → IsDecoder R.output_layers o
unfolding resolve_layer found
resolve_layer-IsDecoder none R c layer m h = tt
resolve_layer-IsDecoder (some id) R c layer m h = elim (Option-cases (lookup id c.decoders)) [
  | inl e ↦ absurd (ground (arith, e))
  | inr (found_layer, e) ↦ ground (arith, m.1 id)
]

-- The state of the record's own sender, in a session that was open at the start.
module _ (r : Record) (R : Registry) (c0 : Checker) (s : SessionState) (stream : ParticipantState)
    (e : lookup r.session_id c0.live ≡ some s) (h : lookup r.sender_pid s ≡ some stream) where
  known : standing r.session_id r.sender_pid c0 ≡ joined stream.last_seq
  unfolding standing standing_of
  known = ground arith

  save-Kept :
      (c : Checker) (stream' : ParticipantState)
      → Kept c0 c
      → stream'.last_seq ≡ stream.last_seq
      → Kept c0 (save r.session_id r.sender_pid stream' s c)
  unfolding save
  save-Kept c stream' k same = (
    k.0,
    λ i j. ground (arith, standing-save c0 c r.session_id r.sender_pid stream' s i j k e, known),
  )

  -- The sender's last `seq_start` is still what it was.
  abbrev Near : ParticipantState → Checker → Type 0
  Near stream' c = Kept c0 c × (stream'.last_seq ≡ stream.last_seq)

  note_placement-Post :
      (c : Checker) → Kept c0 c → Post Near (Kept c0) (note_placement r s stream c)
  unfolding note_placement standing
  note_placement-Post c k =
      let same = check_placement-last_seq r stream in
      (
        save-Kept (record c { unplaceable = c.unplaceable ++ (check_placement r stream).0 })
            (check_placement r stream).1 (k.0, k.1) same,
        same,
      )

  note_adjacency-Post :
      (layer : ℕ) (stream' : ParticipantState) (c : Checker)
      → Near stream' c
      → Post Near (Kept c0) (note_adjacency r s layer stream' c)
  unfolding note_adjacency standing
  note_adjacency-Post layer stream' c n = elim (Bool-cases (reports_adjacency layer stream')) [
    | inl t ↦ rw t (
      save-Kept (record c { advisory = c.advisory ++ (adjacency_advice ∷ []) })
          (record stream' { adjacency_reported = true }) (n.0.0, n.0.1) n.1,
      n.1,
    )
    | inr f ↦ rw f n
  ]

  check_provenance-Post :
      (kind : ℕ) (c : Checker)
      → Kept c0 c
      → Post
          (λ _ c'. Kept c0 c' × (kind ≡ zpf_input → 0 < length r.spans))
          (Kept c0)
          (check_provenance r kind c)
  unfolding check_provenance require_derived_header standing
  check_provenance-Post kind c k = elim (Bool-cases (kind == zpf_input)) [
    | inr raw ↦ rw raw (k, λ z. absurd (ground arith))
    | inl derived ↦ elim (Bool-cases (ltb 0 (length r.spans))) [
      | inr bare ↦ rw (derived, bare) k
      | inl spanned ↦ elim (Bool-cases (header_derived c.header)) [
        | inr raw ↦ rw (derived, spanned, raw) k
        | inl named ↦ rw (derived, spanned, named) (k, λ _. ground arith)
      ]
    ]
  ]

  -- What the classification of a record has made sure of.
  abbrev Classified : ParticipantState → Checker → Type 0
  Classified stream' c =
      Near stream' c
      × IsSourced r (R.kinds r.source_id)
      × All (IsSpan R.kinds) r.spans
      × IsDecoder R.output_layers r.decoder_id

  classify_record-Post :
      (placed : ParticipantState) (c : Checker)
      → Matches R c0
      → Near placed c
      → Post Classified (Kept c0) (classify_record r s placed c)
  unfolding classify_record require_source found standing
  classify_record-Post placed c m0 n = elim (Option-cases (lookup r.source_id c.sources)) [
    | inl none' ↦ rw none' n.0
    | inr (kind, some') ↦ elim (Bool-cases (known_kind kind)) [
      | inr odd ↦ rw (some', odd) n.0
      | inl even ↦ elim (Outcome-cases (resolve_layer r.decoder_id c.decoders)) [
        | inl (fault, bad) ↦ rw (some', even, bad) n.0
        | inr (layer, good) ↦
            rw (some', even, good)
              (Post-and_then Near Classified (Kept c0) _
                (note_adjacency r s layer placed (noted layer))
                (note_adjacency-Post layer placed (noted layer) ((n.0.0, n.0.1), n.1))
                (λ stream' c1 n1. by_spans kind layer some' even good stream' c1 n1))
      ]
    ]
  ]
    where
      m : Matches R c
      m = Matches-Kept R c0 c m0 n.0

      noted : ℕ → Checker
      noted layer = record c { advisory = c.advisory ++ transport_label r layer }

      by_spans :
          (kind layer : ℕ)
          → lookup r.source_id c.sources ≡ some kind
          → known_kind kind ≡ true
          → resolve_layer r.decoder_id c.decoders ≡ ok layer
          → (stream' : ParticipantState) (c1 : Checker) → Near stream' c1
          → Post Classified (Kept c0) (
              and_then
                (λ _. check_provenance r kind >> pure (classified r kind layer stream'))
                (check_spans c.sources r.spans, c1))
      by_spans kind layer some' even good stream' c1 n1 =
          elim (Outcome-cases (check_spans c.sources r.spans)) [
            | inl (fault, bad) ↦ rw bad n1.0
            | inr (done, spanned) ↦ rw spanned (
                Post-and_then (λ _ c2. Kept c0 c2 × (kind ≡ zpf_input → 0 < length r.spans))
                  Classified (Kept c0) _ (check_provenance r kind c1)
                  (check_provenance-Post kind c1 n1.0)
                  (λ _ c2 k. (
                    (k.0, classified-last_seq r kind layer stream' ∙ n1.1),
                    rw (← m.0 r.source_id, some') (even, k.1),
                    check_spans-IsSpan R.kinds c.sources r.spans m.0 spanned,
                    resolve_layer-IsDecoder r.decoder_id R c layer m good,
                  )))
          ]

  Classified-Steps :
      (copy : Bool) (placed stream' : ParticipantState) (c : Checker)
      → Matches R c0
      → follows r.seq_start stream.last_seq ≡ true
      → Classified stream' c
      → Names R (record_block r)
        × Matches
            (declare (record_block r) R)
            (save r.session_id r.sender_pid (note_record r copy stream') s c)
  unfolding save
  Classified-Steps copy placed stream' c m0 ahead k =
      let m = Matches-Kept R c0 c m0 k.0.0 in
      let stood : R.stands r.session_id r.sender_pid ≡ joined stream.last_seq =
        sym (m0.2 r.session_id r.sender_pid) ∙ known in
      (
        (rw stood ahead, k.1, k.2, k.3),
        (
          m.0,
          m.1,
          λ i j. ground (
            arith,
            standing-save c0 c r.session_id r.sender_pid (note_record r copy stream') s i j k.0.0 e,
            m0.2 i j,
            note_record-last_seq r copy stream',
            k.0.1,
            stood,
          ),
          m.3,
          m.4,
          m.5,
        ),
      )

  take_record-Steps :
      (c1 : Checker) (placed : ParticipantState)
      → Matches R c0
      → Near placed c1
      → Steps R (record_block r) (take_record r s placed c1)
  unfolding take_record check_record_order
  take_record-Steps c1 placed m0 n = elim (Bool-cases (follows r.seq_start placed.last_seq)) [
    | inr back ↦ rw back (Matches-Kept R c0 c1 m0 n.0)
    | inl ahead ↦ elim (Outcome-cases (check_copy r c1.decoders placed)) [
      | inl (fault, bad) ↦ rw (ahead, bad) (Matches-Kept R c0 c1 m0 n.0)
      | inr (copy, good) ↦
          rw (ahead, good)
            (Post-and_then Classified _ (Matches R) _ (classify_record r s placed c1)
              (Post-refused Classified (Kept c0) (Matches R) (classify_record r s placed c1)
                (λ c2 k. Matches-Kept R c0 c2 m0 k) (classify_record-Post placed c1 m0 n))
              (λ stream' c2 k. Classified-Steps copy placed stream' c2 m0 (rw (← n.1) ahead) k))
    ]
  ]

-- A record that is taken keeps the registry's discipline, and one that is refused changes nothing
-- that the registry sees.
pub on_record-Steps :
    (r : Record) (R : Registry) (c : Checker)
    → Matches R c
    → Steps R (record_block r) (on_record r c)
unfolding on_record require_live_session require_participant found standing
on_record-Steps r R c m = elim (Option-cases (lookup r.session_id c.live)) [
  | inl e ↦ rw e m
  | inr (s, e) ↦ elim (Option-cases (lookup r.sender_pid s)) [
    | inl h ↦ rw (e, h) m
    | inr (stream, h) ↦
        rw (e, h)
          (Post-and_then {B = Unit {0}} (Near r R c s stream e h)
            (λ _ c'. Names R (record_block r) × Matches (declare (record_block r) R) c') (Matches R)
            (take_record r s) (note_placement r s stream (noted stream))
            (Post-refused (Near r R c s stream e h) (Kept c) (Matches R)
              (note_placement r s stream (noted stream)) (λ c2 k. Matches-Kept R c c2 m k)
              (note_placement-Post r R c s stream e h (noted stream)
                ((refl, (refl, (refl, (refl, refl)))), λ i j. refl)))
            (λ placed c1 n. take_record-Steps r R c s stream e h c1 placed m n))
  ]
]
  where
    noted : ParticipantState → Checker
    noted stream = record c {
      advisory = c.advisory ++ content_type_finding r ++ handshake_placement r stream;
    }
