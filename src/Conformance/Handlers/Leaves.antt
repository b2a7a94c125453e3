-- ===== src/Conformance/Handlers/Leaves.antt =====
-- The handlers of conformance.py write to the checker's own tables: the coverage ledger is written by
-- `observe` alone.
use python_zipline.Base.{
  ℕ, ◌≡◌, Bool, true, false, [], ◌∷◌, ◌==◌, ltb, if◌then◌else◌, length, arith,
}
use python_zipline.Base.Outcome.{semantic, Outcome, ok, raised, guard}
use python_zipline.Blocks.Types.{
  FileHeader, Source, Decoder, Session, Participant, SessionEnd, Record, Undecoded, Discontinuity,
  NameResolution,
}
use python_zipline.Conformance.State.{
  capture, ParticipantState, SessionState, CoverageLedger, Checker,
}
use python_zipline.Conformance.Monad.{Action, and_then, pure, lift, modify, ◌>>◌}
use python_zipline.Conformance.Records.{
  known_kind, check_record_order, check_copy, require_source, check_spans, resolve_layer,
}
use python_zipline.Conformance.Undecodeds.{
  check_reason_class, check_against_capture, decoder_declared,
}
use python_zipline.Conformance.Closing.{
  close_if, check_stream, check_participant, close_each, close_participants, ended_session,
}
use python_zipline.Conformance.Handlers.{
  note_region, require_live_session, require_participant, require_derived_header, on_file_header,
  on_source, on_decoder, on_session, on_participant, on_session_end, close_session_end,
  note_adjacency, save, check_provenance, classify_record, note_placement, take_record, on_record,
  on_discontinuity, on_undecoded, on_name,
}

module _ (x : CoverageLedger) where
  abbrev pub Leaves : {A : Type 0} → Outcome A × Checker → Type 0
  Leaves p = p.1.coverage ≡ x

  pub and_then-Leaves :
      {A B : Type 0} (next : A → Action B) (p : Outcome A × Checker)
      → Leaves p
      → ((a : A) (c : Checker) → c.coverage ≡ x → Leaves (next a c))
      → Leaves (and_then next p)
  and_then-Leaves next (raised fault, c) h k = h
  and_then-Leaves next (ok a, c) h k = k a c h

  close_if-Leaves :
      (stream : ParticipantState) (o : Outcome (Unit {0})) (c : Checker)
      → c.coverage ≡ x
      → (close_if stream o c).coverage ≡ x
  unfolding close_if
  close_if-Leaves stream (raised fault) c h = h
  close_if-Leaves stream (ok u) c h = h

  close_each-Leaves : (s : SessionState) (c : Checker) → c.coverage ≡ x → Leaves (close_each s c)
  unfolding close_each check_participant
  close_each-Leaves [] c h = h
  close_each-Leaves ((pid, stream) ∷ rest) c h =
      and_then-Leaves (λ _. close_each rest) (check_participant stream c)
        (close_if-Leaves stream (check_stream stream) c h) (λ _ c1 k. close_each-Leaves rest c1 k)

  pub close_participants-Leaves :
      (s : SessionState) (c : Checker) → c.coverage ≡ x → Leaves (close_participants s c)
  unfolding close_participants
  close_participants-Leaves s c h = close_each-Leaves _ c h

  pub on_file_header-Leaves :
      (b : FileHeader) (c : Checker) → c.coverage ≡ x → Leaves (on_file_header b c)
  unfolding on_file_header
  on_file_header-Leaves b c h = ground arith

  pub on_source-Leaves : (b : Source) (c : Checker) → c.coverage ≡ x → Leaves (on_source b c)
  unfolding on_source
  on_source-Leaves b c h = ground arith

  pub on_decoder-Leaves : (b : Decoder) (c : Checker) → c.coverage ≡ x → Leaves (on_decoder b c)
  unfolding on_decoder
  on_decoder-Leaves b c h = ground arith

  pub on_session-Leaves : (b : Session) (c : Checker) → c.coverage ≡ x → Leaves (on_session b c)
  unfolding on_session
  on_session-Leaves b c h = ground arith

  pub on_participant-Leaves :
      (b : Participant) (c : Checker) → c.coverage ≡ x → Leaves (on_participant b c)
  unfolding on_participant require_live_session save
  on_participant-Leaves b c h =
      and_then-Leaves _ (require_live_session b.session_id c) h (λ s c1 k. ground arith)

  pub on_session_end-Leaves :
      (b : SessionEnd) (c : Checker) → c.coverage ≡ x → Leaves (on_session_end b c)
  unfolding on_session_end close_session_end require_live_session require_derived_header
      ended_session
  on_session_end-Leaves b c h =
      and_then-Leaves _
        ((if ltb 0 (length b.input_extents) then require_derived_header else pure tt) c)
        (ground arith)
        (λ _ c1 k.
          and_then-Leaves _ (require_live_session b.session_id c1) k
            (λ s c2 k2. close_participants-Leaves s _ k2))

  note_adjacency-Leaves :
      (r : Record) (s : SessionState) (layer : ℕ) (stream : ParticipantState) (c : Checker)
      → c.coverage ≡ x
      → Leaves (note_adjacency r s layer stream c)
  unfolding note_adjacency save
  note_adjacency-Leaves r s layer stream c h = ground arith

  check_provenance-Leaves :
      (r : Record) (kind : ℕ) (c : Checker) → c.coverage ≡ x → Leaves (check_provenance r kind c)
  unfolding check_provenance require_derived_header
  check_provenance-Leaves r kind c h = ground arith

  classify_record-Leaves :
      (r : Record) (s : SessionState) (stream : ParticipantState) (c : Checker)
      → c.coverage ≡ x
      → Leaves (classify_record r s stream c)
  unfolding classify_record
  classify_record-Leaves r s stream c h =
      and_then-Leaves _ (require_source r.source_id c.sources, c) h
        (λ kind c1 h1.
          and_then-Leaves _ (guard (known_kind kind) semantic, c1) h1
            (λ _ c2 h2.
              and_then-Leaves _ (resolve_layer r.decoder_id c.decoders, c2) h2
                (λ layer c3 h3.
                  and_then-Leaves _ (note_adjacency r s layer stream _)
                    (note_adjacency-Leaves r s layer stream _ h3)
                    (λ stream' c4 h4.
                      and_then-Leaves _ (check_spans c.sources r.spans, c4) h4
                        (λ _ c5 h5.
                          and_then-Leaves _ (check_provenance r kind c5)
                            (check_provenance-Leaves r kind c5 h5) (λ _ c6 h6. h6))))))

  take_record-Leaves :
      (r : Record) (s : SessionState) (stream : ParticipantState) (c : Checker)
      → c.coverage ≡ x
      → Leaves (take_record r s stream c)
  unfolding take_record save
  take_record-Leaves r s stream c h =
      and_then-Leaves _ (check_record_order r stream, c) h
        (λ _ c1 h1.
          and_then-Leaves _ (check_copy r c1.decoders stream, c1) h1
            (λ copy c2 h2.
              and_then-Leaves _ (classify_record r s stream c2)
                (classify_record-Leaves r s stream c2 h2) (λ stream' c3 h3. h3)))

  pub on_record-Leaves : (r : Record) (c : Checker) → c.coverage ≡ x → Leaves (on_record r c)
  unfolding on_record require_live_session note_placement save
  on_record-Leaves r c h = and_then-Leaves _ (require_live_session r.session_id c) h (λ s c1 h1.
      and_then-Leaves _ (require_participant r.sender_pid s, c1) h1
        (λ stream c2 h2. take_record-Leaves r s _ _ h2))

  pub on_discontinuity-Leaves :
      (b : Discontinuity) (c : Checker) → c.coverage ≡ x → Leaves (on_discontinuity b c)
  unfolding on_discontinuity require_live_session save
  on_discontinuity-Leaves b c h =
      and_then-Leaves _ (require_live_session b.session_id c) h (λ s c1 h1.
        and_then-Leaves _ (require_participant b.participant_id s, c1) h1 (λ stream c2 h2. h2))

  pub on_name-Leaves : (b : NameResolution) (c : Checker) → c.coverage ≡ x → Leaves (on_name b c)
  unfolding on_name require_live_session
  on_name-Leaves b c h = and_then-Leaves _ (require_live_session b.session_id c) h (λ s c1 h1. h1)

  undecoded_rest-Leaves :
      (u : Undecoded) (against_capture : Bool) (c : Checker)
      → c.coverage ≡ x
      → Leaves (
          (if against_capture
              then lift (check_against_capture u)
              else (modify (note_region u) >> require_derived_header))
            c)
  unfolding require_derived_header note_region
  undecoded_rest-Leaves u true c h = h
  undecoded_rest-Leaves u false c h = ground arith

  pub on_undecoded-Leaves :
      (u : Undecoded) (c : Checker) → c.coverage ≡ x → Leaves (on_undecoded u c)
  unfolding on_undecoded
  on_undecoded-Leaves u c h =
      and_then-Leaves _ (require_source u.source_id c.sources, c) h
        (λ kind c1 h1.
          and_then-Leaves _ (guard (known_kind kind) semantic, c1) h1
            (λ _ c2 h2.
              and_then-Leaves _ (guard (decoder_declared u.decoder_id c.decoders) semantic, c2) h2
                (λ _ c3 h3.
                  and_then-Leaves _ (check_reason_class u, c3) h3
                    (λ _ c4 h4. undecoded_rest-Leaves u (kind == capture) c4 h4))))
