-- ===== src/Conformance/Quiet.antt =====
-- conformance.py: every handler raises SemanticError or nothing, so that what `observe` raises besides
-- is the advisory finding of a block that it has taken.
use python_zipline.Base.{
  ℕ, ◌≡◌, refl, Bool, true, false, Option, none, some, List, [], ◌∷◌, ◌==◌, ltb, if◌then◌else◌,
  length, arith,
}
use python_zipline.Base.Dict.{nat_eq, Dict}
use python_zipline.Base.Outcome.{semantic, Outcome, ok, raised, guard}
use python_zipline.Blocks.Types.{
  Block, file_header, source, decoder, session, participant, session_end, record_block, undecoded,
  discontinuity, name_resolution, end, custom, unknown_block, Text, Span, Record, SessionEnd,
  Undecoded, Participant, Discontinuity, NameResolution, FileHeader, Source, Decoder, Session,
}
use python_zipline.Conformance.State.{capture, ParticipantState, SessionState, Checker}
use python_zipline.Conformance.Monad.{Action, and_then, pure, lift, modify, ◌>>◌}
use python_zipline.Conformance.Records.{
  known_kind, check_record_order, check_copy, found, require_source, check_spans, resolve_layer,
}
use python_zipline.Conformance.Undecodeds.{
  canonical_class, check_class, check_reason_class, check_against_capture, decoder_declared,
}
use python_zipline.Conformance.Closing.{
  check_stream, check_participant, close_each, close_participants,
}
use python_zipline.Conformance.Handlers.{
  note_region, require_live_session, require_participant, require_derived_header, on_file_header,
  on_source, on_decoder, on_session, on_participant, on_session_end, close_session_end,
  note_adjacency, check_provenance, classify_record, note_placement, take_record, on_record,
  on_discontinuity, on_undecoded, on_name, on_end,
}
use python_zipline.Conformance.{handle}

module _ {A : Type 0} where
  abbrev pub IsQuiet : Outcome A → Type 0
  IsQuiet (raised fault) = fault ≡ semantic
  IsQuiet (ok a) = Unit {0}

  found-IsQuiet : (o : Option A) → IsQuiet (found o)
  unfolding found
  found-IsQuiet none = refl
  found-IsQuiet (some a) = tt

guard-IsQuiet : (holds : Bool) → IsQuiet (guard holds semantic)
guard-IsQuiet true = tt
guard-IsQuiet false = refl

module _ {A B : Type 0} where
  and_then-IsQuiet :
      (next : A → Action B) (p : Outcome A × Checker)
      → IsQuiet p.0
      → ((a : A) (c : Checker) → IsQuiet (next a c).0)
      → IsQuiet (and_then next p).0
  and_then-IsQuiet next (raised fault, c) h k = h
  and_then-IsQuiet next (ok a, c) h k = k a c

check_stream-IsQuiet : (stream : ParticipantState) → IsQuiet (check_stream stream)
unfolding check_stream
check_stream-IsQuiet stream = ground arith

check_class-IsQuiet : (o p q : Option Text) → IsQuiet (check_class o p q)
unfolding check_class
check_class-IsQuiet none p q = guard-IsQuiet _
check_class-IsQuiet (some t) p q = ground arith

check_against_capture-IsQuiet : (u : Undecoded) → IsQuiet (check_against_capture u)
unfolding check_against_capture
check_against_capture-IsQuiet u = ground arith

check_spans-IsQuiet : (sources : Dict ℕ ℕ) (spans : List Span) → IsQuiet (check_spans sources spans)
unfolding check_spans require_source found
check_spans-IsQuiet sources [] = tt
check_spans-IsQuiet sources (s ∷ rest) = ground (arith, check_spans-IsQuiet sources rest)

check_copy-IsQuiet :
    (r : Record) (decoders : Dict ℕ ℕ) (stream : ParticipantState)
    → IsQuiet (check_copy r decoders stream)
unfolding check_copy
check_copy-IsQuiet r decoders stream = ground arith

resolve_layer-IsQuiet : (o : Option ℕ) (decoders : Dict ℕ ℕ) → IsQuiet (resolve_layer o decoders)
unfolding resolve_layer
resolve_layer-IsQuiet none decoders = tt
resolve_layer-IsQuiet (some id) decoders = found-IsQuiet _

close_each-IsQuiet : (s : SessionState) (c : Checker) → IsQuiet (close_each s c).0
unfolding close_each check_participant
close_each-IsQuiet [] c = tt
close_each-IsQuiet ((pid, stream) ∷ rest) c =
    and_then-IsQuiet _ (check_participant stream c) (check_stream-IsQuiet stream)
      (λ _ c1. close_each-IsQuiet rest c1)

close_participants-IsQuiet : (s : SessionState) (c : Checker) → IsQuiet (close_participants s c).0
unfolding close_participants
close_participants-IsQuiet s c = close_each-IsQuiet _ c

derived-IsQuiet : (c : Checker) → IsQuiet (require_derived_header c).0
unfolding require_derived_header
derived-IsQuiet c = guard-IsQuiet _

live-IsQuiet : (sid : ℕ) (c : Checker) → IsQuiet (require_live_session sid c).0
unfolding require_live_session
live-IsQuiet sid c = found-IsQuiet _

on_file_header-IsQuiet : (b : FileHeader) (c : Checker) → IsQuiet (on_file_header b c).0
unfolding on_file_header
on_file_header-IsQuiet b c = ground arith

on_source-IsQuiet : (b : Source) (c : Checker) → IsQuiet (on_source b c).0
unfolding on_source
on_source-IsQuiet b c = ground arith

on_decoder-IsQuiet : (b : Decoder) (c : Checker) → IsQuiet (on_decoder b c).0
unfolding on_decoder
on_decoder-IsQuiet b c = ground arith

on_session-IsQuiet : (b : Session) (c : Checker) → IsQuiet (on_session b c).0
unfolding on_session
on_session-IsQuiet b c = ground arith

on_participant-IsQuiet : (b : Participant) (c : Checker) → IsQuiet (on_participant b c).0
unfolding on_participant
on_participant-IsQuiet b c =
    and_then-IsQuiet _ (require_live_session b.session_id c) (live-IsQuiet b.session_id c)
      (λ s c1. ground arith)

on_discontinuity-IsQuiet : (b : Discontinuity) (c : Checker) → IsQuiet (on_discontinuity b c).0
unfolding on_discontinuity require_participant found
on_discontinuity-IsQuiet b c =
    and_then-IsQuiet _ (require_live_session b.session_id c) (live-IsQuiet b.session_id c)
      (λ s c1. ground arith)

on_name-IsQuiet : (b : NameResolution) (c : Checker) → IsQuiet (on_name b c).0
unfolding on_name
on_name-IsQuiet b c =
    and_then-IsQuiet _ (require_live_session b.session_id c) (live-IsQuiet b.session_id c)
      (λ s c1. ground arith)

on_session_end-IsQuiet : (b : SessionEnd) (c : Checker) → IsQuiet (on_session_end b c).0
unfolding on_session_end close_session_end
on_session_end-IsQuiet b c =
    and_then-IsQuiet _
      ((if ltb 0 (length b.input_extents) then require_derived_header else pure tt) c)
      (header (ltb 0 (length b.input_extents)))
      (λ _ c1.
        and_then-IsQuiet _ (require_live_session b.session_id c1) (live-IsQuiet b.session_id c1)
          (λ s c2. close_participants-IsQuiet s _))
  where
    header : (owed : Bool) → IsQuiet ((if owed then require_derived_header else pure tt) c).0
    header true = derived-IsQuiet c
    header false = tt

undecoded_rest-IsQuiet :
    (u : Undecoded) (against_capture : Bool) (c : Checker)
    → IsQuiet
        ((if against_capture
            then lift (check_against_capture u)
            else (modify (note_region u) >> require_derived_header))
          c).0
undecoded_rest-IsQuiet u true c = check_against_capture-IsQuiet u
undecoded_rest-IsQuiet u false c = derived-IsQuiet _

on_undecoded-IsQuiet : (u : Undecoded) (c : Checker) → IsQuiet (on_undecoded u c).0
unfolding on_undecoded require_source check_reason_class
on_undecoded-IsQuiet u c =
    and_then-IsQuiet _ (require_source u.source_id c.sources, c) (found-IsQuiet _)
      (λ kind c1.
        and_then-IsQuiet _ (guard (known_kind kind) semantic, c1) (guard-IsQuiet _)
          (λ _ c2.
            and_then-IsQuiet _ (guard (decoder_declared u.decoder_id c.decoders) semantic, c2)
              (guard-IsQuiet _)
              (λ _ c3.
                and_then-IsQuiet _ (check_reason_class u, c3)
                  (check_class-IsQuiet u.reason_class u.reason (canonical_class u.reason))
                  (λ _ c4. undecoded_rest-IsQuiet u (kind == capture) c4))))

note_adjacency-IsQuiet :
    (r : Record) (s : SessionState) (layer : ℕ) (stream : ParticipantState) (c : Checker)
    → IsQuiet (note_adjacency r s layer stream c).0
unfolding note_adjacency
note_adjacency-IsQuiet r s layer stream c = ground arith

check_provenance-IsQuiet :
    (r : Record) (kind : ℕ) (c : Checker) → IsQuiet (check_provenance r kind c).0
unfolding check_provenance require_derived_header
check_provenance-IsQuiet r kind c = ground arith

classify_record-IsQuiet :
    (r : Record) (s : SessionState) (stream : ParticipantState) (c : Checker)
    → IsQuiet (classify_record r s stream c).0
unfolding classify_record require_source
classify_record-IsQuiet r s stream c =
    and_then-IsQuiet _ (require_source r.source_id c.sources, c) (found-IsQuiet _)
      (λ kind c1.
        and_then-IsQuiet _ (guard (known_kind kind) semantic, c1) (guard-IsQuiet _)
          (λ _ c2.
            and_then-IsQuiet _ (resolve_layer r.decoder_id c.decoders, c2)
              (resolve_layer-IsQuiet r.decoder_id c.decoders)
              (λ layer c3.
                and_then-IsQuiet _ (note_adjacency r s layer stream _)
                  (note_adjacency-IsQuiet r s layer stream _)
                  (λ stream' c4.
                    and_then-IsQuiet _ (check_spans c.sources r.spans, c4)
                      (check_spans-IsQuiet c.sources r.spans)
                      (λ _ c5.
                        and_then-IsQuiet _ (check_provenance r kind c5)
                          (check_provenance-IsQuiet r kind c5) (λ _ c6. tt))))))

take_record-IsQuiet :
    (r : Record) (s : SessionState) (stream : ParticipantState) (c : Checker)
    → IsQuiet (take_record r s stream c).0
unfolding take_record check_record_order
take_record-IsQuiet r s stream c =
    and_then-IsQuiet _ (check_record_order r stream, c) (guard-IsQuiet _)
      (λ _ c1.
        and_then-IsQuiet _ (check_copy r c1.decoders stream, c1)
          (check_copy-IsQuiet r c1.decoders stream)
          (λ copy c2.
            and_then-IsQuiet _ (classify_record r s stream c2)
              (classify_record-IsQuiet r s stream c2) (λ stream' c3. tt)))

on_record-IsQuiet : (r : Record) (c : Checker) → IsQuiet (on_record r c).0
unfolding on_record require_participant note_placement
on_record-IsQuiet r c =
    and_then-IsQuiet _ (require_live_session r.session_id c) (live-IsQuiet r.session_id c) (λ s c1.
      and_then-IsQuiet _ (require_participant r.sender_pid s, c1) (found-IsQuiet _)
        (λ stream c2. take_record-IsQuiet r s _ _))

pub handle-IsQuiet : (b : Block) (c : Checker) → IsQuiet (handle b c).0
unfolding handle on_end
handle-IsQuiet (file_header b) c = on_file_header-IsQuiet b c
handle-IsQuiet (source b) c = on_source-IsQuiet b c
handle-IsQuiet (decoder b) c = on_decoder-IsQuiet b c
handle-IsQuiet (session b) c = on_session-IsQuiet b c
handle-IsQuiet (participant b) c = on_participant-IsQuiet b c
handle-IsQuiet (session_end b) c = on_session_end-IsQuiet b c
handle-IsQuiet (record_block b) c = on_record-IsQuiet b c
handle-IsQuiet (undecoded b) c = on_undecoded-IsQuiet b c
handle-IsQuiet (discontinuity b) c = on_discontinuity-IsQuiet b c
handle-IsQuiet (name_resolution b) c = on_name-IsQuiet b c
handle-IsQuiet (end b) c = tt
handle-IsQuiet (custom b) c = tt
handle-IsQuiet (unknown_block t content) c = tt
