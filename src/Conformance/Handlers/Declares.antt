-- ===== src/Conformance/Handlers/Declares.antt =====
-- The handlers of conformance.py for the blocks that declare an id, against the registry.
use python_zipline.Base.{
  ℕ, ◌≡◌, refl, sym, ◌∙◌, false, ◌||◌, some, [], ◌==◌, is_some, arith, Bool-cases, Option-cases,
  inl, inr,
}
use python_zipline.Base.Dict.{nat_eq, contains, lookup, has, lookup-insert, has-lookup}
use python_zipline.Base.Outcome.{Outcome}
use python_zipline.Blocks.Types.{
  FileHeader, Source, Decoder, Session, Participant, Block, file_header, source, decoder, session,
  participant,
}
use python_zipline.Conformance.State.{contiguous, units, SessionState, Checker}
use python_zipline.Conformance.Registry.{not_joined, is_open, Registry, Names, declare}
use python_zipline.Conformance.Records.{found}
use python_zipline.Conformance.Handlers.{
  require_live_session, participant_state, on_file_header, on_source, on_decoder, on_session,
  on_participant,
}
use python_zipline.Conformance.Handlers.Frame.{
  Post, standing_of, standing, nothing_changed, Matches, standing-save,
}

-- A handler takes a block that may be named so and declares it, or refuses it and declares nothing.
abbrev pub Steps : Registry → Block → Outcome (Unit {0}) × Checker → Type 0
Steps R b p = Post (λ _ c'. Names R b × Matches (declare b R) c') (Matches R) p

pub on_source-Steps :
    (b : Source) (R : Registry) (c : Checker) → Matches R c → Steps R (source b) (on_source b c)
unfolding on_source standing
on_source-Steps b R c m = elim (Bool-cases (has b.source_id c.sources)) [
  | inl old ↦ rw old m
  | inr new ↦ rw new (
    ground (arith, has-lookup b.source_id c.sources, m.0 b.source_id),
    (
      λ id. ground (arith, lookup-insert id b.source_id b.kind c.sources, m.0 id),
      m.1,
      m.2,
      m.3,
      m.4,
      m.5,
    ),
  )
]

pub on_decoder-Steps :
    (b : Decoder) (R : Registry) (c : Checker) → Matches R c → Steps R (decoder b) (on_decoder b c)
unfolding on_decoder standing
on_decoder-Steps b R c m = elim (Bool-cases (has b.decoder_id c.decoders)) [
  | inl old ↦ rw old m
  | inr new ↦ rw new (
    ground (arith, has-lookup b.decoder_id c.decoders, m.1 b.decoder_id),
    (
      m.0,
      λ id. ground (arith, lookup-insert id b.decoder_id b.output_layer c.decoders, m.1 id),
      m.2,
      m.3,
      m.4,
      m.5,
    ),
  )
]

-- A file header is taken at the start only.
pub on_file_header-Post :
    (b : FileHeader) (R : Registry) (c : Checker)
    → Matches R c
    → Post
        (λ _ c'. (R.started ≡ false) × Matches (declare (file_header b) R) c')
        (Matches R)
        (on_file_header b c)
unfolding on_file_header standing
on_file_header-Post b R c m = elim (Bool-cases (is_some c.header)) [
  | inl old ↦ rw old m
  | inr new ↦ rw new (sym m.4 ∙ new, (m.0, m.1, m.2, m.3, refl, m.5))
]

pub is_open-standing : (sid pid : ℕ) (c : Checker) → is_open (standing sid pid c) ≡ has sid c.live
unfolding standing standing_of
is_open-standing sid pid c = elim (Option-cases (lookup sid c.live)) [
  | inl e ↦ ground (arith, has-lookup sid c.live)
  | inr (s, e) ↦ elim (Option-cases (lookup pid s)) [
    | inl k ↦ ground (arith, has-lookup sid c.live)
    | inr (stream, k) ↦ ground (arith, has-lookup sid c.live)
  ]
]

pub on_session-Steps :
    (b : Session) (R : Registry) (c : Checker) → Matches R c → Steps R (session b) (on_session b c)
unfolding on_session standing standing_of
on_session-Steps b R c m =
    elim (Bool-cases (has b.session_id c.live || contains c.ended b.session_id)) [
      | inl old ↦ rw old m
      | inr new ↦ rw new (
        (
          ground (arith, is_open-standing b.session_id 0 c, m.2 b.session_id 0),
          ground (arith, m.3 b.session_id),
        ),
        (
          m.0,
          m.1,
          λ sid pid. ground (arith, lookup-insert sid b.session_id [] c.live, m.2 sid pid),
          m.3,
          m.4,
          m.5,
        ),
      )
    ]

standing_of_fresh :
    (sid pid : ℕ) (s : SessionState) (c : Checker)
    → lookup sid c.live ≡ some s
    → has pid s ≡ false
    → standing sid pid c ≡ not_joined
unfolding standing standing_of
standing_of_fresh sid pid s c e h = ground (arith, has-lookup pid s)

pub on_participant-Steps :
    (b : Participant) (R : Registry) (c : Checker)
    → Matches R c
    → Steps R (participant b) (on_participant b c)
unfolding on_participant require_live_session found participant_state
on_participant-Steps b R c m = elim (Option-cases (lookup b.session_id c.live)) [
  | inl e ↦ rw e m
  | inr (s, e) ↦ elim (Bool-cases (has b.participant_id s)) [
    | inl old ↦ rw (e, old) m
    | inr new ↦ elim (Bool-cases (b.adjacency == contiguous || b.adjacency == units)) [
      | inr odd ↦ rw (e, new, odd) m
      | inl known ↦
          rw (e, new, known)
            (
              (
                sym (m.2 b.session_id b.participant_id)
                    ∙ standing_of_fresh b.session_id b.participant_id s c e new,
                refl,
              ),
              (
                m.0,
                m.1,
                λ i j. ground (
                  arith,
                  standing-save c c b.session_id b.participant_id (participant_state b) s i j
                      (nothing_changed c) e,
                  m.2 i j,
                ),
                m.3,
                m.4,
                m.5,
              ),
            )
    ]
  ]
]
