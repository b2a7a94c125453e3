-- ===== src/Blocks/RoundTrip/Sessions.antt =====
-- The round trips of Session and Participant of blocks.py.
use python_zipline.Base.{
  ℕ, ◌^◌, ◌<◌, ◌≡◌, refl, ap, true, false, none, some, List, [], ◌∷◌, ◌++◌, map, ltb, ◌==◌,
  if◌then◌else◌, All, length, arith, Bool-cases, inl, inr,
}
use python_zipline.Base.Outcome.{ok}
use python_zipline.Blocks.Types.{Text, RawOption, Session, Participant, session, participant}
use python_zipline.Blocks.Values.{Value, text, number, str, u8, u16, u32}
use python_zipline.Blocks.Options.{
  OptSpec, spec, Values, single, many, parse_each, no_values, assign, find_spec, texts_of,
  number_of,
}
use python_zipline.Blocks.Options.Fold.{
  text_values, raw_values, number_values, IsText, HasWidth, Unknown, DecodeTo, fold_text, fold_raw,
  fold_number, fold_repeated, fold_extras,
}
use python_zipline.Blocks.Check.{session_fits, participant_fits}
use python_zipline.Blocks.Encode.{
  encode_block, session_options, nonzero_option, participant_options, participant_body,
}
use python_zipline.Blocks.Dispatch.{block_type_of, parse_block}
use python_zipline.Blocks.Parse.{
  session_table, parse_session, flags_of, participant_table, parse_participant,
}
use python_zipline.Blocks.RoundTrip.{
  parse_options-region_of, fold_then, fields_back, u8-IsUint, u16-IsUint, u32-IsUint,
  fits_opt-HasWidth, encode_with_body, ReadsBack,
}
use python_zipline.Frame.{pack, unpack}
use python_zipline.Frame.Words.{unpack-pack}
use python_zipline.Frame.Options.{IsOption, region_of}

-- The option of the flags: none where they are all clear.
abbrev flags_values : ℕ → List Value
flags_values n = if n == 0 then [] else number n ∷ []

flags_back : (n : ℕ) → flags_of (number_of (flags_values n)) ≡ n
flags_back n = elim (Bool-cases (n == 0)) [
  | inl t ↦ let zero_flags : 0 ≡ n = ground arith in rw t zero_flags
  | inr t ↦ rw t refl
]

fold_flags :
    (table : List OptSpec) (id : ℕ) (f : Values) (extras : List RawOption) (n : ℕ)
    → find_spec id table ≡ some (spec id u16 single)
    → n < 256 ^ 2
    → f id ≡ []
    → parse_each table (nonzero_option id 2 n) (f, extras) ≡ (assign id (flags_values n) f, extras)
fold_flags table id f extras n s w h = elim (Bool-cases (n == 0)) [
  | inl t ↦ rw t (fold_number table id f extras u16 2 none s u16-IsUint tt h)
  | inr t ↦ rw t (fold_number table id f extras u16 2 (some n) s u16-IsUint w h)
]

texts_back : (ts : List Text) → texts_of (map text ts) ≡ ts
texts_back [] = refl
texts_back (t ∷ ts) = ap (λ us. t ∷ us) (texts_back ts)

-- The values that a Session can hold: its constructor takes them, its texts are UTF-8, TLV can hold every
-- option, and the preserved options have ids that its table does not.
pub record IsSession (x : Session) : Type 0 where
  pub fits : session_fits x ≡ true
  pub comment : IsText x.comment
  pub proto : IsText x.proto
  pub flow_key : IsText x.flow_key
  pub options : All IsOption (session_options x)
  pub extras : Unknown session_table x.extra_options

module _ (x : Session) (v : IsSession x) where
  flags_width : x.flags < 256 ^ 2
  unfolding session_fits
  flags_width = ground (arith, v.fits)

  session_fold : parse_each session_table (session_options x) (no_values, []) ≡ (
    assign 0x54 (raw_values x.external_session_id) (
        assign 0x52 (flags_values x.flags) (
          assign 0x51
            (text_values x.flow_key)
            (assign 0x50 (text_values x.proto) (assign 0x01 (text_values x.comment) no_values)))),
    x.extra_options,
  )
  unfolding session_options find_spec
  session_fold =
      fold_then _ _ _ _ _ _ (fold_text session_table 0x01 _ [] x.comment refl v.comment refl) (
        fold_then _ _ _ _ _ _ (fold_text session_table 0x50 _ [] x.proto refl v.proto refl) (
          fold_then _ _ _ _ _ _ (fold_text session_table 0x51 _ [] x.flow_key refl v.flow_key refl)
            (fold_then _ _ _ _ _ _
              (fold_flags session_table 0x52 _ [] x.flags refl flags_width refl)
              (fold_then _ _ _ _ _ _
                (fold_raw session_table 0x54 _ [] x.external_session_id refl refl)
                (fold_extras session_table x.extra_options _ [] v.extras)))))

  session_back :
      parse_session (pack 8 x.session_id ++ region_of (session_options x)) ≡ ok (session x)
  unfolding parse_session pack
  session_back =
      let sid : unpack (pack 8 x.session_id) ≡ x.session_id =
        unpack-pack 8 x.session_id (unfold session_fits in ground (arith, v.fits)) in
      rw (parse_options-region_of session_table (session_options x) v.options, session_fold)
        (simp (sid, fields_back, flags_back) (rw v.fits))

  -- A Session is written, and what is written is read back as it was.
  pub session-ReadsBack : ReadsBack (session x)
  unfolding encode_block block_type_of parse_block pack
  session-ReadsBack =
      let enough : ltb (length (pack 8 x.session_id ++ region_of (session_options x))) 8 ≡ false =
        ground arith in
      (
        pack 8 x.session_id ++ region_of (session_options x),
        encode_with_body (pack 8 x.session_id) (session_options x) v.options,
        rw (enough, session_back),
      )

-- The values that a Participant can hold: its constructor takes them, its texts are UTF-8, TLV can hold every
-- option, and the preserved options have ids that its table does not.
pub record IsParticipant (x : Participant) : Type 0 where
  pub fits : participant_fits x ≡ true
  pub comment : IsText x.comment
  pub endpoints : DecodeTo str x.endpoints (map text x.endpoints)
  pub identity : IsText x.identity
  pub options : All IsOption (participant_options x)
  pub extras : Unknown participant_table x.extra_options

module _ (x : Participant) (v : IsParticipant x) where
  isn_width : HasWidth 4 x.isn
  unfolding participant_fits
  isn_width = fits_opt-HasWidth 32 4 x.isn refl (ground (arith, v.fits))

  tcp_role_width : HasWidth 1 x.tcp_role
  unfolding participant_fits
  tcp_role_width = fits_opt-HasWidth 8 1 x.tcp_role refl (ground (arith, v.fits))

  participant_fold : parse_each participant_table (participant_options x) (no_values, []) ≡ (
    assign 0x63 (number_values x.tcp_role) (
        assign 0x62 (text_values x.identity) (
          assign 0x61
            (number_values x.isn)
            (assign 0x60 (map text x.endpoints) (assign 0x01 (text_values x.comment) no_values)))),
    x.extra_options,
  )
  unfolding participant_options find_spec
  participant_fold =
      fold_then _ _ _ _ _ _ (fold_text participant_table 0x01 _ [] x.comment refl v.comment refl) (
        fold_then _ _ _ _ _ _
          (fold_repeated participant_table 0x60 [] str many x.endpoints (map text x.endpoints) _ tt
            refl v.endpoints)
          (fold_then _ _ _ _ _ _
            (fold_number participant_table 0x61 _ [] u32 4 x.isn refl u32-IsUint isn_width refl)
            (fold_then _ _ _ _ _ _
              (fold_text participant_table 0x62 _ [] x.identity refl v.identity refl)
              (fold_then _ _ _ _ _ _
                (fold_number participant_table 0x63 _ [] u8 1 x.tcp_role refl u8-IsUint
                  tcp_role_width refl)
                (fold_extras participant_table x.extra_options _ [] v.extras)))))

  participant_back :
      parse_participant (participant_body x ++ region_of (participant_options x))
      ≡ ok (participant x)
  unfolding parse_participant pack participant_body
  participant_back =
      let sid : unpack (pack 8 x.session_id) ≡ x.session_id =
        unpack-pack 8 x.session_id (unfold participant_fits in ground (arith, v.fits)) in
      let pid : unpack (pack 2 x.participant_id) ≡ x.participant_id =
        unpack-pack 2 x.participant_id (unfold participant_fits in ground (arith, v.fits)) in
      let adj : unpack (pack 1 x.adjacency) ≡ x.adjacency =
        unpack-pack 1 x.adjacency (unfold participant_fits in ground (arith, v.fits)) in
      rw
        (
          parse_options-region_of participant_table (participant_options x) v.options,
          participant_fold,
        )
        (simp (sid, pid, adj, fields_back, texts_back) (rw v.fits))

  -- A Participant is written, and what is written is read back as it was.
  pub participant-ReadsBack : ReadsBack (participant x)
  unfolding encode_block block_type_of parse_block pack participant_body
  participant-ReadsBack =
      let enough : ltb (length (participant_body x ++ region_of (participant_options x))) 12
          ≡ false =
        ground arith in
      (
        participant_body x ++ region_of (participant_options x),
        encode_with_body (participant_body x) (participant_options x) v.options,
        rw (enough, participant_back),
      )
