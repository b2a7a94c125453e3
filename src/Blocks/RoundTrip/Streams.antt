-- ===== src/Blocks/RoundTrip/Streams.antt =====
-- The round trips of Undecoded, Discontinuity and NameResolution of blocks.py.
use python_zipline.Base.{◌≡◌, refl, true, false, [], ◌++◌, ltb, All, length, arith}
use python_zipline.Base.Outcome.{ok}
use python_zipline.Blocks.Types.{
  Undecoded, Discontinuity, NameResolution, undecoded, discontinuity, name_resolution,
}
use python_zipline.Blocks.Values.{u16, u64, pack_span}
use python_zipline.Blocks.Options.{parse_each, no_values, assign, find_spec}
use python_zipline.Blocks.Options.Fold.{
  text_values, number_values, IsText, HasWidth, Unknown, fold_text, fold_number, fold_extras,
}
use python_zipline.Blocks.Check.{undecoded_fits, discontinuity_fits, name_resolution_fits}
use python_zipline.Blocks.Encode.{
  encode_block, undecoded_options, region_of_input, discontinuity_options, name_resolution_options,
  stream_body,
}
use python_zipline.Blocks.Dispatch.{
  block_type_of, parse_block, parse_undecoded, undecoded_table, parse_discontinuity,
  discontinuity_table, parse_name_resolution, name_resolution_table,
}
use python_zipline.Blocks.RoundTrip.{
  parse_options-region_of, fold_then, fields_back, u16-IsUint, u64-IsUint, fits_opt-HasWidth,
  encode_with_body, ReadsBack,
}
use python_zipline.Frame.{pack, unpack}
use python_zipline.Frame.Words.{unpack-pack}
use python_zipline.Frame.Options.{IsOption, region_of}

-- The values that an Undecoded can hold: its constructor takes them, its texts are UTF-8, TLV can hold every
-- option, and the preserved options have ids that its table does not.
pub record IsUndecoded (x : Undecoded) : Type 0 where
  pub fits : undecoded_fits x ≡ true
  pub comment : IsText x.comment
  pub reason : IsText x.reason
  pub reason_class : IsText x.reason_class
  pub options : All IsOption (undecoded_options x)
  pub extras : Unknown undecoded_table x.extra_options

module _ (x : Undecoded) (v : IsUndecoded x) where
  decoder_id_width : HasWidth 2 x.decoder_id
  unfolding undecoded_fits
  decoder_id_width = fits_opt-HasWidth 16 2 x.decoder_id refl (ground (arith, v.fits))

  undecoded_fold : parse_each undecoded_table (undecoded_options x) (no_values, []) ≡ (
    assign 0xA1 (text_values x.reason_class) (
        assign 0xA0 (text_values x.reason) (
          assign 0x90
            (number_values x.decoder_id)
            (assign 0x01 (text_values x.comment) no_values))),
    x.extra_options,
  )
  unfolding undecoded_options find_spec
  undecoded_fold =
      fold_then _ _ _ _ _ _ (fold_text undecoded_table 0x01 _ [] x.comment refl v.comment refl) (
        fold_then _ _ _ _ _ _
          (fold_number undecoded_table 0x90 _ [] u16 2 x.decoder_id refl u16-IsUint decoder_id_width
            refl)
          (fold_then _ _ _ _ _ _ (fold_text undecoded_table 0xA0 _ [] x.reason refl v.reason refl) (
            fold_then _ _ _ _ _ _
              (fold_text undecoded_table 0xA1 _ [] x.reason_class refl v.reason_class refl)
              (fold_extras undecoded_table x.extra_options _ [] v.extras))))

  undecoded_back :
      parse_undecoded (pack_span (region_of_input x) ++ region_of (undecoded_options x))
      ≡ ok (undecoded x)
  unfolding parse_undecoded pack pack_span
  undecoded_back =
      let src : unpack (pack 2 x.source_id) ≡ x.source_id =
        unpack-pack 2 x.source_id (unfold undecoded_fits in ground (arith, v.fits)) in
      let pid : unpack (pack 2 x.participant_id) ≡ x.participant_id =
        unpack-pack 2 x.participant_id (unfold undecoded_fits in ground (arith, v.fits)) in
      let sid : unpack (pack 8 x.session_id) ≡ x.session_id =
        unpack-pack 8 x.session_id (unfold undecoded_fits in ground (arith, v.fits)) in
      let from : unpack (pack 8 x.off_start) ≡ x.off_start =
        unpack-pack 8 x.off_start (unfold undecoded_fits in ground (arith, v.fits)) in
      let upto : unpack (pack 8 x.off_end) ≡ x.off_end =
        unpack-pack 8 x.off_end (unfold undecoded_fits in ground (arith, v.fits)) in
      rw (parse_options-region_of undecoded_table (undecoded_options x) v.options, undecoded_fold)
        (simp (src, pid, sid, from, upto, fields_back) (rw v.fits))

  -- An Undecoded is written, and what is written is read back as it was.
  pub undecoded-ReadsBack : ReadsBack (undecoded x)
  unfolding encode_block block_type_of parse_block pack pack_span
  undecoded-ReadsBack =
      let enough : ltb (length (pack_span (region_of_input x) ++ region_of (undecoded_options x)))
            28
          ≡ false =
        ground arith in
      (
        pack_span (region_of_input x) ++ region_of (undecoded_options x),
        encode_with_body (pack_span (region_of_input x)) (undecoded_options x) v.options,
        rw (enough, undecoded_back),
      )

-- The values that a Discontinuity can hold: its constructor takes them, its texts are UTF-8, TLV can hold every
-- option, and the preserved options have ids that its table does not.
pub record IsDiscontinuity (x : Discontinuity) : Type 0 where
  pub fits : discontinuity_fits x ≡ true
  pub comment : IsText x.comment
  pub reason : IsText x.reason
  pub options : All IsOption (discontinuity_options x)
  pub extras : Unknown discontinuity_table x.extra_options

module _ (x : Discontinuity) (v : IsDiscontinuity x) where
  width_width : HasWidth 8 x.width
  unfolding discontinuity_fits
  width_width = fits_opt-HasWidth 64 8 x.width refl (ground (arith, v.fits))

  discontinuity_fold : parse_each discontinuity_table (discontinuity_options x) (no_values, []) ≡ (
    assign 0xD1
        (text_values x.reason)
        (assign 0xD0 (number_values x.width) (assign 0x01 (text_values x.comment) no_values)),
    x.extra_options,
  )
  unfolding discontinuity_options find_spec
  discontinuity_fold =
      fold_then _ _ _ _ _ _ (fold_text discontinuity_table 0x01 _ [] x.comment refl v.comment refl)
        (fold_then _ _ _ _ _ _
          (fold_number discontinuity_table 0xD0 _ [] u64 8 x.width refl u64-IsUint width_width refl)
          (fold_then _ _ _ _ _ _
            (fold_text discontinuity_table 0xD1 _ [] x.reason refl v.reason refl)
            (fold_extras discontinuity_table x.extra_options _ [] v.extras)))

  discontinuity_back :
      parse_discontinuity
        (stream_body x.session_id x.participant_id ++ region_of (discontinuity_options x))
      ≡ ok (discontinuity x)
  unfolding parse_discontinuity pack
  discontinuity_back =
      let sid : unpack (pack 8 x.session_id) ≡ x.session_id =
        unpack-pack 8 x.session_id (unfold discontinuity_fits in ground (arith, v.fits)) in
      let pid : unpack (pack 2 x.participant_id) ≡ x.participant_id =
        unpack-pack 2 x.participant_id (unfold discontinuity_fits in ground (arith, v.fits)) in
      rw
        (
          parse_options-region_of discontinuity_table (discontinuity_options x) v.options,
          discontinuity_fold,
        )
        (simp (sid, pid, fields_back) (rw v.fits))

  -- A Discontinuity is written, and what is written is read back as it was.
  pub discontinuity-ReadsBack : ReadsBack (discontinuity x)
  unfolding encode_block block_type_of parse_block pack
  discontinuity-ReadsBack =
      let enough : ltb
            (length
              (stream_body x.session_id x.participant_id ++ region_of (discontinuity_options x)))
            12
          ≡ false =
        ground arith in
      (
        stream_body x.session_id x.participant_id ++ region_of (discontinuity_options x),
        encode_with_body (stream_body x.session_id x.participant_id) (discontinuity_options x)
            v.options,
        rw (enough, discontinuity_back),
      )

-- The values that a NameResolution can hold: its constructor takes them, its texts are UTF-8, TLV can hold every
-- option, and the preserved options have ids that its table does not.
pub record IsNameResolution (x : NameResolution) : Type 0 where
  pub fits : name_resolution_fits x ≡ true
  pub comment : IsText x.comment
  pub label : IsText x.label
  pub kind : IsText x.kind
  pub options : All IsOption (name_resolution_options x)
  pub extras : Unknown name_resolution_table x.extra_options

module _ (x : NameResolution) (v : IsNameResolution x) where
  name_resolution_fold :
      parse_each name_resolution_table (name_resolution_options x) (no_values, []) ≡ (
        assign 0xB1
            (text_values x.kind)
            (assign 0xB0 (text_values x.label) (assign 0x01 (text_values x.comment) no_values)),
        x.extra_options,
      )
  unfolding name_resolution_options find_spec
  name_resolution_fold =
      fold_then _ _ _ _ _ _
        (fold_text name_resolution_table 0x01 _ [] x.comment refl v.comment refl)
        (fold_then _ _ _ _ _ _ (fold_text name_resolution_table 0xB0 _ [] x.label refl v.label refl)
          (fold_then _ _ _ _ _ _ (fold_text name_resolution_table 0xB1 _ [] x.kind refl v.kind refl)
            (fold_extras name_resolution_table x.extra_options _ [] v.extras)))

  name_resolution_back :
      parse_name_resolution
        (stream_body x.session_id x.participant_id ++ region_of (name_resolution_options x))
      ≡ ok (name_resolution x)
  unfolding parse_name_resolution pack
  name_resolution_back =
      let sid : unpack (pack 8 x.session_id) ≡ x.session_id =
        unpack-pack 8 x.session_id (unfold name_resolution_fits in ground (arith, v.fits)) in
      let pid : unpack (pack 2 x.participant_id) ≡ x.participant_id =
        unpack-pack 2 x.participant_id (unfold name_resolution_fits in ground (arith, v.fits)) in
      rw
        (
          parse_options-region_of name_resolution_table (name_resolution_options x) v.options,
          name_resolution_fold,
        )
        (simp (sid, pid, fields_back) (rw v.fits))

  -- A NameResolution is written, and what is written is read back as it was.
  pub name_resolution-ReadsBack : ReadsBack (name_resolution x)
  unfolding encode_block block_type_of parse_block pack
  name_resolution-ReadsBack =
      let enough : ltb
            (length
              (stream_body x.session_id x.participant_id ++ region_of (name_resolution_options x)))
            12
          ≡ false =
        ground arith in
      (
        stream_body x.session_id x.participant_id ++ region_of (name_resolution_options x),
        encode_with_body (stream_body x.session_id x.participant_id) (name_resolution_options x)
            v.options,
        rw (enough, name_resolution_back),
      )
