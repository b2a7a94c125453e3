-- ===== src/Blocks/RoundTrip/Container.antt =====
-- The round trips of FileHeader, End and Custom of blocks.py.
use python_zipline.Base.{
  ℕ, ◌^◌, ◌<◌, ◌≡◌, refl, true, false, [], ◌∷◌, ◌++◌, ltb, ◌==◌, All, length, arith,
}
use python_zipline.Base.Outcome.{ok}
use python_zipline.Blocks.Types.{FileHeader, End, Custom, file_header, end, custom}
use python_zipline.Blocks.Options.{parse_each, no_values, assign, find_spec}
use python_zipline.Blocks.Options.Fold.{
  text_values, integer_values, IsText, IsI64Option, Unknown, fold_text, fold_integer, fold_extras,
}
use python_zipline.Blocks.Check.{file_header_fits, custom_fits, unsupported_version}
use python_zipline.Blocks.Encode.{
  encode_block, file_header_options, file_header_body, end_options, end_magic, custom_content,
}
use python_zipline.Blocks.Dispatch.{block_type_of, parse_block, parse_end, parse_custom}
use python_zipline.Blocks.Parse.{comment_spec, file_header_table, parse_file_header}
use python_zipline.Blocks.RoundTrip.{
  parse_options-region_of, fold_then, fields_back, fits_i64_opt-IsI64Option, encode_with_body,
  ReadsBack,
}
use python_zipline.Frame.{pack, unpack}
use python_zipline.Frame.Words.{unpack-pack}
use python_zipline.Frame.Options.{IsOption, region_of}

-- The version that is supported has the major number 0.
major_width : (major minor : ℕ) → unsupported_version major minor ≡ false → major < 256 ^ 2
unfolding unsupported_version
major_width major minor h = ground arith

-- The values that a FileHeader can hold: its constructor takes them, its texts are UTF-8, TLV can hold every
-- option, and the preserved options have ids that its table does not.
pub record IsFileHeader (x : FileHeader) : Type 0 where
  pub fits : file_header_fits x ≡ true
  pub comment : IsText x.comment
  pub creator : IsText x.creator
  pub produced_by : IsText x.produced_by
  pub transform_params_digest : IsText x.transform_params_digest
  pub options : All IsOption (file_header_options x)
  pub extras : Unknown file_header_table x.extra_options

module _ (x : FileHeader) (v : IsFileHeader x) where
  time_epoch_range : IsI64Option x.time_epoch
  unfolding file_header_fits
  time_epoch_range = fits_i64_opt-IsI64Option x.time_epoch (ground (arith, v.fits))

  produced_at_range : IsI64Option x.produced_at
  unfolding file_header_fits
  produced_at_range = fits_i64_opt-IsI64Option x.produced_at (ground (arith, v.fits))

  header_fold : parse_each file_header_table (file_header_options x) (no_values, []) ≡ (
    assign 0x15 (text_values x.transform_params_digest) (
        assign 0x13 (integer_values x.produced_at) (
          assign 0x12 (text_values x.produced_by) (
            assign 0x11 (text_values x.creator) (
              assign 0x10
                (integer_values x.time_epoch)
                (assign 0x01 (text_values x.comment) no_values))))),
    x.extra_options,
  )
  unfolding file_header_options find_spec
  header_fold =
      fold_then _ _ _ _ _ _ (fold_text file_header_table 0x01 _ [] x.comment refl v.comment refl) (
        fold_then _ _ _ _ _ _
          (fold_integer file_header_table 0x10 _ [] x.time_epoch refl time_epoch_range refl)
          (fold_then _ _ _ _ _ _
            (fold_text file_header_table 0x11 _ [] x.creator refl v.creator refl)
            (fold_then _ _ _ _ _ _
              (fold_text file_header_table 0x12 _ [] x.produced_by refl v.produced_by refl)
              (fold_then _ _ _ _ _ _
                (fold_integer file_header_table 0x13 _ [] x.produced_at refl produced_at_range refl)
                (fold_then _ _ _ _ _ _
                  (fold_text file_header_table 0x15 _ [] x.transform_params_digest refl
                    v.transform_params_digest refl)
                  (fold_extras file_header_table x.extra_options _ [] v.extras))))))

  header_back :
      parse_file_header (file_header_body x ++ region_of (file_header_options x))
      ≡ ok (file_header x)
  unfolding parse_file_header pack file_header_body
  header_back =
      let mg : unpack (pack 4 0x5A495046) ≡ 0x5A495046 = unpack-pack 4 0x5A495046 (omega arith) in
      let minor : unpack (pack 2 x.version_minor) ≡ x.version_minor =
        unpack-pack 2 x.version_minor (unfold file_header_fits in ground (arith, v.fits)) in
      let tick : unpack (pack 8 x.tick_hz) ≡ x.tick_hz =
        unpack-pack 8 x.tick_hz (unfold file_header_fits in ground (arith, v.fits)) in
      let major : unpack (pack 2 x.version_major) ≡ x.version_major =
        unpack-pack 2 x.version_major (
          major_width x.version_major x.version_minor
            (unfold file_header_fits in ground (arith, v.fits))) in
      let known : unsupported_version x.version_major x.version_minor ≡ false =
        unfold file_header_fits in ground (arith, v.fits) in
      let ticks : (x.tick_hz == 0) ≡ false = unfold file_header_fits in ground (arith, v.fits) in
      rw (parse_options-region_of file_header_table (file_header_options x) v.options, header_fold)
        (simp (mg, minor, tick, fields_back, major, known, ticks) (rw v.fits))

  -- A FileHeader is written, and what is written is read back as it was.
  pub file_header-ReadsBack : ReadsBack (file_header x)
  unfolding encode_block block_type_of parse_block pack file_header_body
  file_header-ReadsBack =
      let enough : ltb (length (file_header_body x ++ region_of (file_header_options x))) 16
          ≡ false =
        ground arith in
      (
        file_header_body x ++ region_of (file_header_options x),
        encode_with_body (file_header_body x) (file_header_options x) v.options,
        rw (enough, header_back),
      )

-- The values that a End can hold: its constructor takes them, its texts are UTF-8, TLV can hold every
-- option, and the preserved options have ids that its table does not.
pub record IsEnd (x : End) : Type 0 where
  pub comment : IsText x.comment
  pub options : All IsOption (end_options x)
  pub extras : Unknown (comment_spec ∷ []) x.extra_options

module _ (x : End) (v : IsEnd x) where
  end_block_fold :
      parse_each (comment_spec ∷ []) (end_options x) (no_values, [])
      ≡ (assign 0x01 (text_values x.comment) no_values, x.extra_options)
  unfolding end_options find_spec
  end_block_fold =
      fold_then _ _ _ _ _ _ (fold_text (comment_spec ∷ []) 0x01 _ [] x.comment refl v.comment refl)
        (fold_extras (comment_spec ∷ []) x.extra_options _ [] v.extras)

  end_block_back : parse_end (pack 4 end_magic ++ region_of (end_options x)) ≡ ok (end x)
  unfolding parse_end pack
  end_block_back =
      let mg : unpack (pack 4 0x5A454E44) ≡ 0x5A454E44 = unpack-pack 4 0x5A454E44 (omega arith) in
      rw (parse_options-region_of (comment_spec ∷ []) (end_options x) v.options, end_block_fold)
        (simp (mg, fields_back) (refl))

  -- A End is written, and what is written is read back as it was.
  pub end-ReadsBack : ReadsBack (end x)
  unfolding encode_block block_type_of parse_block pack
  end-ReadsBack =
      let enough : ltb (length (pack 4 end_magic ++ region_of (end_options x))) 4 ≡ false =
        ground arith in
      (
        pack 4 end_magic ++ region_of (end_options x),
        encode_with_body (pack 4 end_magic) (end_options x) v.options,
        rw (enough, end_block_back),
      )

-- A Custom block that its constructor takes is written, and what is written is read back as it was.
pub custom-ReadsBack : (x : Custom) → custom_fits x ≡ true → ReadsBack (custom x)
unfolding encode_block block_type_of parse_block pack custom_content parse_custom
custom-ReadsBack x v =
    let pen : unpack (pack 4 x.pen) ≡ x.pen =
      unpack-pack 4 x.pen (unfold custom_fits in ground (arith, v)) in
    let subtype : unpack (pack 2 x.subtype) ≡ x.subtype =
      unpack-pack 2 x.subtype (unfold custom_fits in ground (arith, v)) in
    let enough : ltb (length (custom_content x)) 8 ≡ false = ground arith in
    (custom_content x, refl, rw enough (simp (pen, subtype) (rw v)))
