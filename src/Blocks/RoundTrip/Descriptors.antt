-- ===== src/Blocks/RoundTrip/Descriptors.antt =====
-- The round trips of Source and Decoder of blocks.py.
use python_zipline.Base.{◌≡◌, refl, true, false, [], ◌++◌, ltb, All, length, arith}
use python_zipline.Base.Outcome.{ok}
use python_zipline.Blocks.Types.{Source, Decoder, source, decoder}
use python_zipline.Blocks.Values.{u16}
use python_zipline.Blocks.Options.{parse_each, no_values, assign, find_spec}
use python_zipline.Blocks.Options.Fold.{
  text_values, number_values, IsText, HasWidth, Unknown, fold_text, fold_number, fold_extras,
}
use python_zipline.Blocks.Check.{source_fits, decoder_fits}
use python_zipline.Blocks.Encode.{
  encode_block, source_options, source_body, decoder_options, decoder_body,
}
use python_zipline.Blocks.Dispatch.{block_type_of, parse_block}
use python_zipline.Blocks.Parse.{source_table, parse_source, decoder_table, parse_decoder}
use python_zipline.Blocks.RoundTrip.{
  parse_options-region_of, fold_then, fields_back, u16-IsUint, fits_opt-HasWidth, encode_with_body,
  ReadsBack,
}
use python_zipline.Frame.{pack, unpack}
use python_zipline.Frame.Words.{unpack-pack}
use python_zipline.Frame.Options.{IsOption, region_of}

-- The values that a Source can hold: its constructor takes them, its texts are UTF-8, TLV can hold every
-- option, and the preserved options have ids that its table does not.
pub record IsSource (x : Source) : Type 0 where
  pub fits : source_fits x ≡ true
  pub comment : IsText x.comment
  pub uri : IsText x.uri
  pub digest : IsText x.digest
  pub options : All IsOption (source_options x)
  pub extras : Unknown source_table x.extra_options

module _ (x : Source) (v : IsSource x) where
  link_type_width : HasWidth 2 x.link_type
  unfolding source_fits
  link_type_width = fits_opt-HasWidth 16 2 x.link_type refl (ground (arith, v.fits))

  source_fold : parse_each source_table (source_options x) (no_values, []) ≡ (
    assign 0x22 (number_values x.link_type) (
        assign 0x21
          (text_values x.digest)
          (assign 0x20 (text_values x.uri) (assign 0x01 (text_values x.comment) no_values))),
    x.extra_options,
  )
  unfolding source_options find_spec
  source_fold =
      fold_then _ _ _ _ _ _ (fold_text source_table 0x01 _ [] x.comment refl v.comment refl) (
        fold_then _ _ _ _ _ _ (fold_text source_table 0x20 _ [] x.uri refl v.uri refl) (
          fold_then _ _ _ _ _ _ (fold_text source_table 0x21 _ [] x.digest refl v.digest refl) (
            fold_then _ _ _ _ _ _
              (fold_number source_table 0x22 _ [] u16 2 x.link_type refl u16-IsUint link_type_width
                refl)
              (fold_extras source_table x.extra_options _ [] v.extras))))

  source_back : parse_source (source_body x ++ region_of (source_options x)) ≡ ok (source x)
  unfolding parse_source pack source_body
  source_back =
      let id : unpack (pack 2 x.source_id) ≡ x.source_id =
        unpack-pack 2 x.source_id (unfold source_fits in ground (arith, v.fits)) in
      let kind : unpack (pack 1 x.kind) ≡ x.kind =
        unpack-pack 1 x.kind (unfold source_fits in ground (arith, v.fits)) in
      rw (parse_options-region_of source_table (source_options x) v.options, source_fold)
        (simp (id, kind, fields_back) (rw v.fits))

  -- A Source is written, and what is written is read back as it was.
  pub source-ReadsBack : ReadsBack (source x)
  unfolding encode_block block_type_of parse_block pack source_body
  source-ReadsBack =
      let enough : ltb (length (source_body x ++ region_of (source_options x))) 4 ≡ false =
        ground arith in
      (
        source_body x ++ region_of (source_options x),
        encode_with_body (source_body x) (source_options x) v.options,
        rw (enough, source_back),
      )

-- The values that a Decoder can hold: its constructor takes them, its texts are UTF-8, TLV can hold every
-- option, and the preserved options have ids that its table does not.
pub record IsDecoder (x : Decoder) : Type 0 where
  pub fits : decoder_fits x ≡ true
  pub comment : IsText x.comment
  pub name : IsText x.name
  pub version : IsText x.version
  pub params_digest : IsText x.params_digest
  pub options : All IsOption (decoder_options x)
  pub extras : Unknown decoder_table x.extra_options

module _ (x : Decoder) (v : IsDecoder x) where
  decoder_fold : parse_each decoder_table (decoder_options x) (no_values, []) ≡ (
    assign 0x43 (text_values x.params_digest) (
        assign 0x42
          (text_values x.version)
          (assign 0x41 (text_values x.name) (assign 0x01 (text_values x.comment) no_values))),
    x.extra_options,
  )
  unfolding decoder_options find_spec
  decoder_fold =
      fold_then _ _ _ _ _ _ (fold_text decoder_table 0x01 _ [] x.comment refl v.comment refl) (
        fold_then _ _ _ _ _ _ (fold_text decoder_table 0x41 _ [] x.name refl v.name refl) (
          fold_then _ _ _ _ _ _ (fold_text decoder_table 0x42 _ [] x.version refl v.version refl) (
            fold_then _ _ _ _ _ _
              (fold_text decoder_table 0x43 _ [] x.params_digest refl v.params_digest refl)
              (fold_extras decoder_table x.extra_options _ [] v.extras))))

  decoder_back : parse_decoder (decoder_body x ++ region_of (decoder_options x)) ≡ ok (decoder x)
  unfolding parse_decoder pack decoder_body
  decoder_back =
      let id : unpack (pack 2 x.decoder_id) ≡ x.decoder_id =
        unpack-pack 2 x.decoder_id (unfold decoder_fits in ground (arith, v.fits)) in
      let layer : unpack (pack 1 x.output_layer) ≡ x.output_layer =
        unpack-pack 1 x.output_layer (unfold decoder_fits in ground (arith, v.fits)) in
      rw (parse_options-region_of decoder_table (decoder_options x) v.options, decoder_fold)
        (simp (id, layer, fields_back) (rw v.fits))

  -- A Decoder is written, and what is written is read back as it was.
  pub decoder-ReadsBack : ReadsBack (decoder x)
  unfolding encode_block block_type_of parse_block pack decoder_body
  decoder-ReadsBack =
      let enough : ltb (length (decoder_body x ++ region_of (decoder_options x))) 4 ≡ false =
        ground arith in
      (
        decoder_body x ++ region_of (decoder_options x),
        encode_with_body (decoder_body x) (decoder_options x) v.options,
        rw (enough, decoder_back),
      )
