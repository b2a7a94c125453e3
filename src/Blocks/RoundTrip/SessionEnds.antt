-- ===== src/Blocks/RoundTrip/SessionEnds.antt =====
-- The round trip of SessionEnd of blocks.py.
use python_zipline.Base.{◌≡◌, refl, true, false, [], ◌++◌, ltb, All, length, arith}
use python_zipline.Base.Outcome.{ok}
use python_zipline.Blocks.Types.{SessionEnd, session_end}
use python_zipline.Blocks.Values.{extent_list, pack_extent, chunks}
use python_zipline.Blocks.RoundTrip.Chunks.{
  IsExtent, extent_groups, chunks-extent_groups, extents_of-extent_groups,
}
use python_zipline.Blocks.Options.{concat, parse_each, no_values, assign, find_spec, extents_of}
use python_zipline.Blocks.Options.Fold.{
  text_values, IsText, Unknown, fold_text, fold_repeated, fold_extras,
}
use python_zipline.Blocks.Check.{session_end_fits}
use python_zipline.Blocks.Encode.{encode_block, session_end_options, max_extents_per_option}
use python_zipline.Blocks.Dispatch.{block_type_of, parse_block}
use python_zipline.Blocks.Parse.{session_end_table, parse_session_end}
use python_zipline.Blocks.RoundTrip.{
  parse_options-region_of, fold_then, fields_back, encode_with_body, ReadsBack,
}
use python_zipline.Frame.{pack, unpack}
use python_zipline.Frame.Words.{unpack-pack}
use python_zipline.Frame.Options.{IsOption, region_of}

-- The values that a SessionEnd can hold: its constructor takes them, its texts are UTF-8, TLV can hold every
-- option, and the preserved options have ids that its table does not.
pub record IsSessionEnd (x : SessionEnd) : Type 0 where
  pub fits : session_end_fits x ≡ true
  pub comment : IsText x.comment
  pub reason : IsText x.reason
  pub input_extents : All IsExtent x.input_extents
  pub options : All IsOption (session_end_options x)
  pub extras : Unknown session_end_table x.extra_options

module _ (x : SessionEnd) (v : IsSessionEnd x) where
  closing_fold : parse_each session_end_table (session_end_options x) (no_values, []) ≡ (
    assign 0xC1
        (extent_groups max_extents_per_option x.input_extents)
        (assign 0xC0 (text_values x.reason) (assign 0x01 (text_values x.comment) no_values)),
    x.extra_options,
  )
  unfolding session_end_options find_spec
  closing_fold =
      fold_then _ _ _ _ _ _ (fold_text session_end_table 0x01 _ [] x.comment refl v.comment refl) (
        fold_then _ _ _ _ _ _ (fold_text session_end_table 0xC0 _ [] x.reason refl v.reason refl) (
          fold_then _ _ _ _ _ _
            (fold_repeated session_end_table 0xC1 [] extent_list concat
              (chunks pack_extent max_extents_per_option x.input_extents)
              (extent_groups max_extents_per_option x.input_extents) _ tt refl
              (chunks-extent_groups max_extents_per_option x.input_extents v.input_extents))
            (fold_extras session_end_table x.extra_options _ [] v.extras)))

  closing_back :
      parse_session_end (pack 8 x.session_id ++ region_of (session_end_options x))
      ≡ ok (session_end x)
  unfolding parse_session_end pack
  closing_back =
      let sid : unpack (pack 8 x.session_id) ≡ x.session_id =
        unpack-pack 8 x.session_id (unfold session_end_fits in ground (arith, v.fits)) in
      let extents_back : extents_of (extent_groups max_extents_per_option x.input_extents)
          ≡ x.input_extents =
        extents_of-extent_groups max_extents_per_option x.input_extents (omega arith) in
      rw (parse_options-region_of session_end_table (session_end_options x) v.options, closing_fold)
        (simp (sid, fields_back, extents_back) (rw v.fits))

  -- A SessionEnd is written, and what is written is read back as it was.
  pub session_end-ReadsBack : ReadsBack (session_end x)
  unfolding encode_block block_type_of parse_block pack
  session_end-ReadsBack =
      let enough : ltb (length (pack 8 x.session_id ++ region_of (session_end_options x))) 8
          ≡ false =
        ground arith in
      (
        pack 8 x.session_id ++ region_of (session_end_options x),
        encode_with_body (pack 8 x.session_id) (session_end_options x) v.options,
        rw (enough, closing_back),
      )
