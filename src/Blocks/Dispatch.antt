-- ===== src/Blocks/Dispatch.antt =====
-- The rest of the `_parse` methods of blocks.py, `parse_block` and the cache of the original bytes.
use python_zipline.Base.{ℕ, Option, none, some, List, [], ◌∷◌, ◌==◌, if◌then◌else◌, drop}
use python_zipline.Base.Outcome.{Outcome, ok, raised, semantic, ◌>>=◌, ◌>>◌, guard}
use python_zipline.Blocks.Types.{
  Bytes, Block, file_header, source, decoder, session, participant, session_end, record_block,
  undecoded, discontinuity, name_resolution, end, custom, unknown_block,
}
use python_zipline.Blocks.Values.{str, u16, u64, field_at}
use python_zipline.Blocks.Options.{OptSpec, spec, single, parse_options, text_of, number_of}
use python_zipline.Blocks.Check.{
  checked, undecoded_fits, discontinuity_fits, name_resolution_fits, custom_fits, unknown_fits,
}
use python_zipline.Blocks.Encode.{end_magic, encode_block}
use python_zipline.Blocks.Parse.{
  body, comment_spec, parse_file_header, parse_source, parse_decoder, parse_session,
  parse_participant, parse_session_end, parse_record,
}

abbrev pub undecoded_table : List OptSpec
undecoded_table =
    comment_spec ∷ spec 0x90 u16 single ∷ spec 0xA0 str single ∷ spec 0xA1 str single ∷ []

unfoldable pub parse_undecoded : Bytes → Outcome Block
parse_undecoded content = do
  (f, extras) ← parse_options undecoded_table (drop 28 content)
  u ← checked undecoded_fits (record {
    source_id = field_at 0 2 content;
    session_id = field_at 4 8 content;
    participant_id = field_at 2 2 content;
    off_start = field_at 12 8 content;
    off_end = field_at 20 8 content;
    reason = text_of (f 0xA0);
    reason_class = text_of (f 0xA1);
    decoder_id = number_of (f 0x90);
    comment = text_of (f 0x01);
    extra_options = extras;
  })
  ok (undecoded u)

abbrev pub discontinuity_table : List OptSpec
discontinuity_table = comment_spec ∷ spec 0xD0 u64 single ∷ spec 0xD1 str single ∷ []

unfoldable pub parse_discontinuity : Bytes → Outcome Block
parse_discontinuity content = do
  (f, extras) ← parse_options discontinuity_table (drop 12 content)
  d ← checked discontinuity_fits (record {
    session_id = field_at 0 8 content;
    participant_id = field_at 8 2 content;
    width = number_of (f 0xD0);
    reason = text_of (f 0xD1);
    comment = text_of (f 0x01);
    extra_options = extras;
  })
  ok (discontinuity d)

abbrev pub name_resolution_table : List OptSpec
name_resolution_table = comment_spec ∷ spec 0xB0 str single ∷ spec 0xB1 str single ∷ []

unfoldable pub parse_name_resolution : Bytes → Outcome Block
parse_name_resolution content = do
  (f, extras) ← parse_options name_resolution_table (drop 12 content)
  n ← checked name_resolution_fits (record {
    session_id = field_at 0 8 content;
    participant_id = field_at 8 2 content;
    label = text_of (f 0xB0);
    kind = text_of (f 0xB1);
    comment = text_of (f 0x01);
    extra_options = extras;
  })
  ok (name_resolution n)

unfoldable pub parse_end : Bytes → Outcome Block
parse_end content = do
  guard (field_at 0 4 content == end_magic) semantic
  (f, extras) ← parse_options (comment_spec ∷ []) (drop 4 content)
  ok (end (record { comment = text_of (f 0x01); extra_options = extras }))

unfoldable pub parse_custom : Bytes → Outcome Block
parse_custom content = do
  c ← checked custom_fits (record {
    pen = field_at 0 4 content;
    subtype = field_at 4 2 content;
    payload = drop 8 content;
  })
  ok (custom c)

unfoldable pub parse_unknown : ℕ → Bytes → Outcome Block
parse_unknown block_type content = do
  t ← checked unknown_fits block_type
  ok (unknown_block t content)

-- `block_type` of each class: the BT_ codes.
unfoldable pub block_type_of : Block → ℕ
block_type_of (file_header h) = 0x01
block_type_of (source s) = 0x02
block_type_of (decoder d) = 0x03
block_type_of (session s) = 0x10
block_type_of (participant p) = 0x11
block_type_of (session_end s) = 0x12
block_type_of (record_block r) = 0x20
block_type_of (undecoded u) = 0x21
block_type_of (discontinuity d) = 0x22
block_type_of (name_resolution n) = 0x30
block_type_of (end e) = 0x41
block_type_of (custom c) = 0xFF
block_type_of (unknown_block t content) = t

-- A block as an object: with the bytes that it was parsed from, if it was.
pub record BlockObject : Type 0 where
  pub block : Block
  pub content : Option Bytes

-- `_BLOCK_CLASSES`: the body's size and the parser behind it, for the types that are known.
unfoldable pub parse_known : ℕ → Bytes → Option (Outcome Block)
parse_known block_type content =
    if block_type == 0x01
    then some (body 16 content parse_file_header)
    else if block_type == 0x02
    then some (body 4 content parse_source)
    else if block_type == 0x03
    then some (body 4 content parse_decoder)
    else if block_type == 0x10
    then some (body 8 content parse_session)
    else if block_type == 0x11
    then some (body 12 content parse_participant)
    else if block_type == 0x12
    then some (body 8 content parse_session_end)
    else if block_type == 0x20
    then some (body 28 content parse_record)
    else if block_type == 0x21
    then some (body 28 content parse_undecoded)
    else if block_type == 0x22
    then some (body 12 content parse_discontinuity)
    else if block_type == 0x30
    then some (body 12 content parse_name_resolution)
    else if block_type == 0x41
    then some (body 4 content parse_end)
    else if block_type == 0xFF
    then some (body 8 content parse_custom)
    else none

-- `from_content` caches the bytes.
cached : Bytes → Outcome Block → Outcome BlockObject
cached content (raised e) = raised e
cached content (ok b) = ok (record { block = b; content = some content })

uncached : Outcome Block → Outcome BlockObject
uncached (raised e) = raised e
uncached (ok b) = ok (record { block = b; content = none })

parse_with : ℕ → Bytes → Option (Outcome Block) → Outcome BlockObject
unfolding cached uncached
parse_with block_type content none = uncached (parse_unknown block_type content)
parse_with block_type content (some parsed) = cached content parsed

unfoldable pub parse_block : ℕ → Bytes → Outcome BlockObject
unfolding parse_with parse_known parse_unknown
parse_block block_type content = parse_with block_type content (parse_known block_type content)

to_bytes_with : Block → Option Bytes → Outcome Bytes
to_bytes_with b none = encode_block b
to_bytes_with b (some content) = ok content

unfoldable pub to_bytes : BlockObject → Outcome Bytes
unfolding to_bytes_with
to_bytes o = to_bytes_with o.block o.content
