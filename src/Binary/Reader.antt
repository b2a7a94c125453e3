-- ===== src/Binary/Reader.antt =====
-- `BlockReader` of binary.py. A path is opened as such a stream; the messages of diagnostics and
-- errors are not kept.
pub mod Step
pub mod Frames
pub mod Cut
use python_zipline.Base.{
  ℕ, zero, suc, ◌+◌, ◌%◌, Bool, true, false, not, ◌&&◌, ◌||◌, Option, none, some, List, [], ◌∷◌,
  ◌++◌, ltb, ◌==◌, if◌then◌else◌, length, is_some,
}
use python_zipline.Base.Outcome.{
  Fault, zpf_error, structural, semantic, advisory, content_fault, truncated, encode, value_error,
  Outcome, ok, raised,
}
use python_zipline.Blocks.Types.{
  Bytes, FileHeader, Block, file_header, source, decoder, session, participant, session_end,
  record_block, undecoded, discontinuity, name_resolution, end, custom, unknown_block,
}
use python_zipline.Blocks.Values.{field_at}
use python_zipline.Blocks.Dispatch.{BlockObject, parse_block}
use python_zipline.Binary.Stream.{Stream, read, read_up_to}

-- The codes of the diagnostics that the reader makes.
pub data Condition : Type 0 where
  invalid_block truncated_tail trailing_bytes : Condition

pub record Diagnostic : Type 0 where
  pub offset : ℕ
  pub condition : Condition

pub record BlockReader : Type 0 where
  pub strict : Bool
  pub complete : Bool
  pub is_truncated : Bool
  pub diagnostics : List Diagnostic
  pub header : Option FileHeader
  pub offset : ℕ
  pub finished : Bool
  pub after_end : Bool
  pub stream : Stream

unfoldable pub block_reader : Stream → Bool → BlockReader
block_reader stream strict = record {
  strict = strict;
  complete = false;
  is_truncated = false;
  diagnostics = [];
  header = none;
  offset = 0;
  finished = false;
  after_end = false;
  stream = stream;
}

-- What `__next__` does: it returns a block, or raises `StopIteration` or an error.
pub data Next : Type 0 where
  item : BlockObject → Next
  stop_iteration : Next
  failed : Fault → Next

abbrev pub frame_size : ℕ
frame_size = 8

abbrev pub diagnose : ℕ → Condition → BlockReader → BlockReader
diagnose at condition r = record r {
  diagnostics = r.diagnostics ++ (record { offset = at; condition = condition } ∷ []);
}

-- _truncate
unfoldable pub truncate : ℕ → BlockReader → Next × BlockReader
truncate at r = (
  if r.strict then failed truncated else stop_iteration,
  diagnose at truncated_tail (record r { is_truncated = true; finished = true }),
)

-- _check_trailing, and the `StopIteration` behind it.
after_read : Bytes × Stream → BlockReader → Next × BlockReader
after_read ([], s) r = (stop_iteration, record r { finished = true; stream = s })
after_read (b ∷ bs, s) r = (
  if r.strict then failed semantic else stop_iteration,
  diagnose r.offset trailing_bytes (record r { finished = true; stream = s }),
)

unfoldable pub check_trailing : BlockReader → Next × BlockReader
unfolding after_read
check_trailing r = after_read (read 1 r.stream) r

-- The header comes first, and only first.
abbrev pub well_placed : Option FileHeader → ℕ → Bool
well_placed none block_type = block_type == 0x01
well_placed (some h) block_type = not (block_type == 0x01)

-- The errors that `_to_block` catches, by their classes: `AdvisoryError` is a `SemanticError`.
abbrev pub is_caught : Fault → Bool
is_caught semantic = true
is_caught advisory = true
is_caught encode = true
is_caught zpf_error = false
is_caught structural = false
is_caught content_fault = false
is_caught truncated = false
is_caught value_error = false

abbrev pub note_block : Block → BlockReader → BlockReader
note_block (file_header h) r = record r { header = some h }
note_block (end e) r = record r { complete = true; after_end = true }
note_block (source x) r = r
note_block (decoder x) r = r
note_block (session x) r = r
note_block (participant x) r = r
note_block (session_end x) r = r
note_block (record_block x) r = r
note_block (undecoded x) r = r
note_block (discontinuity x) r = r
note_block (name_resolution x) r = r
note_block (custom x) r = r
note_block (unknown_block t c) r = r

unfoldable pub take_parsed : ℕ → Bytes → ℕ → Outcome BlockObject → BlockReader → Next × BlockReader
take_parsed block_type content at (ok o) r = (item o, note_block o.block r)
take_parsed block_type content at (raised e) r =
    if is_caught e && not r.strict
    then (
      item (record { block = unknown_block block_type content; content = none }),
      diagnose at invalid_block r,
    )
    else (failed e, r)

-- _to_block
unfoldable pub to_block : ℕ → Bytes → ℕ → BlockReader → Next × BlockReader
unfolding take_parsed
to_block block_type content at r =
    if well_placed r.header block_type
    then take_parsed block_type content at (parse_block block_type content) r
    else (failed structural, r)

-- The frame has been read: the later half of `__next__`.
take_content : ℕ → ℕ → Bytes × Stream → BlockReader → Next × BlockReader
unfolding to_block truncate
take_content block_type len (content, s) r =
    if ltb (length content) len
    then truncate r.offset (record r { stream = s })
    else to_block block_type content r.offset
        (record r { stream = s; offset = r.offset + (frame_size + len) })

read_content : ℕ → ℕ → BlockReader → Next × BlockReader
unfolding take_content
read_content block_type len r =
    if len % 4 == 0
    then take_content block_type len (read_up_to r.stream len) r
    else (failed structural, r)

take_frame : Bytes × Stream → BlockReader → Next × BlockReader
unfolding read_content truncate
take_frame ([], s) r =
    if r.offset == 0
    then (failed structural, record r { stream = s })
    else (stop_iteration, record r { finished = true; stream = s })
take_frame (b ∷ bs, s) r =
    if ltb (length (b ∷ bs)) frame_size
    then truncate r.offset (record r { stream = s })
    else read_content (field_at 0 2 (b ∷ bs)) (field_at 4 4 (b ∷ bs)) (record r { stream = s })

-- __next__
unfoldable pub next : BlockReader → Next × BlockReader
unfolding take_frame check_trailing
next r =
    if r.finished
    then (stop_iteration, r)
    else if r.after_end
    then check_trailing r
    else take_frame (read_up_to r.stream frame_size) r

-- `for block in reader`: the blocks, the error that ended them if one did, and the reader behind them.
pub record Listing : Type 0 where
  pub blocks : List BlockObject
  pub fault : Option Fault
  pub reader : BlockReader

list_on : Next × BlockReader → (BlockReader → Listing) → Listing
list_on (item o, r) go = let rest = go r in record rest { blocks = o ∷ rest.blocks }
list_on (stop_iteration, r) go = record { blocks = []; fault = none; reader = r }
list_on (failed e, r) go = record { blocks = []; fault = some e; reader = r }

unfoldable pub list_blocks : ℕ → BlockReader → Listing
unfolding list_on
list_blocks zero r = record { blocks = []; fault = none; reader = r }
list_blocks (suc fuel) r = list_on (next r) (list_blocks fuel)
