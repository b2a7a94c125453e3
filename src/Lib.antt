-- ===== src/Lib.antt =====
-- The Zipline Payload Format library (zpf): the container format, its blocks and the order of records.
--
-- A .zpf file is a sequence of frames; a frame holds one block: descriptors of inputs, decoders,
-- sessions and participants, the records of payload bytes that participants sent, and an End block. A
-- reader takes blocks from a byte stream that may be cut off; the records of a session are merged into
-- one causal order by their sequence numbers, acknowledgements and times, and a stored order is checked
-- against the same rules. Coverage of offsets is kept in lists of intervals. A checker holds a stream of
-- blocks to the rules that go beyond a single block; a checking writer asks it before each block.
--
-- The files, and the code that each models:
--   Base         numbers, lists, integers over native numbers; Base/Outcome is src/zpf/errors.py: what
--                raises returns an `Outcome` with the class of the error.
--   Intervals    src/zpf/_intervals.py: add, coalesce, complement, intersections. Spec says which offsets
--                a list covers; Insert is add as one recursion; Add, Canonical and Gaps have the
--                theorems.
--   Frame        src/zpf/_frame.py: the struct codes, pad4, padded, encode_option and iter_options.
--   Blocks       src/zpf/blocks.py: Types has the classes, Values the option codecs, Options the tables'
--                walk (_parse_options, _encode_options), Check the __post_init__ tests, Encode and Parse
--                the _encode and _parse methods, Dispatch parse_block and the cached bytes. RoundTrip,
--                FixedEncoder and Aligned have the theorems on what is written and read.
--   Content      src/zpf/content.py: the label's grammar, prim_fault, net_fault, decode_prim and
--                ContentRegistry.
--   Conformance  src/zpf/conformance.py: State has the checker's attributes, Monad its method calls, which
--                give the state back after a raise too, Coverage is CoverageLedger, Records the checks of
--                a record, Undecodeds those of an Undecoded block, Handlers the _on_ methods, Closing
--                the rulings at the end of a session and of the file; observe, check and finish are in
--                the parent. Registry is no code of the source: it states who may name what. Unbroken
--                follows a participant's records to the ruling of finish on breaks.
--   Binary       src/zpf/binary.py: Stream is the byte stream and _read_up_to, Reader is BlockReader with
--                __next__, _to_block, _truncate and _check_trailing, Writer is BlockWriter with write, and
--                Checked is BlockWriter with check=True, which calls Conformance.
--   Order        src/zpf/order.py: Serial has seq_lt, serial_delta and their kin, Walk has _Walk, _Placer,
--                _StreamPlacer and _AckWalk, Merge has _Frontier and causal_merge, Stored has _StoredOrder
--                and verify_sequenced.
--   Reassembly   src/zpf/reassembly.py: Ranges has stream_layer, record_ranges, stream_extent and
--                fin_positions; StreamView.chunks and reassembled, taken to their end, are in the parent,
--                and the units, times and citing of StreamView in Units. Tiling, Extent, Sent and
--                Units/Offsets have the theorems on them.
--   Tests        the theorems at concrete inputs.
--
-- Objects that the code changes are records that an operation takes and returns. A byte is a number
-- below 256, a str is its UTF-8 bytes, an integer enum is its number, a dict is an association list, a
-- set a list without repetition. Native numbers have no bound; the widths of fields are those that the
-- constructors check. Texts of messages are not kept.
--
-- Fuel: iter_options has a turn per byte and one more, and each turn takes four bytes;
-- _read_up_to has a turn per byte asked for, and each read but the last gives one; the loop of
-- causal_merge has a turn per record and one more, and each turn but the last emits a record; the
-- loop over a reader has a turn per block and one more; the loop of _chunks has a turn per entry.
--
-- A stream is the pieces in which its bytes come; a sink takes all bytes. str.strip and str.lower, which
-- read tables of Unicode, are a parameter of ContentRegistry, and so is the type of its handlers. Of a
-- text that the checker shows in a message only whether there is one is kept. Not modelled:
-- src/zpf/reader.py, writer.py, transform.py, decode.py and sessionize.py, BlockReader with check=True,
-- and Record.content with the other views of a block's fields. jsonl.py rests on the json library;
-- cli.py and __init__.py are argument parsing, printing and re-exports.
pub mod Base
pub mod Intervals
pub mod Frame
pub mod Blocks
pub mod Content
pub mod Order
pub mod Conformance
pub mod Reassembly
pub mod Binary
pub mod Tests
