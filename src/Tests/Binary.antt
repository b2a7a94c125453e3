-- ===== src/Tests/Binary.antt =====
-- The theorems on binary.py at a concrete file.
use python_zipline.Base.{
  ◌+◌, ◌≡◌, refl, true, false, none, some, List, [], ◌∷◌, ◌++◌, map, length, take, drop, arith,
}
use python_zipline.Base.Outcome.{ok}
use python_zipline.Blocks.Types.{Bytes, FileHeader, record_block, End, Block, file_header, end}
use python_zipline.Blocks.Options.{encode_raws, parse_options}
use python_zipline.Blocks.Check.{file_header_fits, unsupported_version}
use python_zipline.Blocks.Encode.{encode_block, file_header_body, file_header_options, end_options}
use python_zipline.Blocks.Parse.{parse_file_header}
use python_zipline.Blocks.Dispatch.{block_type_of, parse_block, parse_end, to_bytes}
use python_zipline.Blocks.RoundTrip.{ReadsBack}
use python_zipline.Blocks.RoundTrip.Container.{IsFileHeader, IsEnd}
use python_zipline.Tests.Blocks.{the_record, the_record-IsRecord}
use mathlib.Core.List.{append-nil}
use python_zipline.Base.{ap, ◌∙◌, take-append-drop}
use python_zipline.Blocks.Encode.{encode_record, record_body}
use python_zipline.Blocks.Values.{chunks, join_packed, pack_span}
use python_zipline.Frame.{
  pack_i64, padded, pad4, option_bytes, encode_option, pack, unpack, iter_options,
}
use python_zipline.Binary.Stream.{Stream, read_up_to, left, Splits, read_up_to-Splits}
use python_zipline.Binary.Reader.{block_reader, list_blocks}
use python_zipline.Binary.Reader.Step.{Framed, IsFramed}
use python_zipline.Binary.Reader.Frames.{join, Listed}
use python_zipline.Binary.Reader.Cut.{list_blocks-Listed}
use python_zipline.Binary.Writer.{BlockWriter, block_writer, frame_bytes, write, write_all}
use python_zipline.Binary.Writer.Keeps.{Write, write-Write}
use python_zipline.Binary.Writer.ReadBack.{fresh, ListsBack, write_all-ListsBack}

read_up_to-Splits_example :
    Splits 5
      (left ((1 ∷ 2 ∷ []) ∷ [] ∷ (3 ∷ 4 ∷ 5 ∷ 6 ∷ []) ∷ []))
      (read_up_to ((1 ∷ 2 ∷ []) ∷ [] ∷ (3 ∷ 4 ∷ 5 ∷ 6 ∷ []) ∷ []) 5)
read_up_to-Splits_example = read_up_to-Splits ((1 ∷ 2 ∷ []) ∷ [] ∷ (3 ∷ 4 ∷ 5 ∷ 6 ∷ []) ∷ []) 5

abbrev pub the_header : FileHeader
the_header = record {
  tick_hz = 1000;
  version_major = 0;
  version_minor = 24;
  time_epoch = none;
  creator = none;
  produced_by = none;
  produced_at = none;
  transform_params_digest = none;
  comment = none;
  extra_options = [];
}

abbrev pub the_end : End
the_end = record { comment = none; extra_options = [] }

abbrev header_content : Bytes
header_content = 70 ∷ 80 ∷ 73 ∷ 90 ∷ 0 ∷ 0 ∷ 24 ∷ 0 ∷ 232 ∷ 3 ∷ 0 ∷ 0 ∷ 0 ∷ 0 ∷ 0 ∷ 0 ∷ []

abbrev end_content : Bytes
end_content = 68 ∷ 78 ∷ 69 ∷ 90 ∷ []

the_header-ReadsBack : ReadsBack (file_header the_header)
unfolding encode_block parse_block encode_raws file_header_options file_header_body pack
    block_type_of parse_file_header unpack unsupported_version parse_options iter_options
    file_header_fits
the_header-ReadsBack = (header_content, refl, refl)

the_end-ReadsBack : ReadsBack (end the_end)
unfolding encode_block parse_block encode_raws end_options pack block_type_of parse_end unpack
    parse_options iter_options
the_end-ReadsBack = (end_content, refl, refl)

pub the_header-IsFileHeader : IsFileHeader the_header
unfolding file_header_fits file_header_options unsupported_version
the_header-IsFileHeader = record {
  fits = refl;
  comment = tt;
  creator = tt;
  produced_by = tt;
  transform_params_digest = tt;
  options = tt;
  extras = tt;
}

pub the_end-IsEnd : IsEnd the_end
unfolding end_options
the_end-IsEnd = record { comment = tt; options = tt; extras = tt }

abbrev the_blocks : List Block
the_blocks = file_header the_header ∷ record_block the_record ∷ end the_end ∷ []

abbrev the_writer : BlockWriter
the_writer = (write_all (map fresh the_blocks) block_writer).1

writes : write_all (map fresh the_blocks) block_writer ≡ (ok tt, the_writer)
unfolding write_all write block_writer to_bytes encode_block encode_raws file_header_options
    file_header_body pack end_options block_type_of encode_record chunks encode_option join_packed
    pack_span record_body pack_i64 padded pad4 option_bytes
writes = refl

-- The bytes in three pieces, one of them empty.
abbrev pieces : Stream
pieces = take 5 the_writer.sink ∷ [] ∷ drop 5 the_writer.sink ∷ []

left-pieces : left pieces ≡ the_writer.sink
unfolding left
left-pieces =
    ap (λ t. take 5 the_writer.sink ++ t) (append-nil (drop 5 the_writer.sink))
    ∙ take-append-drop 5 the_writer.sink

write_all-ListsBack_example :
    ListsBack the_blocks the_writer.ended (list_blocks 4 (block_reader pieces true))
write_all-ListsBack_example =
    write_all-ListsBack the_header (record_block the_record ∷ end the_end ∷ []) the_writer pieces
      true (the_header-IsFileHeader, (the_record-IsRecord, (the_end-IsEnd, tt))) writes left-pieces

write-Write_example :
    Write (fresh (end the_end)) block_writer (write (fresh (end the_end)) block_writer)
write-Write_example = write-Write (fresh (end the_end)) block_writer

abbrev the_sink : Bytes
the_sink =
    (1 ∷ 0 ∷ 0 ∷ 0 ∷ 16 ∷ 0 ∷ 0 ∷ 0 ∷ header_content)
    ++ (65 ∷ 0 ∷ 0 ∷ 0 ∷ 4 ∷ 0 ∷ 0 ∷ 0 ∷ end_content)

abbrev header_frame : Framed
header_frame = record {
  block_type = 1;
  content = header_content;
  object = record { block = file_header the_header; content = some header_content };
}

abbrev end_frame : Framed
end_frame = record {
  block_type = 65;
  content = end_content;
  object = record { block = end the_end; content = some end_content };
}

header_frame-IsFramed : IsFramed header_frame
header_frame-IsFramed = record {
  narrow = omega arith;
  short = omega arith;
  aligned = refl;
  parses = unfold block_type_of the_header-ReadsBack in the_header-ReadsBack.2;
}

end_frame-IsFramed : IsFramed end_frame
end_frame-IsFramed = record {
  narrow = omega arith;
  short = omega arith;
  aligned = refl;
  parses = unfold block_type_of the_end-ReadsBack in the_end-ReadsBack.2;
}

-- Two bytes of the End block's content are missing.
cut_bytes : left (take 34 the_sink ∷ []) ≡ take 34 (join (header_frame ∷ end_frame ∷ []))
unfolding left frame_bytes pack
cut_bytes = refl

list_blocks-Listed_example :
    Listed false 34
      (header_frame ∷ end_frame ∷ [])
      false
      (list_blocks (length (end_frame ∷ []) + 2) (block_reader (take 34 the_sink ∷ []) false))
list_blocks-Listed_example =
    list_blocks-Listed the_header header_frame (end_frame ∷ []) 34 false (take 34 the_sink ∷ [])
      (header_frame-IsFramed, refl, refl, (end_frame-IsFramed, refl, (λ e. refl), tt)) cut_bytes
      (omega arith)
