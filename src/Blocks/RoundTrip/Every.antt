-- ===== src/Blocks/RoundTrip/Every.antt =====
-- The round trip of every class of blocks.py.
use python_zipline.Base.{◌≡◌, true}
use python_zipline.Blocks.Types.{
  Block, file_header, source, decoder, session, participant, session_end, record_block, undecoded,
  discontinuity, name_resolution, end, custom, unknown_block,
}
use python_zipline.Blocks.Check.{custom_fits}
use python_zipline.Blocks.RoundTrip.{ReadsBack}
use python_zipline.Blocks.RoundTrip.Container.{
  IsFileHeader, IsEnd, file_header-ReadsBack, end-ReadsBack, custom-ReadsBack,
}
use python_zipline.Blocks.RoundTrip.Descriptors.{
  IsSource, IsDecoder, source-ReadsBack, decoder-ReadsBack,
}
use python_zipline.Blocks.RoundTrip.Sessions.{
  IsSession, IsParticipant, session-ReadsBack, participant-ReadsBack,
}
use python_zipline.Blocks.RoundTrip.SessionEnds.{IsSessionEnd, session_end-ReadsBack}
use python_zipline.Blocks.RoundTrip.Records.{IsRecord, record-ReadsBack}
use python_zipline.Blocks.RoundTrip.Streams.{
  IsUndecoded, IsDiscontinuity, IsNameResolution, undecoded-ReadsBack, discontinuity-ReadsBack,
  name_resolution-ReadsBack,
}

-- A block of a known class that holds what its class can: its constructor takes the fields, texts are
-- UTF-8, every option fits TLV, and the preserved options have ids that its table does not.
abbrev pub IsValid : Block → Type 0
IsValid (file_header x) = IsFileHeader x
IsValid (source x) = IsSource x
IsValid (decoder x) = IsDecoder x
IsValid (session x) = IsSession x
IsValid (participant x) = IsParticipant x
IsValid (session_end x) = IsSessionEnd x
IsValid (record_block x) = IsRecord x
IsValid (undecoded x) = IsUndecoded x
IsValid (discontinuity x) = IsDiscontinuity x
IsValid (name_resolution x) = IsNameResolution x
IsValid (end x) = IsEnd x
IsValid (custom x) = custom_fits x ≡ true
IsValid (unknown_block t c) = ⊥

-- A valid block of any of the twelve known classes is written without an error, and `parse_block`
-- reads what it wrote as the same block, every field and every preserved option.
pub block-ReadsBack : (b : Block) → IsValid b → ReadsBack b
block-ReadsBack (file_header x) v = file_header-ReadsBack x v
block-ReadsBack (source x) v = source-ReadsBack x v
block-ReadsBack (decoder x) v = decoder-ReadsBack x v
block-ReadsBack (session x) v = session-ReadsBack x v
block-ReadsBack (participant x) v = participant-ReadsBack x v
block-ReadsBack (session_end x) v = session_end-ReadsBack x v
block-ReadsBack (record_block x) v = record-ReadsBack x v
block-ReadsBack (undecoded x) v = undecoded-ReadsBack x v
block-ReadsBack (discontinuity x) v = discontinuity-ReadsBack x v
block-ReadsBack (name_resolution x) v = name_resolution-ReadsBack x v
block-ReadsBack (end x) v = end-ReadsBack x v
block-ReadsBack (custom x) v = custom-ReadsBack x v
block-ReadsBack (unknown_block t c) v = absurd v
