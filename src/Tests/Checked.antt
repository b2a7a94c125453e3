-- ===== src/Tests/Checked.antt =====
-- The theorems on the checking writer of binary.py at a concrete file.
use mathlib.Core.List.{append-nil}
use python_zipline.Base.{
  ◌≡◌, refl, ap, ◌∙◌, true, List, [], ◌∷◌, ◌++◌, map, take, drop, take-append-drop,
}
use python_zipline.Base.Outcome.{ok}
use python_zipline.Blocks.Types.{Block, file_header, session, participant, end}
use python_zipline.Blocks.Options.{encode_raws}
use python_zipline.Blocks.Check.{session_fits, participant_fits}
use python_zipline.Blocks.Encode.{
  encode_block, file_header_body, file_header_options, end_options, session_options,
  participant_body, participant_options,
}
use python_zipline.Blocks.Dispatch.{block_type_of, to_bytes}
use python_zipline.Blocks.RoundTrip.Sessions.{IsSession, IsParticipant}
use python_zipline.Frame.{pack}
use python_zipline.Conformance.State.{checker}
use python_zipline.Conformance.Registry.{registry}
use python_zipline.Conformance.{handle, admit, absorb, observe, check, settle, finish}
use python_zipline.Conformance.Coverage.{observe_coverage, findings}
use python_zipline.Conformance.Records.{found}
use python_zipline.Conformance.Closing.{
  check_stream, breaks_of, sort_participants, close_if, check_participant, close_each,
  close_participants, ended_session, close_session, close_sessions, check_unmarked_breaks,
}
use python_zipline.Conformance.Handlers.{
  require_live_session, on_file_header, on_session, participant_state, on_participant, on_end,
}
use python_zipline.Base.Dict.{lookup, has, insert, erase}
use python_zipline.Binary.Stream.{Stream, left}
use python_zipline.Binary.Reader.{block_reader, list_blocks}
use python_zipline.Binary.Writer.{block_writer, write_content}
use python_zipline.Binary.Writer.ReadBack.{fresh, ListsBack}
use python_zipline.Binary.Checked.{
  CheckedWriter, checked_writer, checked_write, checked_close, checked_write_all,
}
use python_zipline.Binary.Checked.Passes.{checked_file_passes}
use python_zipline.Binary.Checked.Refused.{CountedUnwritten, checked_write-CountedUnwritten}
use python_zipline.Tests.Binary.{the_header, the_end, the_header-IsFileHeader, the_end-IsEnd}
use python_zipline.Tests.Conformance.{the_session, the_participant, empty-Matches}

abbrev small_file : List Block
small_file = session the_session ∷ participant the_participant ∷ end the_end ∷ []

abbrev small_writer : CheckedWriter
small_writer =
    (checked_write_all (map fresh (file_header the_header ∷ small_file)) checked_writer).1

the_session-IsSession : IsSession the_session
unfolding session_fits session_options
the_session-IsSession = record {
  fits = refl;
  comment = tt;
  proto = tt;
  flow_key = tt;
  options = tt;
  extras = tt;
}

the_participant-IsParticipant : IsParticipant the_participant
unfolding participant_fits participant_options
the_participant-IsParticipant = record {
  fits = refl;
  comment = tt;
  endpoints = tt;
  identity = tt;
  options = tt;
  extras = tt;
}

written_and_closed :
    (checked_write_all (map fresh (file_header the_header ∷ small_file)) checked_writer
      ≡ (ok tt, small_writer))
    × ((checked_close small_writer).0 ≡ ok tt)
unfolding handle admit absorb observe check settle finish observe_coverage findings check_stream
    breaks_of sort_participants close_if check_participant close_each close_participants
    ended_session close_session close_sessions check_unmarked_breaks require_live_session found
    on_file_header on_session participant_state on_participant on_end lookup has insert erase
    checked_write_all checked_write checked_close checked_writer block_writer write_content to_bytes
    encode_block encode_raws file_header_options file_header_body pack end_options block_type_of
    session_options participant_body participant_options
written_and_closed = (refl, refl)

-- The bytes in three pieces, one of them empty.
abbrev small_pieces : Stream
small_pieces = take 5 small_writer.writer.sink ∷ [] ∷ drop 5 small_writer.writer.sink ∷ []

left-small_pieces : left small_pieces ≡ small_writer.writer.sink
unfolding left
left-small_pieces =
    ap (λ t. take 5 small_writer.writer.sink ++ t) (append-nil (drop 5 small_writer.writer.sink))
    ∙ take-append-drop 5 small_writer.writer.sink

checked_file_passes_example :
    ListsBack
      (file_header the_header ∷ small_file)
      small_writer.writer.ended
      (list_blocks 5 (block_reader small_pieces true))
    × ((check (file_header the_header ∷ small_file) checker).0 ≡ ok tt)
    × ((finish (check (file_header the_header ∷ small_file) checker).1).0 ≡ ok tt)
checked_file_passes_example =
    checked_file_passes the_header small_file small_writer small_pieces true
      (
        the_header-IsFileHeader,
        (the_session-IsSession, (the_participant-IsParticipant, (the_end-IsEnd, tt))),
      )
      written_and_closed.0 written_and_closed.1 left-small_pieces

abbrev new_writer : CheckedWriter
new_writer = record { writer = block_writer; checks = checker }

checked_write-CountedUnwritten_example :
    CountedUnwritten registry
      (fresh (file_header the_header))
      block_writer
      (checked_write (fresh (file_header the_header)) new_writer)
checked_write-CountedUnwritten_example =
    checked_write-CountedUnwritten (fresh (file_header the_header)) registry new_writer
      empty-Matches
