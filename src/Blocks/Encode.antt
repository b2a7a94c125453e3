-- ===== src/Blocks/Encode.antt =====
-- `_encode` of each block of blocks.py: the fixed body, then the options in ascending order of their
-- ids, then the preserved extras.
use python_zipline.Base.{ℕ, Option, none, some, List, [], ◌∷◌, ◌++◌, ◌==◌, if◌then◌else◌, length}
use python_zipline.Base.Int.{ℤ}
use python_zipline.Base.Outcome.{Outcome, ok, ◌>>=◌}
use python_zipline.Blocks.Types.{
  Bytes, RawOption, Span, FileHeader, Source, Decoder, Session, Participant, SessionEnd, Record,
  Undecoded, Discontinuity, NameResolution, End, Custom, Block, file_header, source, decoder,
  session, participant, session_end, record_block, undecoded, discontinuity, name_resolution, end,
  custom, unknown_block,
}
use python_zipline.Blocks.Values.{pack_span, pack_extent, chunks}
use python_zipline.Blocks.Options.{options, bytes_option, uint_option, i64_option, encode_raws}
use python_zipline.Frame.{pack, pack_i64, padded}

abbrev pub magic : ℕ
magic = 0x5A495046

abbrev pub end_magic : ℕ
end_magic = 0x5A454E44

-- `_encode_options`, behind the body.
abbrev pub with_body : Bytes → List RawOption → Outcome Bytes
with_body body os = encode_raws os >>= λ rest. ok (body ++ rest)

unfoldable pub file_header_options : FileHeader → List RawOption
file_header_options h =
    bytes_option 0x01 h.comment
    ++ (i64_option 0x10 h.time_epoch
        ++ (bytes_option 0x11 h.creator
            ++ (bytes_option 0x12 h.produced_by
                ++ (i64_option 0x13 h.produced_at
                    ++ (bytes_option 0x15 h.transform_params_digest ++ h.extra_options)))))

unfoldable pub file_header_body : FileHeader → Bytes
file_header_body h =
    pack 4 magic ++ (pack 2 h.version_major ++ (pack 2 h.version_minor ++ pack 8 h.tick_hz))

unfoldable pub source_options : Source → List RawOption
source_options s =
    bytes_option 0x01 s.comment
    ++ (bytes_option 0x20 s.uri
        ++ (bytes_option 0x21 s.digest ++ (uint_option 0x22 2 s.link_type ++ s.extra_options)))

unfoldable pub source_body : Source → Bytes
source_body s = pack 2 s.source_id ++ (pack 1 s.kind ++ pack 1 0)

unfoldable pub decoder_options : Decoder → List RawOption
decoder_options d =
    bytes_option 0x01 d.comment
    ++ (bytes_option 0x41 d.name
        ++ (bytes_option 0x42 d.version ++ (bytes_option 0x43 d.params_digest ++ d.extra_options)))

unfoldable pub decoder_body : Decoder → Bytes
decoder_body d = pack 2 d.decoder_id ++ (pack 1 d.output_layer ++ pack 1 0)

-- `skip_zero`: flags that are all clear are not written.
abbrev pub nonzero_option : ℕ → ℕ → ℕ → List RawOption
nonzero_option id width n = if n == 0 then [] else options id (pack width n ∷ [])

unfoldable pub session_options : Session → List RawOption
session_options s =
    bytes_option 0x01 s.comment
    ++ (bytes_option 0x50 s.proto
        ++ (bytes_option 0x51 s.flow_key
            ++ (nonzero_option 0x52 2 s.flags
                ++ (bytes_option 0x54 s.external_session_id ++ s.extra_options))))

unfoldable pub participant_options : Participant → List RawOption
participant_options p =
    bytes_option 0x01 p.comment
    ++ (options 0x60 p.endpoints
        ++ (uint_option 0x61 4 p.isn
            ++ (bytes_option 0x62 p.identity
                ++ (uint_option 0x63 1 p.tcp_role ++ p.extra_options))))

unfoldable pub participant_body : Participant → Bytes
participant_body p =
    pack 8 p.session_id ++ (pack 2 p.participant_id ++ (pack 1 p.adjacency ++ pack 1 0))

-- 65 535 bytes hold 3276 entries of 20 bytes and 2340 of 28.
abbrev pub max_extents_per_option : ℕ
max_extents_per_option = 3276

unfoldable pub session_end_options : SessionEnd → List RawOption
session_end_options s =
    bytes_option 0x01 s.comment
    ++ (bytes_option 0xC0 s.reason
        ++ (options 0xC1 (chunks pack_extent max_extents_per_option s.input_extents)
            ++ s.extra_options))

abbrev pub max_spans_per_option : ℕ
max_spans_per_option = 2340

unfoldable pub record_body : Record → Bytes
record_body r =
    pack 8 r.session_id
    ++ (pack 2 r.sender_pid
        ++ (pack 2 r.source_id
            ++ (pack_i64 r.timestamp
                ++ (pack 2 0 ++ (pack 2 r.flags ++ pack 4 (length r.payload))))))

-- What the generic walk of the spec table writes for a record.
unfoldable pub record_options : Record → List RawOption
record_options r =
    bytes_option 0x01 r.comment
    ++ (uint_option 0x70 4 r.seq_start
        ++ (uint_option 0x72 4 r.ack
            ++ (i64_option 0x73 r.ts_first
                ++ (options 0x80 (chunks pack_span max_spans_per_option r.spans)
                    ++ (uint_option 0x90 2 r.decoder_id
                        ++ (bytes_option 0x91 r.content_type
                            ++ (bytes_option 0x92 r.role ++ r.extra_options)))))))

-- The whole fixed-width options that a record packs at once: _OPT_U32, _OPT_I64, _OPT_U16.
unfoldable pub opt_u32 : ℕ → Option ℕ → Bytes
opt_u32 id none = []
opt_u32 id (some n) = pack 2 id ++ (pack 2 4 ++ pack 4 n)

unfoldable pub opt_i64 : ℕ → Option ℤ → Bytes
opt_i64 id none = []
opt_i64 id (some z) = pack 2 id ++ (pack 2 8 ++ pack_i64 z)

unfoldable pub opt_u16 : ℕ → Option ℕ → Bytes
opt_u16 id none = []
opt_u16 id (some n) = pack 2 id ++ (pack 2 2 ++ (pack 2 n ++ (0 ∷ 0 ∷ [])))

-- Record._encode: a fixed encoder in place of the walk.
unfoldable pub encode_record : Record → Outcome Bytes
unfolding opt_u32 opt_i64 opt_u16
encode_record r = do
  comment ← encode_raws (bytes_option 0x01 r.comment)
  packed ← encode_raws (options 0x80 (chunks pack_span max_spans_per_option r.spans))
  content_type ← encode_raws (bytes_option 0x91 r.content_type)
  role ← encode_raws (bytes_option 0x92 r.role)
  extras ← encode_raws r.extra_options
  ok (
      record_body r
      ++ (padded r.payload
          ++ (comment
              ++ (opt_u32 0x70 r.seq_start
                  ++ (opt_u32 0x72 r.ack
                      ++ (opt_i64 0x73 r.ts_first
                          ++ (packed
                              ++ (opt_u16 0x90 r.decoder_id
                                  ++ (content_type ++ (role ++ extras))))))))))

unfoldable pub undecoded_options : Undecoded → List RawOption
undecoded_options u =
    bytes_option 0x01 u.comment
    ++ (uint_option 0x90 2 u.decoder_id
        ++ (bytes_option 0xA0 u.reason ++ (bytes_option 0xA1 u.reason_class ++ u.extra_options)))

abbrev pub region_of_input : Undecoded → Span
region_of_input u = record {
  source_id = u.source_id;
  session_id = u.session_id;
  participant_id = u.participant_id;
  off_start = u.off_start;
  off_end = u.off_end;
}

unfoldable pub discontinuity_options : Discontinuity → List RawOption
discontinuity_options d =
    bytes_option 0x01 d.comment
    ++ (uint_option 0xD0 8 d.width ++ (bytes_option 0xD1 d.reason ++ d.extra_options))

unfoldable pub name_resolution_options : NameResolution → List RawOption
name_resolution_options n =
    bytes_option 0x01 n.comment
    ++ (bytes_option 0xB0 n.label ++ (bytes_option 0xB1 n.kind ++ n.extra_options))

-- The body of a block about one participant: `<QHH`, the last a reserved zero.
abbrev pub stream_body : ℕ → ℕ → Bytes
stream_body session_id participant_id = pack 8 session_id ++ (pack 2 participant_id ++ pack 2 0)

unfoldable pub end_options : End → List RawOption
end_options e = bytes_option 0x01 e.comment ++ e.extra_options

unfoldable pub custom_content : Custom → Bytes
custom_content c = pack 4 c.pen ++ (pack 2 c.subtype ++ (pack 2 0 ++ c.payload))

-- Block._encode
unfoldable pub encode_block : Block → Outcome Bytes
encode_block (file_header h) = with_body (file_header_body h) (file_header_options h)
encode_block (source s) = with_body (source_body s) (source_options s)
encode_block (decoder d) = with_body (decoder_body d) (decoder_options d)
encode_block (session s) = with_body (pack 8 s.session_id) (session_options s)
encode_block (participant p) = with_body (participant_body p) (participant_options p)
encode_block (session_end s) = with_body (pack 8 s.session_id) (session_end_options s)
encode_block (record_block r) = encode_record r
encode_block (undecoded u) = with_body (pack_span (region_of_input u)) (undecoded_options u)
encode_block (discontinuity d) =
    with_body (stream_body d.session_id d.participant_id) (discontinuity_options d)
encode_block (name_resolution n) =
    with_body (stream_body n.session_id n.participant_id) (name_resolution_options n)
encode_block (end e) = with_body (pack 4 end_magic) (end_options e)
encode_block (custom c) = ok (custom_content c)
encode_block (unknown_block block_type content) = ok content
