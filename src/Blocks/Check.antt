-- ===== src/Blocks/Check.antt =====
-- The `__post_init__` checks of blocks.py: a constructor returns the block or raises `EncodeError`.
use python_zipline.Base.{
  ℕ, ◌%◌, ◌^◌, Bool, true, not, ◌&&◌, Option, none, some, ltb, leb, ◌==◌, if◌then◌else◌, length,
}
use python_zipline.Base.Int.{ℤ, pos_part, neg_part}
use python_zipline.Base.Outcome.{Outcome, ok, raised, encode}
use python_zipline.Blocks.Types.{
  Span, InputExtent, FileHeader, Source, Decoder, Session, Participant, SessionEnd, Record,
  Undecoded, Discontinuity, NameResolution, Custom,
}

-- _check_uint
abbrev pub fits : ℕ → ℕ → Bool
fits bits value = ltb value (2 ^ bits)

-- _check_uint_opt
abbrev pub fits_opt : ℕ → Option ℕ → Bool
fits_opt bits none = true
fits_opt bits (some value) = fits bits value

-- _check_i64
abbrev pub fits_i64 : ℤ → Bool
fits_i64 z = ltb (pos_part z) (2 ^ 63) && leb (neg_part z) (2 ^ 63)

-- _check_i64_opt
abbrev pub fits_i64_opt : Option ℤ → Bool
fits_i64_opt none = true
fits_i64_opt (some z) = fits_i64 z

abbrev pub checked {ℓ} : {A : Type ℓ} → (A → Bool) → A → Outcome A
checked test a = if test a then ok a else raised encode

-- SPEC_VERSION is (0, 24): while the major is 0 the minor must be the one implemented.
unfoldable pub unsupported_version : ℕ → ℕ → Bool
unsupported_version version_major version_minor =
    if not (version_major == 0) then true else not (version_minor == 24)

unfoldable pub span_fits : Span → Bool
span_fits s =
    fits 16 s.source_id
    && (fits 64 s.session_id
        && (fits 16 s.participant_id
            && (fits 64 s.off_start && (fits 64 s.off_end && leb s.off_start s.off_end))))

unfoldable pub extent_fits : InputExtent → Bool
extent_fits e =
    fits 16 e.source_id && (fits 64 e.session_id && (fits 16 e.participant_id && fits 64 e.extent))

unfoldable pub file_header_fits : FileHeader → Bool
unfolding unsupported_version
file_header_fits h =
    fits 64 h.tick_hz
    && (not (h.tick_hz == 0)
        && (fits 16 h.version_minor
            && (not (unsupported_version h.version_major h.version_minor)
                && (fits_i64_opt h.time_epoch && fits_i64_opt h.produced_at))))

unfoldable pub source_fits : Source → Bool
source_fits s = fits 16 s.source_id && (fits 8 s.kind && fits_opt 16 s.link_type)

unfoldable pub decoder_fits : Decoder → Bool
decoder_fits d = fits 16 d.decoder_id && fits 8 d.output_layer

unfoldable pub session_fits : Session → Bool
session_fits s = fits 64 s.session_id && fits 16 s.flags

unfoldable pub participant_fits : Participant → Bool
participant_fits p =
    fits 64 p.session_id
    && (fits 16 p.participant_id
        && (fits 8 p.adjacency && (fits_opt 32 p.isn && fits_opt 8 p.tcp_role)))

unfoldable pub session_end_fits : SessionEnd → Bool
session_end_fits s = fits 64 s.session_id

unfoldable pub record_fits : Record → Bool
record_fits r =
    fits 64 r.session_id
    && (fits 16 r.sender_pid
        && (fits 16 r.source_id
            && (fits_i64 r.timestamp
                && (fits 16 r.flags
                    && (fits_opt 32 r.seq_start
                        && (fits_opt 32 r.ack
                            && (fits_i64_opt r.ts_first
                                && (fits_opt 16 r.decoder_id && fits 32 (length r.payload)))))))))

unfoldable pub undecoded_fits : Undecoded → Bool
undecoded_fits u =
    fits 16 u.source_id
    && (fits 64 u.session_id
        && (fits 16 u.participant_id
            && (fits 64 u.off_start && (fits 64 u.off_end && fits_opt 16 u.decoder_id))))

unfoldable pub discontinuity_fits : Discontinuity → Bool
discontinuity_fits d = fits 64 d.session_id && (fits 16 d.participant_id && fits_opt 64 d.width)

unfoldable pub name_resolution_fits : NameResolution → Bool
name_resolution_fits n = fits 64 n.session_id && fits 16 n.participant_id

unfoldable pub custom_fits : Custom → Bool
custom_fits c = fits 32 c.pen && (fits 16 c.subtype && length c.payload % 4 == 0)

unfoldable pub unknown_fits : ℕ → Bool
unknown_fits block_type = fits 16 block_type
