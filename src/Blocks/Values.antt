-- ===== src/Blocks/Values.antt =====
-- The option values of blocks.py and their codecs. A decoder of the source raises on a value that it
-- cannot interpret and the parser catches that: here it is `none`.
use python_zipline.Base.{
  ℕ, zero, suc, ◌-◌, ◌/◌, ◌%◌, Bool, false, ◌&&◌, Option, none, some, List, [], ◌∷◌, ◌++◌, ltb, leb,
  ◌==◌, if◌then◌else◌, length, take, drop,
}
use python_zipline.Base.Int.{ℤ}
use python_zipline.Blocks.Types.{Bytes, Text, Span, InputExtent}
use python_zipline.Frame.{pack, unpack, unpack_i64}

-- `bytes.decode("utf-8")`, as a test of the bytes: how many continuation bytes are owed, and the range
-- of the next one.
pub record Utf8 : Type 0 where
  pub owed : ℕ
  pub low : ℕ
  pub high : ℕ

abbrev ready : Utf8
ready = record { owed = 0; low = 0x80; high = 0xBF }

abbrev within : ℕ → ℕ → ℕ → Bool
within low high b = leb low b && leb b high

-- A first byte: plain, or the start of a sequence, or none that UTF-8 has.
utf8_first : ℕ → Option Utf8
utf8_first b =
    if ltb b 0x80
    then some ready
    else if within 0xC2 0xDF b
    then some (record { owed = 1; low = 0x80; high = 0xBF })
    else if b == 0xE0
    then some (record { owed = 2; low = 0xA0; high = 0xBF })
    else if b == 0xED
    then some (record { owed = 2; low = 0x80; high = 0x9F })
    else if within 0xE1 0xEF b
    then some (record { owed = 2; low = 0x80; high = 0xBF })
    else if b == 0xF0
    then some (record { owed = 3; low = 0x90; high = 0xBF })
    else if within 0xF1 0xF3 b
    then some (record { owed = 3; low = 0x80; high = 0xBF })
    else if b == 0xF4
    then some (record { owed = 3; low = 0x80; high = 0x8F })
    else none

utf8_step : Utf8 → ℕ → Option Utf8
unfolding utf8_first
utf8_step u b =
    if u.owed == 0
    then utf8_first b
    else if within u.low u.high b
    then some (record { owed = u.owed - 1; low = 0x80; high = 0xBF })
    else none

utf8_from : Option Utf8 → Bytes → Bool
unfolding utf8_step
utf8_from none bs = false
utf8_from (some u) [] = u.owed == 0
utf8_from (some u) (b ∷ bs) = utf8_from (utf8_step u b) bs

unfoldable pub is_utf8 : Bytes → Bool
unfolding utf8_from
is_utf8 bs = utf8_from (some ready) bs

pub data Value : Type 0 where
  text : Text → Value
  raw : Bytes → Value
  number : ℕ → Value
  integer : ℤ → Value
  spans : List Span → Value
  extents : List InputExtent → Value

-- The functions that decode an option's value.
pub data Codec : Type 0 where
  str u8 u16 u32 u64 i64 opaque span_list extent_list : Codec

-- A fixed-width `struct` code asks for exactly its width.
fixed : ℕ → Bytes → Option Value
fixed width bs = if length bs == width then some (number (unpack bs)) else none

fixed_i64 : Bytes → Option Value
fixed_i64 bs = if length bs == 8 then some (integer (unpack_i64 bs)) else none

-- SPAN_ENTRY, `<HHQQQ`
unfoldable pub pack_span : Span → Bytes
pack_span s =
    pack 2 s.source_id
    ++ (pack 2 s.participant_id
        ++ (pack 8 s.session_id ++ (pack 8 s.off_start ++ pack 8 s.off_end)))

-- The number of `width` bytes that begins at `start`.
abbrev pub field_at : ℕ → ℕ → Bytes → ℕ
field_at start width bs = unpack (take width (drop start bs))

unfoldable pub unpack_span : Bytes → Span
unpack_span bs = record {
  source_id = field_at 0 2 bs;
  session_id = field_at 4 8 bs;
  participant_id = field_at 2 2 bs;
  off_start = field_at 12 8 bs;
  off_end = field_at 20 8 bs;
}

-- The test of `Span.__post_init__` that unpacked numbers can fail.
abbrev forward : Span → Bool
forward s = leb s.off_start s.off_end

abbrev cons_span : Span → Option (List Span) → Option (List Span)
cons_span s none = none
cons_span s (some rest) = if forward s then some (s ∷ rest) else none

unfoldable pub unpack_spans : ℕ → Bytes → Option (List Span)
unpack_spans zero bs = some []
unpack_spans (suc n) bs = cons_span (unpack_span bs) (unpack_spans n (drop 28 bs))

abbrev as_spans : Option (List Span) → Option Value
as_spans none = none
as_spans (some ss) = some (spans ss)

-- _unpack_spans_chunk
unpack_spans_chunk : Bytes → Option Value
unfolding unpack_spans
unpack_spans_chunk bs =
    if length bs % 28 == 0 then as_spans (unpack_spans (length bs / 28) bs) else none

-- INPUT_EXTENT_ENTRY, `<HHQQ`
unfoldable pub pack_extent : InputExtent → Bytes
pack_extent e =
    pack 2 e.source_id ++ (pack 2 e.participant_id ++ (pack 8 e.session_id ++ pack 8 e.extent))

unfoldable pub unpack_extent : Bytes → InputExtent
unpack_extent bs = record {
  source_id = field_at 0 2 bs;
  session_id = field_at 4 8 bs;
  participant_id = field_at 2 2 bs;
  extent = field_at 12 8 bs;
}

unfoldable pub unpack_extents : ℕ → Bytes → List InputExtent
unfolding unpack_extent
unpack_extents zero bs = []
unpack_extents (suc n) bs = unpack_extent bs ∷ unpack_extents n (drop 20 bs)

-- _unpack_input_extents_chunk
unpack_input_extents_chunk : Bytes → Option Value
unfolding unpack_extents
unpack_input_extents_chunk bs =
    if length bs % 20 == 0 then some (extents (unpack_extents (length bs / 20) bs)) else none

unfoldable pub decode : Codec → Bytes → Option Value
unfolding fixed fixed_i64 unpack_spans_chunk unpack_input_extents_chunk
decode str bs = if is_utf8 bs then some (text bs) else none
decode u8 bs = fixed 1 bs
decode u16 bs = fixed 2 bs
decode u32 bs = fixed 4 bs
decode u64 bs = fixed 8 bs
decode i64 bs = fixed_i64 bs
decode opaque bs = some (raw bs)
decode span_list bs = unpack_spans_chunk bs
decode extent_list bs = unpack_input_extents_chunk bs

-- `b"".join(entry.pack() for entry in …)`
unfoldable pub join_packed : {A : Type 0} → (A → Bytes) → List A → Bytes
join_packed pack_entry [] = []
join_packed pack_entry (e ∷ es) = pack_entry e ++ join_packed pack_entry es

-- The loop of `_chunks`; it is given as many turns as there are entries.
unfoldable pub chunks_loop : {A : Type 0} → ℕ → (A → Bytes) → ℕ → List A → List Bytes
chunks_loop zero pack_entry per_option entries = []
chunks_loop (suc fuel) pack_entry per_option [] = []
chunks_loop (suc fuel) pack_entry per_option (e ∷ es) =
    join_packed pack_entry (take per_option (e ∷ es))
    ∷ chunks_loop fuel pack_entry per_option (drop per_option (e ∷ es))

-- _chunks
unfoldable pub chunks : {A : Type 0} → (A → Bytes) → ℕ → List A → List Bytes
unfolding chunks_loop
chunks pack_entry per_option entries = chunks_loop (length entries) pack_entry per_option entries
