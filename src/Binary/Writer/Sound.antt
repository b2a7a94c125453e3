-- ===== src/Binary/Writer/Sound.antt =====
-- Blocks of blocks.py as frames of binary.py: their alignment and their types.
use python_zipline.Base.{==_iff, ◌%◌, ◌^◌, ◌<◌, ◌≡◌, refl, true, List, [], ◌∷◌, ◌==◌, length, arith}
use python_zipline.Blocks.Types.{
  Block, file_header, source, decoder, session, participant, session_end, record_block, undecoded,
  discontinuity, name_resolution, end, custom, unknown_block,
}
use python_zipline.Blocks.Dispatch.{block_type_of}
use python_zipline.Blocks.RoundTrip.{ReadsBack}
use python_zipline.Blocks.RoundTrip.Every.{IsValid, block-ReadsBack}
use python_zipline.Blocks.Aligned.{IsAligned, HoldsWhole, encode_block-IsAligned}
use python_zipline.Binary.Writer.{is_header}

abbrev pub AllValid : List Block → Type 0
AllValid [] = Unit {0}
AllValid (b ∷ bs) = IsValid b × AllValid bs

valid_type :
    (b : Block) → IsValid b → (block_type_of b < 2 ^ 16) × (is_header b ≡ (block_type_of b == 1))
unfolding block_type_of
valid_type (file_header x) v = (omega arith, refl)
valid_type (source x) v = (omega arith, refl)
valid_type (decoder x) v = (omega arith, refl)
valid_type (session x) v = (omega arith, refl)
valid_type (participant x) v = (omega arith, refl)
valid_type (session_end x) v = (omega arith, refl)
valid_type (record_block x) v = (omega arith, refl)
valid_type (undecoded x) v = (omega arith, refl)
valid_type (discontinuity x) v = (omega arith, refl)
valid_type (name_resolution x) v = (omega arith, refl)
valid_type (end x) v = (omega arith, refl)
valid_type (custom x) v = (omega arith, refl)
valid_type (unknown_block t c) v = absurd v

valid_whole : (b : Block) → IsValid b → HoldsWhole b
valid_whole (custom x) v = v
valid_whole (unknown_block t c) v = absurd v
valid_whole (file_header x) v = tt
valid_whole (source x) v = tt
valid_whole (decoder x) v = tt
valid_whole (session x) v = tt
valid_whole (participant x) v = tt
valid_whole (session_end x) v = tt
valid_whole (record_block x) v = tt
valid_whole (undecoded x) v = tt
valid_whole (discontinuity x) v = tt
valid_whole (name_resolution x) v = tt
valid_whole (end x) v = tt

-- A valid block is read back from what it writes, which is aligned.
pub record IsSound (b : Block) : Type 0 where
  pub reads_back : ReadsBack b
  pub aligned : (length reads_back.0 % 4 == 0) ≡ true
  pub narrow : block_type_of b < 2 ^ 16
  pub typed : is_header b ≡ (block_type_of b == 1)

valid-IsSound : (b : Block) → IsValid b → IsSound b
valid-IsSound b v =
    let back : ReadsBack b = block-ReadsBack b v in
    let even : IsAligned back.0 = encode_block-IsAligned b back.0 (valid_whole b v) back.1 in
    record {
      reads_back = back;
      aligned = (==_iff (length back.0 % 4) 0).1 even;
      narrow = (valid_type b v).0;
      typed = (valid_type b v).1;
    }

abbrev pub AllSound : List Block → Type 0
AllSound [] = Unit {0}
AllSound (b ∷ bs) = IsSound b × AllSound bs

pub valid-AllSound : (bs : List Block) → AllValid bs → AllSound bs
valid-AllSound [] v = tt
valid-AllSound (b ∷ bs) v = (valid-IsSound b v.0, valid-AllSound bs v.1)
