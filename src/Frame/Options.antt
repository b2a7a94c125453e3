-- ===== src/Frame/Options.antt =====
-- `iter_options` of _frame.py: the loop's equation, and the options that `encode_option` wrote.
use mathlib.Core.Path.{ap₂}
use mathlib.Core.List.{append_assoc}
use python_zipline.Base.{
  ℕ, zero, suc, ◌+◌, ◌^◌, ◌≤◌, ◌<◌, ◌≡◌, refl, ap, ◌∙◌, false, List, [], ◌∷◌, ◌++◌, ltb,
  if◌then◌else◌, length, take, drop, All, arith, length-append, length-replicate, length-drop,
  take-append, drop-append,
}
use python_zipline.Base.Outcome.{Outcome, ok, raised, structural}
use python_zipline.Blocks.Types.{Bytes, RawOption}
use python_zipline.Frame.{
  pack, unpack, pad4, padded, max_option_value, option_bytes, cons_option, option_turn, iter_turn,
  iter_loop, iter_options,
}
use python_zipline.Frame.Words.{unpack-pack}

-- A turn asks for the loop at one shorter region only.
iter_turn-cong :
    (region : Bytes) (f g : Bytes → Outcome (List RawOption))
    → ((r : Bytes) → length r < length region → f r ≡ g r)
    → iter_turn region f ≡ iter_turn region g
unfolding iter_turn
iter_turn-cong [] f g h = refl
iter_turn-cong (a ∷ []) f g h = refl
iter_turn-cong (a ∷ b ∷ []) f g h = refl
iter_turn-cong (a ∷ b ∷ c ∷ []) f g h = refl
iter_turn-cong (a ∷ b ∷ c ∷ d ∷ rest) f g h =
    let len : ℕ = unpack (c ∷ d ∷ []) in
    let left : Bytes = drop (len + pad4 len) rest in
    let shorter : length left < length (a ∷ b ∷ c ∷ d ∷ rest) =
      omega (arith, length-drop (len + pad4 len) rest) in
    ap
      (λ more.
        if ltb (length rest) len
        then raised structural
        else cons_option (record { option_id = unpack (a ∷ b ∷ []); value = take len rest }) more)
      (h left shorter)

iter_loop_fuel :
    (f g : ℕ) (region : Bytes)
    → length region < f
    → length region < g
    → iter_loop f region ≡ iter_loop g region
unfolding iter_loop
iter_loop_fuel zero g region h k = absurd (omega arith)
iter_loop_fuel (suc f) zero region h k = absurd (omega arith)
iter_loop_fuel (suc f) (suc g) region h k =
    iter_turn-cong region (iter_loop f) (iter_loop g)
      (λ r l. iter_loop_fuel f g r (omega arith) (omega arith))

-- `iter_options` is the loop of the source with no bound on its turns: its fuel is always enough.
pub iter_options_loop : (region : Bytes) → iter_options region ≡ iter_turn region iter_options
unfolding iter_options
iter_options_loop region =
    iter_turn-cong region (iter_loop (length region)) (λ r. iter_loop (suc (length r)) r)
      (λ r l. iter_loop_fuel (length region) (suc (length r)) r l (omega arith))

abbrev pub IsOption : RawOption → Type 0
IsOption o = (o.option_id < 2 ^ 16) × (length o.value ≤ max_option_value)

pub length-padded : (v : Bytes) → length (padded v) ≡ length v + pad4 (length v)
unfolding padded
length-padded v =
    length-append v _ ∙ ap (λ t. length v + t) (length-replicate {A = ℕ} (pad4 (length v)) 0)

pub take-padded : (v rest : Bytes) → take (length v) (padded v ++ rest) ≡ v
unfolding padded
take-padded v rest = rw append_assoc (take-append v _)

pub drop-padded : (v rest : Bytes) → drop (length v + pad4 (length v)) (padded v ++ rest) ≡ rest
drop-padded v rest = rw (← length-padded v) (drop-append (padded v) rest)

option_turn_back :
    (o : RawOption) (rest : Bytes) (next : Bytes → Outcome (List RawOption))
    → option_turn o.option_id (length o.value) (padded o.value ++ rest) next
      ≡ cons_option o (next rest)
unfolding option_turn
option_turn_back o rest next =
    let enough : ltb (length (padded o.value ++ rest)) (length o.value) ≡ false =
      ground (arith, length-append (padded o.value) rest, length-padded o.value) in
    rw (enough, take-padded o.value rest, drop-padded o.value rest)

-- Behind an encoded option the loop reads that option, and goes on with the bytes that follow it.
pub iter_options-option_bytes :
    (o : RawOption) (rest : Bytes)
    → IsOption o
    → iter_options (option_bytes o.option_id o.value ++ rest) ≡ cons_option o (iter_options rest)
unfolding option_bytes iter_turn pack
iter_options-option_bytes o rest h =
    let id : unpack (pack 2 o.option_id) ≡ o.option_id = unpack-pack 2 o.option_id (omega arith) in
    let len : unpack (pack 2 (length o.value)) ≡ length o.value =
      unpack-pack 2 (length o.value) (omega arith) in
    iter_options_loop _
    ∙ ap₂ (λ i l. option_turn i l (padded o.value ++ rest) iter_options) id len
    ∙ option_turn_back o rest iter_options

-- The options of a region, one after the other.
unfoldable pub region_of : List RawOption → Bytes
region_of [] = []
region_of (o ∷ os) = option_bytes o.option_id o.value ++ region_of os

-- `iter_options` reads back every list of options that TLV can hold, whatever their ids and values.
pub iter_options-region_of :
    (os : List RawOption) → All IsOption os → iter_options (region_of os) ≡ ok os
unfolding region_of
iter_options-region_of [] h = iter_options_loop [] ∙ unfold iter_turn in refl
iter_options-region_of (o ∷ os) h =
    iter_options-option_bytes o (region_of os) h.0
    ∙ ap (cons_option o) (iter_options-region_of os h.1)
