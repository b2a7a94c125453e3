-- ===== src/Tests/Content.antt =====
-- The theorems on content.py at concrete labels.
use python_zipline.Base.{ℕ, ◌≡◌, refl, none, some, [], ◌∷◌, if◌then◌else◌, arith}
use python_zipline.Base.Int.{negsuc}
use python_zipline.Base.Dict.{nat_eq, insert, lookup}
use python_zipline.Blocks.Types.{Text}
use python_zipline.Content.{
  ContentType, integer_value, decode_prim, ContentRegistry, content_registry, register_mime,
  media_type_of, find_handler, partition,
}
use python_zipline.Content.Integers.{two_complement, decode_prim-two_complement}
use python_zipline.Content.Registry.{
  Registration, mime_type, register, handler_of, speaks_for, find_handler-register,
}

-- i16, -2
decode_prim-two_complement_example :
    decode_prim (two_complement 2 (negsuc 1)) (105 ∷ 49 ∷ 54 ∷ []) ≡ some (integer_value (negsuc 1))
decode_prim-two_complement_example =
    decode_prim-two_complement (105 ∷ 49 ∷ 54 ∷ []) 2 (negsuc 1) (unfold lookup in refl)
      (omega arith, omega arith)

-- A handler for the media type a, on a registry without handlers; the texts here need no stripping.
abbrev as_is : Text → Text
as_is t = t

abbrev for_a : Registration ℕ
for_a = mime_type (97 ∷ []) 5

abbrev with_a : ContentRegistry ℕ
with_a = record content_registry { mime = (97 ∷ [], 5) ∷ [] }

abbrev labelled : ContentType
labelled = record { scheme = 109 ∷ 105 ∷ 109 ∷ 101 ∷ []; value = 97 ∷ 59 ∷ 98 ∷ [] }

find_handler-register_example : find_handler as_is labelled none with_a ≡ (
    if speaks_for as_is for_a labelled none
    then some (handler_of for_a)
    else find_handler as_is labelled none content_registry)
find_handler-register_example =
    find_handler-register as_is for_a labelled none content_registry with_a
      (unfold register register_mime media_type_of insert partition in refl)
