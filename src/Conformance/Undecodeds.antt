-- ===== src/Conformance/Undecodeds.antt =====
-- conformance.py: the rules of an Undecoded block, and the words of blocks.py that they turn on.
pub mod Classes
use python_zipline.Base.{
  ℕ, Bool, true, false, not, ◌&&◌, ◌||◌, Option, none, some, List, [], ◌∷◌, ◌==◌, if◌then◌else◌,
  is_some,
}
use python_zipline.Base.Dict.{nat_eq, list_eq, Dict, lookup, has}
use python_zipline.Base.Outcome.{Fault, semantic, Outcome, ok, raised, ◌>>=◌, ◌>>◌, guard}
use python_zipline.Blocks.Types.{Text, Undecoded}

-- bytes, hole
abbrev pub bytes_class : Text
bytes_class = 98 ∷ 121 ∷ 116 ∷ 101 ∷ 115 ∷ []

abbrev pub hole_class : Text
hole_class = 104 ∷ 111 ∷ 108 ∷ 101 ∷ []

-- dropped
abbrev pub dropped : Text
dropped = 100 ∷ 114 ∷ 111 ∷ 112 ∷ 112 ∷ 101 ∷ 100 ∷ []

-- undecodable, skipped, dropped, gap, truncated
abbrev pub undecoded_reasons : Dict Text Text
undecoded_reasons =
    (117 ∷ 110 ∷ 100 ∷ 101 ∷ 99 ∷ 111 ∷ 100 ∷ 97 ∷ 98 ∷ 108 ∷ 101 ∷ [], bytes_class)
    ∷ (115 ∷ 107 ∷ 105 ∷ 112 ∷ 112 ∷ 101 ∷ 100 ∷ [], bytes_class)
    ∷ (dropped, bytes_class)
    ∷ (103 ∷ 97 ∷ 112 ∷ [], hole_class)
    ∷ (116 ∷ 114 ∷ 117 ∷ 110 ∷ 99 ∷ 97 ∷ 116 ∷ 101 ∷ 100 ∷ [], hole_class)
    ∷ []

-- `reason or ""`
abbrev pub reason_or_empty : Option Text → Text
reason_or_empty none = []
reason_or_empty (some reason) = reason

unfoldable pub canonical_class : Option Text → Option Text
unfolding lookup
canonical_class reason = lookup (reason_or_empty reason) undecoded_reasons

abbrev pub first_some : Option Text → Option Text → Option Text
first_some none o = o
first_some (some t) o = some t

-- Undecoded.recoverability: the word first.
unfoldable pub recoverability : Undecoded → Option Text
recoverability u = first_some (canonical_class u.reason) u.reason_class

-- _reason_class: the option first.
unfoldable pub reason_class_of : Undecoded → Option Text
reason_class_of u = first_some u.reason_class (canonical_class u.reason)

abbrev pub is_class : Option Text → Text → Bool
is_class none t = false
is_class (some u) t = list_eq.beq u t

unfoldable pub agrees : Text → Option Text → Bool
agrees reason_class none = true
agrees reason_class (some canonical) = list_eq.beq reason_class canonical

unfoldable pub check_class : Option Text → Option Text → Option Text → Outcome (Unit {0})
unfolding agrees
check_class none reason canonical = guard (not (is_some reason) || is_some canonical) semantic
check_class (some reason_class) reason canonical = do
  guard (list_eq.beq reason_class bytes_class || list_eq.beq reason_class hole_class) semantic
  guard (agrees reason_class canonical) semantic

-- _check_reason_class
unfoldable pub check_reason_class : Undecoded → Outcome (Unit {0})
unfolding check_class
check_reason_class u = check_class u.reason_class u.reason (canonical_class u.reason)

-- _check_against_capture
unfoldable pub check_against_capture : Undecoded → Outcome (Unit {0})
check_against_capture u = do
  guard (u.session_id == 0 && u.participant_id == 0) semantic
  guard (not (is_class (reason_class_of u) hole_class)) semantic

unfoldable pub decoder_declared : Option ℕ → Dict ℕ ℕ → Bool
unfolding has
decoder_declared none decoders = true
decoder_declared (some decoder_id) decoders = has decoder_id decoders
