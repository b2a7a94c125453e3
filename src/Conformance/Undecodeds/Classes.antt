-- ===== src/Conformance/Undecodeds/Classes.antt =====
-- The two readings of an Undecoded block's class: by blocks.py and by conformance.py.
use python_zipline.Base.{◌≡◌, refl, true, Option, none, some, arith}
use python_zipline.Base.Dict.{nat_eq, list_eq}
use python_zipline.Base.Outcome.{ok}
use python_zipline.Blocks.Types.{Text, Undecoded}
use python_zipline.Conformance.Undecodeds.{
  canonical_class, first_some, recoverability, reason_class_of, agrees, check_class,
  check_reason_class,
}

check_class-agree :
    (reason_class reason canonical : Option Text)
    → check_class reason_class reason canonical ≡ ok tt
    → first_some canonical reason_class ≡ first_some reason_class canonical
unfolding check_class agrees
check_class-agree none reason none e = refl
check_class-agree none reason (some t) e = refl
check_class-agree (some s) reason none e = refl
check_class-agree (some s) reason (some t) e =
    let same : list_eq.beq s t ≡ true = ground arith in
    let path : s ≡ t = (list_eq.beq_iff s t).0 same in rw path refl

-- Of an Undecoded block that the checker accepts, the class that a consumer reads, by the word first,
-- is the class that the checker goes by, by the option first.
pub recoverability-reason_class_of :
    (u : Undecoded) → check_reason_class u ≡ ok tt → recoverability u ≡ reason_class_of u
unfolding check_reason_class recoverability reason_class_of
recoverability-reason_class_of u e =
    check_class-agree u.reason_class u.reason (canonical_class u.reason) e
