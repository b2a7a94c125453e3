-- ===== src/Base/Outcome.antt =====
-- errors.py, the exception hierarchy, and Python's own errors that the code raises or catches: a call
-- that may raise returns an `Outcome`. The texts of the messages are not kept, the class is.
use mathlib.Core.Path.{◌≡◌, refl}
use mathlib.Core.Logic.{◌⊎◌, inl, inr}
use mathlib.Core.Bool.{Bool, true, false}

pub data Fault : Type 0 where
  zpf_error structural semantic advisory content_fault truncated encode value_error : Fault

pub data Outcome {ℓ} (A : Type ℓ) : Type ℓ where
  ok : A → Outcome A
  raised : Fault → Outcome A

module _ {ℓ κ} {A : Type ℓ} {B : Type κ} where
  infixl 5 ◌>>=◌
  -- A statement, and the statements behind it.
  abbrev pub ◌>>=◌ : Outcome A → (A → Outcome B) → Outcome B
  raised fault >>= next = raised fault
  ok result >>= next = next result

  -- Both parts of a run that returns have returned.
  pub >>=-eq-ok :
      (first : Outcome A) (next : A → Outcome B) {b : B}
      → (first >>= next) ≡ ok b
      → (a : A) × (first ≡ ok a) × (next a ≡ ok b)
  >>=-eq-ok (raised fault) next h = cc
  >>=-eq-ok (ok result) next h = (result, refl, h)

module _ {ℓ} {B : Type ℓ} where
  infixl 5 ◌>>◌
  abbrev pub ◌>>◌ : Outcome (Unit {0}) → Outcome B → Outcome B
  check >> next = check >>= λ _. next

-- `if not holds: raise fault`
abbrev pub guard : Bool → Fault → Outcome (Unit {0})
guard holds fault = if_holds holds
  where
    if_holds : Bool → Outcome (Unit {0})
    if_holds false = raised fault
    if_holds true = ok tt

pub guard-eq-ok :
    (holds : Bool) (fault : Fault) {u : Unit {0}} → guard holds fault ≡ ok u → holds ≡ true
guard-eq-ok false fault h = cc
guard-eq-ok true fault h = refl

pub ok-injective {ℓ} : {A : Type ℓ} {a b : A} → ok a ≡ ok b → a ≡ b
ok-injective h = cc

pub Outcome-cases {ℓ} :
    {A : Type ℓ} (o : Outcome A) → ((fault : Fault) × (o ≡ raised fault)) ⊎ ((a : A) × (o ≡ ok a))
Outcome-cases (raised fault) = inl (fault, refl)
Outcome-cases (ok a) = inr (a, refl)
