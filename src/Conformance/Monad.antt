-- ===== src/Conformance/Monad.antt =====
-- A method call of the checker: the state comes back after a raise too, since what was written
-- stays written.
use python_zipline.Base.{Bool}
use python_zipline.Base.Outcome.{Fault, Outcome, ok, raised, guard}
use python_zipline.Conformance.State.{Checker}

abbrev pub Action : Type 0 → Type 0
Action A = Checker → Outcome A × Checker

module _ {A : Type 0} where
  abbrev pub pure : A → Action A
  pure a c = (ok a, c)

  -- A call that reads nothing of the checker and writes nothing to it.
  abbrev pub lift : Outcome A → Action A
  lift o c = (o, c)

  abbrev pub gets : (Checker → A) → Action A
  gets f c = (ok (f c), c)

abbrev pub modify : (Checker → Checker) → Action (Unit {0})
modify f c = (ok tt, f c)

abbrev pub require : Bool → Fault → Action (Unit {0})
require holds fault = lift (guard holds fault)

infixl 5 ◌>>=◌ ◌>>◌
module _ {A B : Type 0} where
  -- The call behind one that has ended; a raise ends both.
  abbrev pub and_then : (A → Action B) → Outcome A × Checker → Outcome B × Checker
  and_then next (raised fault, c) = (raised fault, c)
  and_then next (ok a, c) = next a c

  abbrev pub ◌>>=◌ : Action A → (A → Action B) → Action B
  ◌>>=◌ first next c = and_then next (first c)

module _ {B : Type 0} where
  abbrev pub ◌>>◌ : Action (Unit {0}) → Action B → Action B
  ◌>>◌ first second = first >>= λ _. second
