-- ===== src/Conformance/Handlers/Frame.antt =====
-- What the handlers of conformance.py share: what a call may leave behind, and where a session and its
-- participants stand.
use python_zipline.Base.{
  ℕ, ◌≡◌, refl, ◌∙◌, ◌&&◌, Option, none, some, ◌==◌, if◌then◌else◌, is_some, arith,
}
use python_zipline.Base.Dict.{nat_eq, contains, lookup, insert, lookup-insert}
use python_zipline.Base.Outcome.{Outcome, ok, raised}
use python_zipline.Conformance.State.{ParticipantState, SessionState, Checker}
use python_zipline.Conformance.Registry.{Standing, not_open, not_joined, joined, Registry}
use python_zipline.Conformance.Monad.{Action, and_then}
use python_zipline.Conformance.Handlers.{save}

-- What a call leaves, by how it ends.
abbrev pub Post :
    {A : Type 0} → (A → Checker → Type 0) → (Checker → Type 0) → Outcome A × Checker → Type 0
Post Q E (raised fault, c) = E c
Post Q E (ok a, c) = Q a c

module _ {A B : Type 0} where
  pub Post-and_then :
      (P : A → Checker → Type 0) (Q : B → Checker → Type 0) (E : Checker → Type 0)
      (next : A → Action B) (p : Outcome A × Checker)
      → Post P E p
      → ((a : A) (c : Checker) → P a c → Post Q E (next a c))
      → Post Q E (and_then next p)
  Post-and_then P Q E next (raised fault, c) h k = h
  Post-and_then P Q E next (ok a, c) h k = k a c h

abbrev pub standing_in : Option ParticipantState → Standing
standing_in none = not_joined
standing_in (some stream) = joined stream.last_seq

unfoldable pub standing_of : ℕ → Option SessionState → Standing
unfolding lookup
standing_of pid none = not_open
standing_of pid (some s) = standing_in (lookup pid s)

unfoldable pub standing : ℕ → ℕ → Checker → Standing
unfolding lookup standing_of
standing sid pid c = standing_of pid (lookup sid c.live)

module _ {A : Type 0} where
  pub Post-refused :
      (P : A → Checker → Type 0) (E E' : Checker → Type 0) (p : Outcome A × Checker)
      → ((c : Checker) → E c → E' c)
      → Post P E p
      → Post P E' p
  Post-refused P E E' (raised fault, c) k h = k c h
  Post-refused P E E' (ok a, c) k h = h

-- The tables beside the open sessions.
abbrev pub Fixed : Checker → Checker → Type 0
Fixed c c' =
    (c'.sources ≡ c.sources)
    × ((c'.decoders ≡ c.decoders)
        × ((c'.ended ≡ c.ended) × ((c'.header ≡ c.header) × (c'.file_ended ≡ c.file_ended))))

abbrev pub Kept : Checker → Checker → Type 0
Kept c c' = Fixed c c' × ((sid pid : ℕ) → standing sid pid c' ≡ standing sid pid c)

pub nothing_changed : (c : Checker) → Kept c c
nothing_changed c = ((refl, (refl, (refl, (refl, refl)))), λ sid pid. refl)

pub change_through : (a b c : Checker) → Kept a b → Kept b c → Kept a c
change_through a b c h k = (ground (arith, h.0, k.0), λ sid pid. k.1 sid pid ∙ h.1 sid pid)

-- The checker's tables hold what the registry says.
abbrev pub Matches : Registry → Checker → Type 0
Matches R c =
    ((id : ℕ) → lookup id c.sources ≡ R.kinds id)
    × ((id : ℕ) → lookup id c.decoders ≡ R.output_layers id)
    × ((sid pid : ℕ) → standing sid pid c ≡ R.stands sid pid)
    × ((sid : ℕ) → contains c.ended sid ≡ R.closed sid)
    × (is_some c.header ≡ R.started)
    × (c.file_ended ≡ R.finished)

pub Matches-Kept : (R : Registry) (c c' : Checker) → Matches R c → Kept c c' → Matches R c'
Matches-Kept R c c' m k = (
  λ id. ground (arith, k.0, m.0 id),
  λ id. ground (arith, k.0, m.1 id),
  λ sid pid. k.1 sid pid ∙ m.2 sid pid,
  λ sid. ground (arith, k.0, m.3 sid),
  ground (arith, k.0, m.4),
  ground (arith, k.0, m.5),
)

-- A participant's state is written back.
pub standing-save :
    (c c' : Checker) (sid pid : ℕ) (stream : ParticipantState) (s : SessionState) (i j : ℕ)
    → Kept c c'
    → lookup sid c.live ≡ some s
    → standing i j (save sid pid stream s c')
      ≡ (if sid == i && pid == j then joined stream.last_seq else standing i j c)
unfolding standing standing_of save
standing-save c c' sid pid stream s i j h e = ground (
  arith,
  h.1 i j,
  lookup-insert i sid (insert pid stream s) c'.live,
  lookup-insert j pid stream s,
)
