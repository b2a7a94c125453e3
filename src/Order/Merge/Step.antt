-- ===== src/Order/Merge/Step.antt =====
-- What one turn of the loop of `causal_merge` does to the frontiers.
use mathlib.Core.Path.{subst}
use python_zipline.Base.{
  ℕ, zero, suc, ◌+◌, ◌≡◌, ◌≢◌, refl, ap, ◌∙◌, Bool, true, false, not, ◌||◌, Option, none, some,
  List, [], ◌∷◌, set, get_elem?, All, is_some, arith, Bool-cases, inl, inr,
}
use python_zipline.Base.Outcome.{Outcome, ok, raised, ok-injective}
use python_zipline.Blocks.Types.{Record}
use python_zipline.Order.Merge.{
  Frontier, advance, pair_ready, Entry, with_head, if_ready, pair_entries, ready_entries, least_of,
  Ending, done, out_of_fuel, Round, stop, emit, emit_after, take_best, choose, round, key_lt,
}

-- A ready frontier: it stands in the list at its index, and it has a head.
abbrev pub IsEntry : List Frontier → Entry → Type 0
IsEntry fs e = (get_elem? fs e.0 ≡ some e.1) × (is_some e.1.head ≡ true)

abbrev EntryFrom : ℕ → List Frontier → Entry → Type 0
EntryFrom i fs e = (j : ℕ) × (e.0 ≡ i + j) × (get_elem? fs j ≡ some e.1) × (is_some e.1.head ≡ true)

shift_entries :
    (i : ℕ) (f : Frontier) (fs : List Frontier) (es : List Entry)
    → All (EntryFrom (i + 1) fs) es
    → All (EntryFrom i (f ∷ fs)) es
shift_entries i f fs [] h = tt
shift_entries i f fs (e ∷ es) h =
    let (j, p, q, r) = h.0 in ((suc j, omega arith, q, r), shift_entries i f fs es h.1)

with_head-All : (i : ℕ) (fs : List Frontier) → All (EntryFrom i fs) (with_head i fs)
unfolding with_head
with_head-All i [] = tt
with_head-All i (f ∷ fs) = elim (Bool-cases (is_some f.head)) [
  | inl p ↦ rw p ((zero, omega arith, refl, p), shift_entries i f fs _ (with_head-All (i + 1) fs))
  | inr p ↦ rw p (shift_entries i f fs _ (with_head-All (i + 1) fs))
]

from_zero : (fs : List Frontier) (es : List Entry) → All (EntryFrom 0 fs) es → All (IsEntry fs) es
from_zero fs [] h = tt
from_zero fs (e ∷ es) h =
    let (j, p, q, r) = h.0 in
    let same : e.0 ≡ j = omega arith in ((rw same q, r), from_zero fs es h.1)

pair_ready-has_head : (f g : Frontier) → pair_ready f g ≡ ok true → is_some f.head ≡ true
unfolding pair_ready
pair_ready-has_head f g h = elim (Bool-cases (is_some f.head)) [
  | inl p ↦ p
  | inr p ↦ cc (rw p at h)
]

pub if_ready-All :
    (P : Entry → Type 0) (b : Bool) (e : Entry) (es : List Entry)
    → (b ≡ true → P e)
    → All P es
    → All P (if_ready b e es)
if_ready-All P true e es h k = (h refl, k)
if_ready-All P false e es h k = k

pair_entries-All :
    (f g : Frontier) (rf rg : Outcome Bool) (es : List Entry)
    → pair_ready f g ≡ rf
    → pair_ready g f ≡ rg
    → pair_entries f g rf rg ≡ ok es
    → All (IsEntry (f ∷ g ∷ [])) es
unfolding pair_entries
pair_entries-All f g (raised e) rg es p q h = cc
pair_entries-All f g (ok a) (raised e) es p q h = cc
pair_entries-All f g (ok a) (ok b) es p q h =
    elim (Bool-cases (a || b || not (is_some f.head || is_some g.head))) [
      | inl t ↦ subst (All (IsEntry (f ∷ g ∷ []))) (ok-injective (rw t at h)) (
          if_ready-All _ a (0, f) _ (λ e. (refl, pair_ready-has_head f g (p ∙ ap ok e)))
            (if_ready-All _ b (1, g) [] (λ e. (refl, pair_ready-has_head g f (q ∙ ap ok e))) tt))
      | inr t ↦ cc (rw t at h)
    ]

pub ready_entries-All :
    (fs : List Frontier) (es : List Entry) → ready_entries fs ≡ ok es → All (IsEntry fs) es
unfolding ready_entries
ready_entries-All (f ∷ g ∷ []) es h = pair_entries-All f g _ _ es refl refl h
ready_entries-All [] es h =
    subst (All (IsEntry [])) (ok-injective h) (from_zero [] _ (with_head-All 0 []))
ready_entries-All fs es h =
    subst (All (IsEntry fs)) (ok-injective h) (from_zero fs _ (with_head-All 0 fs))

pub least_of-All :
    (P : Entry → Type 0) (best : Entry) (es : List Entry) → P best → All P es → P (least_of best es)
unfolding least_of
least_of-All P best [] h k = h
least_of-All P best (e ∷ es) h k = elim (Bool-cases (key_lt e.1 best.1)) [
  | inl t ↦ rw t (least_of-All P e es k.0 k.1)
  | inr t ↦ rw t (least_of-All P best es h k.1)
]

-- What a turn may do.
pub data Turn (fs : List Frontier) : Round → Type 0 where
  ends : {e : Ending} → e ≢ out_of_fuel → (e ≡ done → ready_entries fs ≡ ok []) → Turn fs (stop e)
  emits :
      {r : Record} {fs' : List Frontier} (i : ℕ) (best best' : Frontier)
      → get_elem? fs i ≡ some best
      → best.head ≡ some r
      → advance best ≡ ok best'
      → fs' ≡ set fs i best'
      → Turn fs (emit r fs')

take_best-Turn :
    (fs : List Frontier) (e : Entry) (o : Option Record)
    → IsEntry fs e
    → e.1.head ≡ o
    → Turn fs (take_best fs e o)
unfolding take_best
take_best-Turn fs (i, best) none (p, q) h = cc (rw h at q)
take_best-Turn fs (i, best) (some r) (p, q) h = by_advance (advance best) refl
  where
    by_advance : (a : Outcome Frontier) → advance best ≡ a → Turn fs (emit_after r i fs a)
    by_advance (raised e) k = ends (λ x. cc) (λ x. cc)
    by_advance (ok best') k = emits i best best' p h k refl

choose-Turn :
    (fs : List Frontier) (o : Outcome (List Entry)) → ready_entries fs ≡ o → Turn fs (choose fs o)
unfolding choose
choose-Turn fs (raised e) h = ends (λ x. cc) (λ x. cc)
choose-Turn fs (ok []) h = ends (λ x. cc) (λ x. h)
choose-Turn fs (ok (e ∷ es)) h =
    let all = ready_entries-All fs (e ∷ es) h in
    let best = least_of e es in
    take_best-Turn fs best best.1.head (least_of-All (IsEntry fs) e es all.0 all.1) refl

-- Every turn stops, with an ending that the source has, or takes the head of one frontier and advances
-- it; the others stay as they are.
pub round-Turn : (fs : List Frontier) → Turn fs (round fs)
unfolding round
round-Turn fs = choose-Turn fs (ready_entries fs) refl
