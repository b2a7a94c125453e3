-- ===== src/Order/Merge/Acked.antt =====
-- The ack rule of `causal_merge` of order.py for two participants.
use mathlib.Core.Path.{subst}
use python_zipline.Base.{
  ℕ, ◌≡◌, refl, sym, ap, ◌∙◌, Bool, true, not, ◌||◌, ◌⊎◌, inl, inr, Option, none, some, List, [],
  ◌∷◌, All, is_some, Bool-cases,
}
use python_zipline.Base.Int.{ℤ, ◌<ℤ◌, ltb_ℤ}
use python_zipline.Base.Outcome.{Outcome, ok, raised, >>=-eq-ok, ok-injective}
use python_zipline.Blocks.Types.{Record}
use python_zipline.Order.Walk.{position}
use python_zipline.Order.Merge.{
  Frontier, advance, peer_bound, answered, pair_ready, Entry, pair_entries, ready_entries, least_of,
  emit, emit_after, take_best, choose, round,
}
use python_zipline.Order.Merge.Step.{if_ready-All, least_of-All}
use python_zipline.Order.Merge.Bound.{
  Every, IsTidy, left, bound_least, nothing_left, Every-map, below_bound,
}

-- The head of `f` waits for nothing of its peer: the position that it acknowledges, where it does and
-- the peer's origin is known, is before the end of every record that the peer has still to give.
abbrev pub Released : Frontier → Frontier → Frontier → Type 0
Released f p0 p =
    (ack : ℤ) (origin : ℕ) (acked : ℤ)
    → f.head_ack ≡ some ack
    → p.placer.origin ≡ some origin
    → position f.acks ack origin ≡ ok acked
    → Every (λ e. acked <ℤ e) (left p0)

answered-Released :
    (f p0 p : Frontier)
    → advance p0 ≡ ok p
    → IsTidy p0
    → answered f p f.head_ack p.placer.origin ≡ ok true
    → Released f p0 p
unfolding answered advance
answered-Released f p0 p e t h ack origin acked ha ho hp = elim (Bool-cases (is_some p.head)) [
  | inr none_left ↦ nothing_left p0.stream p0 p _ e none_left
  | inl head ↦
      let (a, q, k) = >>=-eq-ok (position f.acks ack origin) _ (rw (ha, ho, head) at h) in
      let same : a ≡ acked = ok-injective (sym q ∙ hp) in
      let low : ltb_ℤ acked (peer_bound p.head_end p.head_offset p.reached) ≡ true =
        ap (λ x. ltb_ℤ x (peer_bound p.head_end p.head_offset p.reached)) (sym same)
        ∙ ok-injective k in
      Every-map _ (λ e. acked <ℤ e) (left p0) (λ x h. below_bound acked _ x low h)
        (bound_least p0.stream p0 p e t.0 t.1)
]

pair_ready-Released :
    (f p0 p : Frontier) → advance p0 ≡ ok p → IsTidy p0 → pair_ready f p ≡ ok true → Released f p0 p
unfolding pair_ready
pair_ready-Released f p0 p e t h = elim (Bool-cases (is_some f.head)) [
  | inl head ↦ answered-Released f p0 p e t (rw head at h)
  | inr bare ↦ cc (rw bare at h)
]

take_best-head :
    (fs fs' : List Frontier) (e : Entry) (o : Option Record) (r : Record)
    → e.1.head ≡ o
    → take_best fs e o ≡ emit r fs'
    → e.1.head ≡ some r
unfolding take_best emit_after
take_best-head fs fs' (i, best) none r h k = cc
take_best-head fs fs' (i, best) (some x) r h k = by_advance (advance best) k
  where
    by_advance : (a : Outcome Frontier) → emit_after x i fs a ≡ emit r fs' → best.head ≡ some r
    by_advance (raised e) q = cc
    by_advance (ok best') q = h ∙ cc

-- The two frontiers of a merge: each has been advanced, to `f` and to `g`, and is tidy.
module _ (f0 f g0 g : Frontier) (ef : advance f0 ≡ ok f) (eg : advance g0 ≡ ok g) (tf : IsTidy f0)
    (tg : IsTidy g0) where
  abbrev OneOf : Frontier → Type 0
  OneOf best = ((best ≡ f) × Released f g0 g) ⊎ ((best ≡ g) × Released g f0 f)

  pair_entries-OneOf :
      (rf rg : Outcome Bool) (es : List Entry)
      → pair_ready f g ≡ rf
      → pair_ready g f ≡ rg
      → pair_entries f g rf rg ≡ ok es
      → All (λ (e : Entry). OneOf e.1) es
  unfolding pair_entries
  pair_entries-OneOf (raised e) rg es p q h = cc
  pair_entries-OneOf (ok a) (raised e) es p q h = cc
  pair_entries-OneOf (ok a) (ok b) es p q h =
      elim (Bool-cases (a || b || not (is_some f.head || is_some g.head))) [
        | inr t ↦ cc (rw t at h)
        | inl t ↦ subst (All (λ (e : Entry). OneOf e.1)) (ok-injective (rw t at h)) (
            if_ready-All (λ (e : Entry). OneOf e.1) a (0, f) _
              (λ e. inl (refl, pair_ready-Released f g0 g eg tg (p ∙ ap ok e)))
              (if_ready-All (λ (e : Entry). OneOf e.1) b (1, g) []
                (λ e. inr (refl, pair_ready-Released g f0 f ef tf (q ∙ ap ok e))) tt))
      ]

  choose-OneOf :
      (fs' : List Frontier) (o : Outcome (List Entry)) (r : Record)
      → ready_entries (f ∷ g ∷ []) ≡ o
      → choose (f ∷ g ∷ []) o ≡ emit r fs'
      → (best : Frontier) × (best.head ≡ some r) × OneOf best
  unfolding choose ready_entries
  choose-OneOf fs' (raised e) r h k = cc
  choose-OneOf fs' (ok []) r h k = cc
  choose-OneOf fs' (ok (e ∷ es)) r h k =
      let all = pair_entries-OneOf _ _ (e ∷ es) refl refl h in
      let best = least_of e es in
      (
        best.1,
        take_best-head (f ∷ g ∷ []) fs' best best.1.head r refl k,
        least_of-All (λ (x : Entry). OneOf x.1) e es all.0 all.1,
      )

  -- With two participants whose streams are tidy (behind what is reached no record ends before one that
  -- stands before it, and a SYN without bytes stands first), the record that a turn of the merge emits
  -- is the head of a frontier, and what it acknowledges, where it does and the peer's origin is known,
  -- is before the end of every record that the peer has still to give.
  pub round-Released :
      (fs' : List Frontier) (r : Record)
      → round (f ∷ g ∷ []) ≡ emit r fs'
      → ((f.head ≡ some r) × Released f g0 g) ⊎ ((g.head ≡ some r) × Released g f0 f)
  unfolding round
  round-Released fs' r h =
      let (best, top, one) = choose-OneOf fs' (ready_entries (f ∷ g ∷ [])) r refl h in
      elim one [
        | inl p ↦ inl (ap (λ (x : Frontier). x.head) (sym p.0) ∙ top, p.1)
        | inr p ↦ inr (ap (λ (x : Frontier). x.head) (sym p.0) ∙ top, p.1)
      ]
