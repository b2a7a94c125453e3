-- ===== src/Order/Merge/Key.antt =====
-- The order in which `causal_merge` breaks ties: `_merge_key` and `min` of order.py.
use mathlib.Core.Path.{subst}
use python_zipline.Base.{
  ℕ, ◌+◌, ◌≡◌, ◌≢◌, refl, sym, ap, ◌∙◌, Bool, true, false, not, ◌&&◌, ◌||◌, Option, none, some,
  List, [], ◌∷◌, ltb, if◌then◌else◌, length, get_elem?, All, is_some, arith, Bool-cases, inl, inr,
}
use python_zipline.Base.Int.{ℤ, ltb_ℤ}
use python_zipline.Base.Outcome.{Outcome, ok, raised, ok-injective}
use python_zipline.Blocks.Types.{Record}
use python_zipline.Order.Merge.{
  Frontier, advance, Entry, with_head, ready_entries, key_lt, head_time, least_of, emit, emit_after,
  take_best, choose, round,
}
use python_zipline.Order.Merge.Step.{IsEntry, ready_entries-All, least_of-All}

-- The key of a frontier, as an order of pairs.
abbrev before : ℤ → ℕ → ℤ → ℕ → Bool
before t p u q = ltb_ℤ t u || (not (ltb_ℤ u t) && ltb p q)

before_trans :
    (t u v : ℤ) (p q r : ℕ) → before t p u q ≡ true → before u q v r ≡ true → before t p v r ≡ true
before_trans t u v p q r h k = ground arith

before_cotrans :
    (t u v : ℤ) (p q r : ℕ)
    → before t p u q ≡ false
    → before u q v r ≡ false
    → before t p v r ≡ false
before_cotrans t u v p q r h k = ground arith

before_irrefl : (t : ℤ) (p : ℕ) → before t p t p ≡ false
before_irrefl t p = ground arith

key_lt_trans : (e f g : Frontier) → key_lt e f ≡ true → key_lt f g ≡ true → key_lt e g ≡ true
unfolding key_lt
key_lt_trans e f g h k =
    before_trans (head_time e.head) (head_time f.head) (head_time g.head) e.pid f.pid g.pid h k

key_lt_cotrans : (e f g : Frontier) → key_lt e f ≡ false → key_lt f g ≡ false → key_lt e g ≡ false
unfolding key_lt
key_lt_cotrans e f g h k =
    before_cotrans (head_time e.head) (head_time f.head) (head_time g.head) e.pid f.pid g.pid h k

key_lt_irrefl : (f : Frontier) → key_lt f f ≡ false
unfolding key_lt
key_lt_irrefl f = before_irrefl (head_time f.head) f.pid

key_lt_asym : (e f : Frontier) → key_lt e f ≡ true → key_lt f e ≡ false
key_lt_asym e f h = elim (Bool-cases (key_lt f e)) [
  | inl t ↦ cc (key_lt_trans e f e h t, key_lt_irrefl e)
  | inr t ↦ t
]

abbrev NoneBefore : Frontier → List Entry → Type 0
NoneBefore g es = All (λ (e : Entry). key_lt e.1 g ≡ false) es

least_take :
    (best e : Entry) (es : List Entry)
    → key_lt e.1 best.1 ≡ true
    → least_of best (e ∷ es) ≡ least_of e es
unfolding least_of
least_take best e es t = ap (λ b. least_of (if b then e else best) es) t

least_keep :
    (best e : Entry) (es : List Entry)
    → key_lt e.1 best.1 ≡ false
    → least_of best (e ∷ es) ≡ least_of best es
unfolding least_of
least_keep best e es t = ap (λ b. least_of (if b then e else best) es) t

abbrev IsLeast : Entry → List Entry → Entry → Type 0
IsLeast best es least = (key_lt best.1 least.1 ≡ false) × NoneBefore least.1 es

-- `min` returns an entry that none of the list is before.
least_of-IsLeast : (best : Entry) (es : List Entry) → IsLeast best es (least_of best es)
unfolding least_of
least_of-IsLeast best [] = (key_lt_irrefl best.1, tt)
least_of-IsLeast best (e ∷ es) = elim (Bool-cases (key_lt e.1 best.1)) [
  | inl t ↦
      let (h, k) = least_of-IsLeast e es in
      subst (IsLeast best (e ∷ es)) (sym (least_take best e es t))
        (key_lt_cotrans best.1 e.1 (least_of e es).1 (key_lt_asym e.1 best.1 t) h, (h, k))
  | inr t ↦
      let (h, k) = least_of-IsLeast best es in
      subst (IsLeast best (e ∷ es)) (sym (least_keep best e es t))
        (h, (key_lt_cotrans e.1 best.1 (least_of best es).1 t h, k))
]

-- What a turn that emits has chosen from the ready frontiers.
abbrev Chosen : List Frontier → List Entry → Record → Type 0
Chosen fs es r =
    (i : ℕ) × (best : Frontier) × (get_elem? fs i ≡ some best)
    × (best.head ≡ some r)
    × NoneBefore best es

emit_after-record :
    (r r' : Record) (i : ℕ) (fs fs' : List Frontier) (o : Outcome Frontier)
    → emit_after r i fs o ≡ emit r' fs'
    → r ≡ r'
unfolding emit_after
emit_after-record r r' i fs fs' (raised e) h = cc
emit_after-record r r' i fs fs' (ok best) h = cc

take_best-Chosen :
    (fs fs' : List Frontier) (es : List Entry) (e : Entry) (o : Option Record) (r : Record)
    → IsEntry fs e
    → NoneBefore e.1 es
    → e.1.head ≡ o
    → take_best fs e o ≡ emit r fs'
    → Chosen fs es r
unfolding take_best
take_best-Chosen fs fs' es (i, best) none r v n h k = cc
take_best-Chosen fs fs' es (i, best) (some x) r v n h k =
    let same : x ≡ r = emit_after-record x r i fs fs' (advance best) k in
    (i, best, v.0, h ∙ ap some same, n)

choose-Chosen :
    (fs fs' : List Frontier) (o : Outcome (List Entry)) (r : Record)
    → ready_entries fs ≡ o
    → choose fs o ≡ emit r fs'
    → (es : List Entry) × (ready_entries fs ≡ ok es) × Chosen fs es r
unfolding choose
choose-Chosen fs fs' (raised e) r h k = cc
choose-Chosen fs fs' (ok []) r h k = cc
choose-Chosen fs fs' (ok (e ∷ es)) r h k =
    let all = ready_entries-All fs (e ∷ es) h in
    let best = least_of e es in
    let (first, others) = least_of-IsLeast e es in
    let none_before : NoneBefore best.1 (e ∷ es) = (first, others) in
    (
      e ∷ es,
      h,
      take_best-Chosen fs fs' (e ∷ es) best best.1.head r
          (least_of-All (IsEntry fs) e es all.0 all.1) none_before refl k,
    )

with_head-NoneBefore :
    (i : ℕ) (fs : List Frontier) (g : Frontier)
    → NoneBefore g (with_head i fs)
    → All (λ (f : Frontier). is_some f.head ≡ true → key_lt f g ≡ false) fs
unfolding with_head
with_head-NoneBefore i [] g h = tt
with_head-NoneBefore i (f ∷ fs) g h = elim (Bool-cases (is_some f.head)) [
  | inl t ↦ let (first, rest) = rw t at h in ((λ x. first), with_head-NoneBefore (i + 1) fs g rest)
  | inr t ↦ ((λ x. cc), with_head-NoneBefore (i + 1) fs g (rw t at h))
]

no_pair : (fs : List Frontier) → length fs ≢ 2 → ready_entries fs ≡ ok (with_head 0 fs)
unfolding ready_entries
no_pair [] h = refl
no_pair (f ∷ []) h = refl
no_pair (f ∷ g ∷ []) h = absurd (h (omega arith))
no_pair (f ∷ g ∷ k ∷ fs) h = refl

-- With any number of participants but two, the record that a turn of the merge emits is the head of a
-- frontier with the least key: no other head has an earlier timestamp, or the same timestamp and a
-- smaller participant id.
pub round-least :
    (fs fs' : List Frontier) (r : Record)
    → length fs ≢ 2
    → round fs ≡ emit r fs'
    → (i : ℕ) × (best : Frontier) × (get_elem? fs i ≡ some best)
      × (best.head ≡ some r)
      × All (λ (f : Frontier). is_some f.head ≡ true → key_lt f best ≡ false) fs
unfolding round
round-least fs fs' r h k =
    let (es, ready, (i, best, here, top, none_before)) =
      choose-Chosen fs fs' (ready_entries fs) r refl k in
    let same : es ≡ with_head 0 fs = ok-injective (sym ready ∙ no_pair fs h) in
    (i, best, here, top, with_head-NoneBefore 0 fs best (subst (NoneBefore best) same none_before))
