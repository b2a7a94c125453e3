-- ===== src/Order/Merge/Total.antt =====
-- The loop of `causal_merge` of order.py as a whole: its end, and the records that it yields.
use mathlib.Core.Path.{subst, ap₂}
use python_zipline.Base.{
  ℕ, zero, suc, ◌+◌, ◌<◌, ◌≡◌, ◌≢◌, refl, sym, ap, ◌∙◌, Bool, true, false, Option, none, some, List,
  [], ◌∷◌, map, length, set, get_elem?, All, is_some, arith, Bool-cases, inl, inr,
}
use python_zipline.Base.Outcome.{Outcome, ok, raised, >>=-eq-ok, ok-injective}
use python_zipline.Blocks.Types.{Record}
use python_zipline.Order.Merge.{
  Frontier, frontier, advance, advance_with, in_order, with_head, pair_entries, ready_entries, done,
  out_of_fuel, Round, stop, again, emit, round, Merged, go_on, merge_loop, open_all, start_merge,
  causal_merge, sort_pids, total,
}
use python_zipline.Order.Merge.Step.{Turn, ends, emits, round-Turn}

-- An interleaving: each element is the first that one of the lists has left.
pub data Interleaving {A : Type 0} : List (List A) → List A → Type 0 where
  finished : {ls : List (List A)} → All (λ l. l ≡ []) ls → Interleaving ls []
  taken :
      {ls : List (List A)} {out : List A} (i : ℕ) (a : A) (rest : List A)
      → get_elem? ls i ≡ some (a ∷ rest)
      → Interleaving (set ls i rest) out
      → Interleaving ls (a ∷ out)

abbrev pending_of : Option Record → List Record → List Record
pending_of none stream = stream
pending_of (some r) stream = r ∷ stream

-- What a frontier has not emitted yet.
abbrev pub pending : Frontier → List Record
pending f = pending_of f.head f.stream

-- A frontier that has been advanced has a head unless its stream is used up.
abbrev pub IsLoaded : Frontier → Type 0
IsLoaded f = f.head ≡ none → f.stream ≡ []

advance_with-pending :
    (rs : List Record) (f f' : Frontier)
    → advance_with rs f ≡ ok f'
    → (pending f' ≡ rs) × IsLoaded f'
unfolding advance_with
advance_with-pending [] f f' h =
    subst (λ t. (pending t ≡ []) × IsLoaded t) (ok-injective h) (refl, λ _. refl)
advance_with-pending (r ∷ rs) f f' h = elim (Bool-cases (in_order f.last_seq r.seq_start)) [
  | inl t ↦
      subst (λ t. (pending t ≡ r ∷ rs) × IsLoaded t) (ok-injective (rw t at h)) (refl, λ x. cc)
  | inr t ↦ cc (rw t at h)
]

pub advance-pending : (f f' : Frontier) → advance f ≡ ok f' → (pending f' ≡ f.stream) × IsLoaded f'
unfolding advance
advance-pending f f' h = advance_with-pending f.stream f f' h

abbrev total_length : {A : Type 0} → List (List A) → ℕ
total_length [] = 0
total_length (l ∷ ls) = length l + total_length ls

total_length-set :
    {A : Type 0} (ls : List (List A)) (i : ℕ) (a : A) (rest : List A)
    → get_elem? ls i ≡ some (a ∷ rest)
    → total_length ls ≡ suc (total_length (set ls i rest))
total_length-set [] i a rest h = cc
total_length-set (l ∷ ls) zero a rest h = ground arith
total_length-set (l ∷ ls) (suc i) a rest h = omega (arith, total_length-set ls i a rest h)

map-set :
    (fs : List Frontier) (i : ℕ) (f : Frontier)
    → map pending (set fs i f) ≡ set (map pending fs) i (pending f)
map-set [] i f = refl
map-set (g ∷ fs) zero f = refl
map-set (g ∷ fs) (suc i) f = ap (λ t. pending g ∷ t) (map-set fs i f)

get_elem?-map :
    (fs : List Frontier) (i : ℕ) (f : Frontier)
    → get_elem? fs i ≡ some f
    → get_elem? (map pending fs) i ≡ some (pending f)
get_elem?-map [] i f h = cc
get_elem?-map (g ∷ fs) zero f h = cc
get_elem?-map (g ∷ fs) (suc i) f h = get_elem?-map fs i f h

All-set :
    (fs : List Frontier) (i : ℕ) (f : Frontier)
    → All IsLoaded fs
    → IsLoaded f
    → All IsLoaded (set fs i f)
All-set [] i f h k = tt
All-set (g ∷ fs) zero f h k = (k, h.1)
All-set (g ∷ fs) (suc i) f h k = (h.0, All-set fs i f h.1 k)

no_head : (o : Option Record) → is_some o ≡ false → o ≡ none
no_head none h = refl
no_head (some r) h = cc

with_head-nil : (i : ℕ) (fs : List Frontier) → with_head i fs ≡ [] → All (λ f. f.head ≡ none) fs
unfolding with_head
with_head-nil i [] h = tt
with_head-nil i (f ∷ fs) h = elim (Bool-cases (is_some f.head)) [
  | inl p ↦ cc (rw p at h)
  | inr p ↦ (no_head f.head p, with_head-nil (i + 1) fs (rw p at h))
]

no_entries :
    (f g : Frontier) (rf rg : Outcome Bool)
    → pair_entries f g rf rg ≡ ok []
    → (f.head ≡ none) × (g.head ≡ none)
unfolding pair_entries
no_entries f g (raised e) rg h = cc
no_entries f g (ok a) (raised e) h = cc
no_entries f g (ok true) (ok b) h = cc
no_entries f g (ok false) (ok true) h = cc
no_entries f g (ok false) (ok false) h = by_heads f.head g.head refl refl
  where
    by_heads : (x y : Option Record) → f.head ≡ x → g.head ≡ y → (f.head ≡ none) × (g.head ≡ none)
    by_heads none none p q = (p, q)
    by_heads (some r) y p q = cc (rw p at h)
    by_heads none (some r) p q = cc (rw (p, q) at h)

-- The merge returns only when no frontier has a head.
ready_entries-nil : (fs : List Frontier) → ready_entries fs ≡ ok [] → All (λ f. f.head ≡ none) fs
unfolding ready_entries
ready_entries-nil (f ∷ g ∷ []) h = let (p, q) = no_entries f g _ _ h in (p, (q, tt))
ready_entries-nil [] h = tt
ready_entries-nil fs h = with_head-nil 0 fs (ok-injective h)

all_used :
    (fs : List Frontier)
    → All IsLoaded fs
    → All (λ f. f.head ≡ none) fs
    → All (λ l. l ≡ []) (map pending fs)
all_used [] h k = tt
all_used (f ∷ fs) h k = (rw k.0 (h.0 k.0), all_used fs h.1 k.1)

abbrev Completes : List Frontier → Merged → Type 0
Completes fs m =
    (m.ending ≢ out_of_fuel) × (m.ending ≡ done → Interleaving (map pending fs) m.yielded)

go_on-Completes :
    (fs : List Frontier) (x : Round) (next : List Frontier → Merged)
    → All IsLoaded fs
    → Turn fs x
    → ((fs' : List Frontier)
        → All IsLoaded fs'
        → total_length (map pending fs) ≡ suc (total_length (map pending fs'))
        → Completes fs' (next fs'))
    → Completes fs (go_on fs x next)
unfolding go_on
go_on-Completes fs (stop e) next w (ends ne nil) ih =
    (ne, λ d. finished (all_used fs w (ready_entries-nil fs (nil d))))
go_on-Completes fs again next w t ih = elim t [ ]
go_on-Completes fs (emit r fs') next w (emits i best best' g h a e) ih =
    let (left, loaded) = advance-pending best best' a in
    let full : pending best ≡ r ∷ best.stream = rw h in
    let here : get_elem? (map pending fs) i ≡ some (r ∷ best.stream) =
      get_elem?-map fs i best g ∙ ap some full in
    let after : map pending fs' ≡ set (map pending fs) i best.stream =
      ap (map pending) e ∙ map-set fs i best' ∙ ap (set (map pending fs) i) left in
    let rest =
      ih fs' (subst (All IsLoaded) (sym e) (All-set fs i best' w loaded))
        (total_length-set _ i r best.stream here ∙ ap (λ t. suc (total_length t)) (sym after)) in
    (
      rest.0,
      λ d.
          taken i r best.stream here
            (subst (λ t. Interleaving t (next fs').yielded) after (rest.1 d)),
    )

merge_loop-Completes :
    (fuel : ℕ) (fs : List Frontier)
    → All IsLoaded fs
    → total_length (map pending fs) < fuel
    → Completes fs (merge_loop fuel fs)
unfolding merge_loop
merge_loop-Completes zero fs w l = absurd (omega arith)
merge_loop-Completes (suc fuel) fs w l =
    go_on-Completes fs (round fs) (merge_loop fuel) w (round-Turn fs)
      (λ fs' w' e. merge_loop-Completes fuel fs' w' (omega arith))

abbrev pub streams_of : List (ℕ × List Record) → List (List Record)
streams_of [] = []
streams_of ((pid, rs) ∷ rest) = rs ∷ streams_of rest

-- Every frontier of a merge that starts is loaded, and has its stream to emit.
open_all-pending :
    (isns : ℕ → Option ℕ) (streams : List (ℕ × List Record)) (fs : List Frontier)
    → open_all isns streams ≡ ok fs
    → All IsLoaded fs × (map pending fs ≡ streams_of streams)
unfolding open_all frontier
open_all-pending isns [] fs h =
    subst (λ t. All IsLoaded t × (map pending t ≡ [])) (ok-injective h) (tt, refl)
open_all-pending isns ((pid, rs) ∷ rest) fs h =
    let (f, hf, h₁) = >>=-eq-ok (advance (frontier pid rs (isns pid))) _ h in
    let (gs, hg, h₂) = >>=-eq-ok (open_all isns rest) _ h₁ in
    let (pf, lf) = advance-pending _ f hf in
    let (lg, pg) = open_all-pending isns rest gs hg in
    subst (λ t. All IsLoaded t × (map pending t ≡ rs ∷ streams_of rest)) (ok-injective h₂)
      ((lf, lg), ap₂ (λ a b. a ∷ b) pf pg)

total-streams_of :
    (streams : List (ℕ × List Record)) → total_length (streams_of streams) ≡ total streams
total-streams_of [] = refl
total-streams_of ((pid, rs) ∷ rest) = omega (arith, total-streams_of rest)

start_merge-Completes :
    (isns : ℕ → Option ℕ) (streams : List (ℕ × List Record)) (o : Outcome (List Frontier))
    → open_all isns streams ≡ o
    → ((start_merge (suc (total streams)) o).ending ≢ out_of_fuel)
      × ((start_merge (suc (total streams)) o).ending ≡ done
          → Interleaving (streams_of streams) (start_merge (suc (total streams)) o).yielded)
unfolding start_merge
start_merge-Completes isns streams (raised e) h = ((λ x. cc), (λ x. cc))
start_merge-Completes isns streams (ok fs) h =
    let (loaded, all) = open_all-pending isns streams fs h in
    let size : total_length (map pending fs) ≡ total streams =
      ap total_length all ∙ total-streams_of streams in
    let (ends', mixes) = merge_loop-Completes (suc (total streams)) fs loaded (omega arith) in
    (
      ends',
      λ d. subst (λ t. Interleaving t (merge_loop (suc (total streams)) fs).yielded) all (mixes d),
    )

-- The merge of any streams ends: it returns or raises, and its loop never runs out of the fuel of one
-- turn more than there are records. When it returns, what it yielded is an interleaving of the
-- streams: every record of every stream once, each stream's records in their stored order.
pub causal_merge_total :
    (isns : ℕ → Option ℕ) (streams : List (ℕ × List Record))
    → ((causal_merge isns streams).ending ≢ out_of_fuel)
      × ((causal_merge isns streams).ending ≡ done
          → Interleaving (streams_of (sort_pids streams)) (causal_merge isns streams).yielded)
unfolding causal_merge
causal_merge_total isns streams =
    start_merge-Completes isns (sort_pids streams) (open_all isns (sort_pids streams)) refl
