-- ===== src/Intervals/Add.antt =====
-- The theorems on `add` and `coalesce` of _intervals.py.
use python_zipline.Base.{
  ℕ, zero, suc, ◌-◌, ◌≤◌, ◌<◌, ◌≡◌, refl, sym, ap, ◌∙◌, min, max, true, false, ◌||◌, inl, inr,
  Option, none, some, List, [], ◌∷◌, ◌++◌, ltb, leb, ◌==◌, if◌then◌else◌, arith, Bool-cases, ltb→lt,
  ltb→ge, leb→le, get_or, take, drop,
}
use python_zipline.Intervals.Spec.{Interval, inside, covers, CoalescedFrom, IsCoalesced}
use python_zipline.Intervals.Insert.{insert_merge, covers-insert_merge, insert_merge-CoalescedFrom}
use python_zipline.Intervals.{
  last?, set_last, bisect_left, bisect_right, add_out_of_order, add, add_all, coalesce,
  insert_sorted, sorted,
}

module _ (s e : ℕ) (h : s < e) where
  bisect_left-le-bisect_right :
      (lo : ℕ) (xs : List Interval) → CoalescedFrom lo xs → bisect_left xs s ≤ bisect_right xs e
  unfolding bisect_left bisect_right
  bisect_left-le-bisect_right lo [] c = omega arith
  bisect_left-le-bisect_right lo ((a, b) ∷ xs) c =
      ground (arith, bisect_left-le-bisect_right (suc b) xs c.2)

  -- `add_out_of_order` with its two indices as variables.
  abbrev fuse_at : List Interval → ℕ → ℕ → List Interval
  fuse_at xs lo hi =
      if lo == hi
      then take lo xs ++ ((s, e) ∷ drop (max lo lo) xs)
      else take lo xs
        ++ ((min s (get_or xs lo (0, 0)).0, max e (get_or xs (hi - 1) (0, 0)).1)
            ∷ drop (max lo hi) xs)

  fuse_at_skip :
      (x : Interval) (xs : List Interval) (lo hi : ℕ)
      → lo ≤ hi
      → fuse_at (x ∷ xs) (suc lo) (suc hi) ≡ x ∷ fuse_at xs lo hi
  fuse_at_skip x xs zero zero l = refl
  fuse_at_skip x xs (suc lo) zero l = absurd (omega arith)
  fuse_at_skip x xs lo (suc hi) l =
      let test : (suc lo == suc (suc hi)) ≡ (lo == suc hi) = ground arith in
      let self : max (suc lo) (suc lo) ≡ suc (max lo lo) = omega arith in
      let both : max (suc lo) (suc (suc hi)) ≡ suc (max lo (suc hi)) = omega arith in
      let less : suc (suc hi) - 1 ≡ suc hi = omega arith in
      let less' : suc hi - 1 ≡ hi = omega arith in
      simp (test, self, both, less, less')
        (elim (Bool-cases (lo == suc hi)) [ inl p ↦ rw p | inr p ↦ rw p ])

  -- The ranges that one range reaches are fused with it.
  absorb :
      (a b s' : ℕ) (xs : List Interval)
      → CoalescedFrom (suc b) xs
      → s' ≤ b
      → insert_merge xs s' (max b e)
        ≡ (s', max e (get_or ((a, b) ∷ xs) (bisect_right xs e) (0, 0)).1)
          ∷ drop (bisect_right xs e) xs
  unfolding insert_merge bisect_right
  absorb a b s' [] c l = ground arith
  absorb a b s' ((c, d) ∷ ys) k l = ground (arith, absorb c d s' ys k.2)

last?-ge :
    (lo ls le : ℕ) (xs : List Interval)
    → CoalescedFrom lo xs
    → last? xs ≡ some (ls, le)
    → (lo ≤ ls) × (ls < le)
unfolding last?
last?-ge lo ls le [] c e = cc
last?-ge lo ls le ((a, b) ∷ []) c e = ground arith
last?-ge lo ls le ((a, b) ∷ y ∷ ys) c e = ground (arith, last?-ge (suc b) ls le (y ∷ ys) c.2 e)

-- The hot path: the new range starts at the last one's start or after it.
insert_merge_hot :
    (lo : ℕ) (xs : List Interval) (ls le s e : ℕ)
    → CoalescedFrom lo xs
    → last? xs ≡ some (ls, le)
    → ls ≤ s
    → s < e
    → insert_merge xs s e
      ≡ (if leb s le then (if ltb le e then set_last xs (ls, e) else xs) else xs ++ ((s, e) ∷ []))
unfolding insert_merge last? set_last
insert_merge_hot lo [] ls le s e c p l h = cc
insert_merge_hot lo ((a, b) ∷ []) ls le s e c p l h = ground arith
insert_merge_hot lo ((a, b) ∷ y ∷ ys) ls le s e c p l h = ground (
  arith,
  last?-ge (suc b) ls le (y ∷ ys) c.2 p,
  insert_merge_hot (suc b) (y ∷ ys) ls le s e c.2 p l h,
)

module _ (s e : ℕ) (h : s < e) where
  add_out_of_order-fuse_at :
      (xs : List Interval)
      → add_out_of_order xs s e ≡ fuse_at s e h xs (bisect_left xs s) (bisect_right xs e)
  unfolding add_out_of_order
  add_out_of_order-fuse_at xs = refl

  -- Off the hot path too, `add` is the one recursion.
  add_out_of_order-insert_merge :
      (lo : ℕ) (xs : List Interval)
      → CoalescedFrom lo xs
      → fuse_at s e h xs (bisect_left xs s) (bisect_right xs e) ≡ insert_merge xs s e
  unfolding bisect_left bisect_right insert_merge
  add_out_of_order-insert_merge lo [] c = refl
  add_out_of_order-insert_merge lo ((a, b) ∷ xs) c = elim (Bool-cases (ltb b s)) [
    | inl p ↦
        let near : leb a e ≡ true = ground arith in
        rw (p, near)
          (fuse_at_skip s e h (a, b) xs _ _ (bisect_left-le-bisect_right s e h (suc b) xs c.2)
            ∙ ap (λ t. (a, b) ∷ t) (add_out_of_order-insert_merge (suc b) xs c.2))
    | inr p ↦ elim (Bool-cases (ltb e a)) [
      | inl q ↦ let far : leb a e ≡ false = ground arith in rw (p, q, far) refl
      | inr q ↦
          let near : leb a e ≡ true = ground arith in
          let less : suc (bisect_right xs e) - 1 ≡ bisect_right xs e = omega arith in
          let there : max zero (suc (bisect_right xs e)) ≡ suc (bisect_right xs e) = omega arith in
          rw (p, q, near, less, there)
            (ground (arith, absorb s e h a b (min a s) xs c.2 (omega arith)))
    ]
  ]

add_empty : (xs : List Interval) (s e : ℕ) → e ≤ s → add xs s e ≡ xs
unfolding add
add_empty xs s e l = ground arith

last?-none : (xs : List Interval) → last? xs ≡ none → xs ≡ []
unfolding last?
last?-none [] q = refl
last?-none (x ∷ []) q = cc
last?-none (x ∷ y ∷ ys) q = cc (last?-none (y ∷ ys) q)

add_proper :
    (xs : List Interval) (s e : ℕ) (o : Option Interval)
    → IsCoalesced xs
    → s < e
    → last? xs ≡ o
    → add xs s e ≡ insert_merge xs s e
unfolding add
add_proper xs s e none c l q =
    let proper : leb e s ≡ false = ground arith in
    let nil : xs ≡ [] = last?-none xs q in rw nil (rw proper (unfold insert_merge in refl))
add_proper xs s e (some (ls, le)) c l q =
    let proper : leb e s ≡ false = ground arith in
    elim (Bool-cases (leb ls s)) [
      | inl p ↦
          rw (proper, q, p)
            (sym (insert_merge_hot 0 xs ls le s e c q (omega (arith, leb→le ls s p)) l))
      | inr p ↦
          rw (proper, q, p)
            (add_out_of_order-fuse_at s e l xs ∙ add_out_of_order-insert_merge s e l 0 xs c)
    ]

-- On a coalesced list `add` is `insert_merge`; an empty or reversed range is ignored.
pub add-insert_merge :
    (xs : List Interval) (s e : ℕ)
    → IsCoalesced xs
    → add xs s e ≡ (if ltb s e then insert_merge xs s e else xs)
add-insert_merge xs s e c = elim (Bool-cases (ltb s e)) [
  | inr p ↦ rw p (add_empty xs s e (ltb→ge s e p))
  | inl p ↦ rw p (add_proper xs s e (last? xs) c (ltb→lt s e p) refl)
]

-- Adding a range to a coalesced list, in any order of arrival and empty or reversed ranges
-- included, gives a coalesced list that covers the old offsets and those of the range, no others.
pub covers-add :
    (xs : List Interval) (s e : ℕ)
    → IsCoalesced xs
    → IsCoalesced (add xs s e) × ((o : ℕ) → covers (add xs s e) o ≡ (inside s e o || covers xs o))
covers-add xs s e c = elim (Bool-cases (ltb s e)) [
  | inr p ↦
      rw (add-insert_merge xs s e c, p)
        (c, λ o. let out : inside s e o ≡ false = ground arith in rw out)
  | inl p ↦
      let l : s < e = ltb→lt s e p in
      rw (add-insert_merge xs s e c, p)
        (
          insert_merge-CoalescedFrom 0 xs s e c l (omega arith),
          λ o. covers-insert_merge 0 xs s e o c l,
        )
]

add_all-IsCoalesced :
    (merged xs : List Interval)
    → IsCoalesced merged
    → IsCoalesced (add_all merged xs)
      × ((o : ℕ) → covers (add_all merged xs) o ≡ (covers xs o || covers merged o))
unfolding add_all covers
add_all-IsCoalesced merged [] c = (c, λ o. refl)
add_all-IsCoalesced merged ((s, e) ∷ xs) c =
    let (c', h) = covers-add merged s e c in
    let (c'', h') = add_all-IsCoalesced (add merged s e) xs c' in
    (c'', λ o. ground (arith, h o, h' o))

covers-insert_sorted :
    (x : Interval) (xs : List Interval) (o : ℕ) → covers (insert_sorted x xs) o ≡ covers (x ∷ xs) o
unfolding covers insert_sorted
covers-insert_sorted (s, e) [] o = refl
covers-insert_sorted (s, e) ((a, b) ∷ xs) o = ground (arith, covers-insert_sorted (s, e) xs o)

covers-sorted : (xs : List Interval) (o : ℕ) → covers (sorted xs) o ≡ covers xs o
unfolding covers sorted
covers-sorted [] o = refl
covers-sorted ((s, e) ∷ xs) o =
    covers-insert_sorted (s, e) (sorted xs) o ∙ ap (λ t. inside s e o || t) (covers-sorted xs o)

-- `coalesce` returns a coalesced list that covers exactly the offsets of the list it was given,
-- whatever that list's order, overlaps and empty ranges.
pub covers-coalesce :
    (xs : List Interval)
    → IsCoalesced (coalesce xs) × ((o : ℕ) → covers (coalesce xs) o ≡ covers xs o)
unfolding coalesce covers
covers-coalesce xs =
    let (c, h) = add_all-IsCoalesced [] (sorted xs) tt in
    (c, λ o. ground (arith, h o, covers-sorted xs o))
