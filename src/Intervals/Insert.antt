-- ===== src/Intervals/Insert.antt =====
-- Insertion into a coalesced list by one recursion: the reference that `add` is compared with.
use python_zipline.Base.{
  ℕ, suc, ◌≤◌, ◌<◌, ◌≡◌, refl, min, max, ◌||◌, inl, inr, List, [], ◌∷◌, ltb, if◌then◌else◌, arith,
  Bool-cases, tests, ltb→lt,
}
use python_zipline.Intervals.Spec.{Interval, inside, covers, CoalescedFrom, CoalescedFrom-le}

unfoldable pub insert_merge : List Interval → ℕ → ℕ → List Interval
insert_merge [] s e = (s, e) ∷ []
insert_merge ((a, b) ∷ rest) s e =
    let skip = (a, b) ∷ insert_merge rest s e in
    let fuse = insert_merge rest (min a s) (max b e) in
    if ltb b s then skip else if ltb e a then (s, e) ∷ ((a, b) ∷ rest) else fuse

pub covers-insert_merge :
    (lo : ℕ) (xs : List Interval) (s e o : ℕ)
    → CoalescedFrom lo xs
    → s < e
    → covers (insert_merge xs s e) o ≡ (inside s e o || covers xs o)
unfolding covers insert_merge
covers-insert_merge lo [] s e o c h = refl
covers-insert_merge lo ((a, b) ∷ xs) s e o c h = ground (
  arith,
  covers-insert_merge (suc b) xs s e o c.2 h,
  covers-insert_merge (suc b) xs (min a s) (max b e) o c.2 (omega arith),
)

pub insert_merge-CoalescedFrom :
    (lo : ℕ) (xs : List Interval) (s e : ℕ)
    → CoalescedFrom lo xs
    → s < e
    → lo ≤ s
    → CoalescedFrom lo (insert_merge xs s e)
unfolding insert_merge
insert_merge-CoalescedFrom lo [] s e c h l = (l, h, tt)
insert_merge-CoalescedFrom lo ((a, b) ∷ xs) s e c h l = elim (Bool-cases (ltb b s)) [
  | inl p ↦ rw p (c.0, c.1, insert_merge-CoalescedFrom (suc b) xs s e c.2 h (ltb→lt b s p))
  | inr p ↦ elim (Bool-cases (ltb e a)) [
    | inl q ↦ rw (p, q) (l, h, (omega tests, c.1, c.2))
    | inr q ↦
        rw (p, q)
          (insert_merge-CoalescedFrom lo xs (min a s) (max b e)
            (CoalescedFrom-le (suc b) lo xs (omega arith) c.2) (omega arith) (omega arith))
  ]
]
