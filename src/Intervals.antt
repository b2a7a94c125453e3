-- ===== src/Intervals.antt =====
-- _intervals.py: half-open integer intervals, and the coalesced lists of them.
pub mod Spec
pub mod Insert
pub mod Add
pub mod Canonical
pub mod Gaps
use Spec.{Interval}
use python_zipline.Base.{
  ℕ, zero, suc, ◌+◌, ◌-◌, ◌≤◌, ◌<◌, min, max, Bool, true, false, ◌&&◌, ◌||◌, Option, none, some,
  List, [], ◌∷◌, ◌++◌, ltb, leb, ◌==◌, if◌then◌else◌, get_or, take, drop,
}

-- `into[-1]`
last? : List Interval → Option Interval
last? [] = none
last? (x ∷ []) = some x
last? (x ∷ y ∷ ys) = last? (y ∷ ys)

-- `into[-1] = x`
set_last : List Interval → Interval → List Interval
set_last [] x = []
set_last (y ∷ []) x = x ∷ []
set_last (y ∷ z ∷ zs) x = y ∷ set_last (z ∷ zs) x

-- `bisect_left(into, x, key=_END)`: how many ranges, from the front, end before `x`.
bisect_left : List Interval → ℕ → ℕ
bisect_left [] x = 0
bisect_left ((a, b) ∷ rest) x = if ltb b x then suc (bisect_left rest x) else 0

-- `bisect_right(into, x, key=_START)`: how many ranges, from the front, start at `x` or before.
bisect_right : List Interval → ℕ → ℕ
bisect_right [] x = 0
bisect_right ((a, b) ∷ rest) x = if leb a x then suc (bisect_right rest x) else 0

-- `into[lo:hi] = [x]`
splice : List Interval → ℕ → ℕ → Interval → List Interval
splice into lo hi x = take lo into ++ (x ∷ drop (max lo hi) into)

-- The end of `add`, off the hot path. The two indices are in range wherever `into` is coalesced.
add_out_of_order : List Interval → ℕ → ℕ → List Interval
unfolding bisect_left bisect_right splice
add_out_of_order into start end =
    let lo = bisect_left into start in
    let hi = bisect_right into end in
    if lo == hi
    then splice into lo lo (start, end)
    else (let low = get_or into lo (0, 0) in
        let high = get_or into (hi - 1) (0, 0) in
        splice into lo hi (min start low.0, max end high.1))

-- The list is updated in place in the source; here the new list is returned.
unfoldable pub add : List Interval → ℕ → ℕ → List Interval
unfolding last? set_last add_out_of_order
add into start end = if leb end start then into else elim (last? into) [
  | none ↦ (start, end) ∷ []
  | some (last_start, last_end) ↦
      if leb last_start start
      then (if leb start last_end
          then (if ltb last_end end then set_last into (last_start, end) else into)
          else into ++ ((start, end) ∷ []))
      else add_out_of_order into start end
]

-- The order of Python's tuples.
abbrev before : Interval → Interval → Bool
before (a, b) (c, d) = if a == c then leb b d else ltb a c

insert_sorted : Interval → List Interval → List Interval
insert_sorted x [] = x ∷ []
insert_sorted x (y ∷ ys) = if before x y then x ∷ (y ∷ ys) else y ∷ insert_sorted x ys

-- `sorted(intervals)`
sorted : List Interval → List Interval
unfolding insert_sorted
sorted [] = []
sorted (x ∷ xs) = insert_sorted x (sorted xs)

-- The loop of `coalesce`.
add_all : List Interval → List Interval → List Interval
unfolding add
add_all merged [] = merged
add_all merged ((start, end) ∷ rest) = add_all (add merged start end) rest

unfoldable pub coalesce : List Interval → List Interval
unfolding add_all sorted
coalesce intervals = add_all [] (sorted intervals)

-- The loop of `complement`, from `position` on: the gaps that it appends. It ends at the first
-- range that reaches the extent; the last gap is appended behind the loop.
complement_loop : List Interval → ℕ → ℕ → List Interval
complement_loop [] extent position = if ltb position extent then (position, extent) ∷ [] else []
complement_loop ((start, end) ∷ rest) extent position =
    let position' = max position end in
    let after = complement_loop rest extent position' in
    let later = if leb extent position' then [] else after in
    if ltb position start then (position, min start extent) ∷ later else later

nonempty : List Interval → List Interval
nonempty [] = []
nonempty ((start, end) ∷ rest) =
    let rest' = nonempty rest in if ltb start end then (start, end) ∷ rest' else rest'

unfoldable pub complement : List Interval → ℕ → List Interval
unfolding complement_loop nonempty
complement intervals extent = nonempty (complement_loop intervals extent 0)

-- The two lists are what the indices `i` and `j` have not passed.
pub intersections : List Interval → List Interval → List Interval
intersections [] second = []
intersections (x ∷ xs) [] = []
intersections ((a, b) ∷ xs) ((c, d) ∷ ys) =
    let start = max a c in
    let end = min b d in
    let rest : List Interval = elim (leb b d) [
      | true ↦ intersections xs ((c, d) ∷ ys)
      | false ↦ intersections ((a, b) ∷ xs) ys
    ] in
    if ltb start end then (start, end) ∷ rest else rest
