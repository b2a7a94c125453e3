-- ===== src/Order/Merge.antt =====
-- The streaming merge of order.py: `_Frontier`, `_pair_ready`, `_merge_key` and `causal_merge`.
pub mod Step
pub mod Total
pub mod Key
pub mod Bound
pub mod Acked
use python_zipline.Base.{
  ℕ, zero, suc, ◌+◌, ◌≤◌, Bool, true, false, not, ◌&&◌, ◌||◌, Option, none, some, List, [], ◌∷◌,
  map, ltb, leb, ◌==◌, if◌then◌else◌, length, set, is_some,
}
use python_zipline.Base.Int.{ℤ, pos, ◌+ℤ◌, ltb_ℤ, max_ℤ}
use python_zipline.Base.Outcome.{Fault, semantic, Outcome, ok, raised, ◌>>=◌, ◌>>◌, guard}
use python_zipline.Blocks.Types.{Record}
use python_zipline.Order.Serial.{seq_leq}
use python_zipline.Order.Walk.{
  StreamPlacer, stream_placer, stream_place, sequence_end, AckWalk, ack_walk, observe, position,
}

pub record Frontier : Type 0 where
  pub pid : ℕ
  pub stream : List Record
  pub head : Option Record
  pub last_seq : Option ℕ
  pub placer : StreamPlacer
  pub acks : AckWalk
  pub head_offset : Option ℤ
  pub head_end : Option ℤ
  pub head_ack : Option ℤ
  pub reached : ℤ

unfoldable pub frontier : ℕ → List Record → Option ℕ → Frontier
frontier pid stream isn = record {
  pid = pid;
  stream = stream;
  head = none;
  last_seq = none;
  placer = stream_placer isn;
  acks = ack_walk;
  head_offset = none;
  head_end = none;
  head_ack = none;
  reached = pos 0;
}

-- `last_seq is not None and not seq_leq(last_seq, seq_start)` is the fault.
unfoldable pub in_order : Option ℕ → Option ℕ → Bool
in_order last none = true
in_order none (some seq_start) = true
in_order (some last) (some seq_start) = seq_leq last seq_start

abbrev pub or_last : Option ℕ → Option ℕ → Option ℕ
or_last last none = last
or_last last (some seq_start) = some seq_start

abbrev pub reach : ℤ → Option ℤ → ℤ
reach reached none = reached
reach reached (some end) = max_ℤ reached end

observe_head : Option ℕ → AckWalk → Option ℤ × AckWalk
observe_head none acks = (none, acks)
observe_head (some ack) acks = let (relative, acks') = observe ack acks in (some relative, acks')

-- The frontier with the record loaded: the later half of `advance`.
pub load : Record → List Record → Frontier → Frontier
unfolding observe_head
load r rest f =
    let (offset, placer') = stream_place r f.placer in
    let (relative, acks') = observe_head r.ack f.acks in
    record {
      pid = f.pid;
      stream = rest;
      head = some r;
      last_seq = or_last f.last_seq r.seq_start;
      placer = placer';
      acks = acks';
      head_offset = offset;
      head_end = sequence_end r offset;
      head_ack = relative;
      reached = reach f.reached f.head_end;
    }

pub advance_with : List Record → Frontier → Outcome Frontier
unfolding load
advance_with [] f = ok (record f {
  stream = [];
  head = none;
  head_offset = none;
  head_end = none;
  head_ack = none;
  reached = reach f.reached f.head_end;
})
advance_with (r ∷ rest) f = do guard (in_order f.last_seq r.seq_start) semantic; ok (load r rest f)

unfoldable pub advance : Frontier → Outcome Frontier
unfolding advance_with
advance f = advance_with f.stream f

-- The lowest end that the peer's head, or a record behind it, may have.
unfoldable pub peer_bound : Option ℤ → Option ℤ → ℤ → ℤ
peer_bound (some end) offset reached = end
peer_bound none (some offset) reached = max_ℤ reached (offset +ℤ pos 1)
peer_bound none none reached = reached

pub answered : Frontier → Frontier → Option ℤ → Option ℕ → Outcome Bool
unfolding peer_bound
answered f peer none origin = ok true
answered f peer (some ack) none = ok true
answered f peer (some ack) (some origin) =
    if is_some peer.head
    then (do
      acked ← position f.acks ack origin
      ok (ltb_ℤ acked (peer_bound peer.head_end peer.head_offset peer.reached)))
    else ok true

unfoldable pub pair_ready : Frontier → Frontier → Outcome Bool
unfolding answered
pair_ready f peer =
    if is_some f.head then answered f peer f.head_ack peer.placer.origin else ok false

-- A frontier is an object of the source, told apart by its place in the list.
abbrev pub Entry : Type 0
Entry = ℕ × Frontier

unfoldable pub with_head : ℕ → List Frontier → List Entry
with_head i [] = []
with_head i (f ∷ fs) =
    let rest = with_head (i + 1) fs in if is_some f.head then (i, f) ∷ rest else rest

abbrev pub if_ready : Bool → Entry → List Entry → List Entry
if_ready b e rest = if b then e ∷ rest else rest

-- Two frontiers: ready by their acks. With neither ready and a head left the merge has stalled.
pair_entries : Frontier → Frontier → Outcome Bool → Outcome Bool → Outcome (List Entry)
pair_entries f g (raised e) g_ready = raised e
pair_entries f g (ok f_ready) (raised e) = raised e
pair_entries f g (ok f_ready) (ok g_ready) =
    if f_ready || g_ready || not (is_some f.head || is_some g.head)
    then ok (if_ready f_ready (0, f) (if_ready g_ready (1, g) []))
    else raised semantic

-- `ready`, or the fault that stops the merge.
unfoldable pub ready_entries : List Frontier → Outcome (List Entry)
unfolding pair_entries
ready_entries (f ∷ g ∷ []) = pair_entries f g (pair_ready f g) (pair_ready g f)
ready_entries fs = ok (with_head 0 fs)

-- _merge_key
abbrev pub head_time : Option Record → ℤ
head_time none = pos 0
head_time (some r) = r.timestamp

unfoldable pub key_lt : Frontier → Frontier → Bool
key_lt f g =
    ltb_ℤ (head_time f.head) (head_time g.head)
    || (not (ltb_ℤ (head_time g.head) (head_time f.head)) && ltb f.pid g.pid)

-- `min(ready, key=_merge_key)`: the first of the least.
pub least_of : Entry → List Entry → Entry
least_of best [] = best
least_of best (e ∷ es) = least_of (if key_lt e.1 best.1 then e else best) es

-- How the generator ends: it returns, or it raises. It never runs out of the fuel that it is given.
pub data Ending : Type 0 where
  done : Ending
  failed : Fault → Ending
  out_of_fuel : Ending

pub data Round : Type 0 where
  stop : Ending → Round
  again : Round
  emit : Record → List Frontier → Round

emit_after : Record → ℕ → List Frontier → Outcome Frontier → Round
emit_after r i fs (raised e) = stop (failed e)
emit_after r i fs (ok best) = emit r (set fs i best)

take_best : List Frontier → Entry → Option Record → Round
unfolding emit_after
take_best fs (i, best) none = again
take_best fs (i, best) (some r) = emit_after r i fs (advance best)

choose : List Frontier → Outcome (List Entry) → Round
unfolding take_best least_of
choose fs (raised e) = stop (failed e)
choose fs (ok []) = stop done
choose fs (ok (e ∷ es)) = let best = least_of e es in take_best fs best best.1.head

-- One turn of the loop of `causal_merge`.
unfoldable pub round : List Frontier → Round
unfolding choose
round fs = choose fs (ready_entries fs)

pub record Merged : Type 0 where
  pub yielded : List Record
  pub ending : Ending

-- What a turn leaves to the turns after it.
go_on : List Frontier → Round → (List Frontier → Merged) → Merged
go_on fs (stop e) next = record { yielded = []; ending = e }
go_on fs again next = next fs
go_on fs (emit r fs') next =
    let rest = next fs' in record { yielded = r ∷ rest.yielded; ending = rest.ending }

unfoldable pub merge_loop : ℕ → List Frontier → Merged
unfolding go_on
merge_loop zero fs = record { yielded = []; ending = out_of_fuel }
merge_loop (suc fuel) fs = go_on fs (round fs) (merge_loop fuel)

-- `sorted(streams.items())`: the keys of a mapping are distinct.
insert_pid : ℕ × List Record → List (ℕ × List Record) → List (ℕ × List Record)
insert_pid x [] = x ∷ []
insert_pid x (y ∷ ys) = if leb x.0 y.0 then x ∷ (y ∷ ys) else y ∷ insert_pid x ys

unfoldable pub sort_pids : List (ℕ × List Record) → List (ℕ × List Record)
unfolding insert_pid
sort_pids [] = []
sort_pids (x ∷ xs) = insert_pid x (sort_pids xs)

-- The frontiers, each advanced to its first record.
unfoldable pub open_all : (ℕ → Option ℕ) → List (ℕ × List Record) → Outcome (List Frontier)
open_all isns [] = ok []
open_all isns ((pid, stream) ∷ rest) = do
  f ← advance (frontier pid stream (isns pid))
  fs ← open_all isns rest
  ok (f ∷ fs)

abbrev pub total : List (ℕ × List Record) → ℕ
total [] = 0
total ((pid, stream) ∷ rest) = length stream + total rest

start_merge : ℕ → Outcome (List Frontier) → Merged
start_merge fuel (raised e) = record { yielded = []; ending = failed e }
start_merge fuel (ok fs) = merge_loop fuel fs

unfoldable pub causal_merge : (ℕ → Option ℕ) → List (ℕ × List Record) → Merged
unfolding start_merge
causal_merge isns streams =
    start_merge (suc (total (sort_pids streams))) (open_all isns (sort_pids streams))
