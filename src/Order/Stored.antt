-- ===== src/Order/Stored.antt =====
-- The stored-order check of order.py: `_StoredOrder` and `verify_sequenced`.
pub mod Chains
use python_zipline.Base.{
  ℕ, zero, suc, ◌+◌, ◌≤◌, Bool, true, false, not, ◌&&◌, ◌||◌, Option, none, some, List, [], ◌∷◌,
  ltb, leb, ◌==◌, if◌then◌else◌, length, is_some,
}
use python_zipline.Base.Int.{ℤ, pos, ltb_ℤ, leb_ℤ}
use python_zipline.Base.Outcome.{Fault, semantic, Outcome, ok, raised, ◌>>=◌, ◌>>◌, guard}
use python_zipline.Blocks.Types.{Record}
use python_zipline.Order.Walk.{
  StreamPlacer, stream_placer, stream_place, sequence_end, AckWalk, ack_walk, observe, position,
}
use python_zipline.Order.Merge.{in_order}

-- A `dict` keyed by participant id, in order of insertion.
abbrev pub PidMap : Type 0 → Type 0
PidMap V = List (ℕ × V)

unfoldable pub get : {V : Type 0} → ℕ → PidMap V → Option V
get pid [] = none
get pid ((p, v) ∷ rest) = if p == pid then some v else get pid rest

unfoldable pub put : {V : Type 0} → ℕ → V → PidMap V → PidMap V
put pid v [] = (pid, v) ∷ []
put pid v ((p, w) ∷ rest) = if p == pid then (pid, v) ∷ rest else (p, w) ∷ put pid v rest

-- A set of participant ids, without repetition.
add_sender : ℕ → List ℕ → List ℕ
add_sender pid [] = pid ∷ []
add_sender pid (p ∷ ps) = if p == pid then p ∷ ps else p ∷ add_sender pid ps

pub record StoredOrder : Type 0 where
  pub last_seq : PidMap ℕ
  pub isns : ℕ → Option ℕ
  pub placers : PidMap StreamPlacer
  pub acks : PidMap AckWalk
  pub senders : List ℕ
  pub count : Option ℕ
  pub ack_checks : Bool

-- `participant_count == 2 or participant_count is None`
abbrev pub checks_acks : Option ℕ → Bool
checks_acks none = true
checks_acks (some count) = count == 2

unfoldable pub stored_order : Option ℕ → (ℕ → Option ℕ) → StoredOrder
stored_order count isns = record {
  last_seq = [];
  isns = isns;
  placers = [];
  acks = [];
  senders = [];
  count = count;
  ack_checks = checks_acks count;
}

-- The first lines of `observe`: the sender is known, and from a third one on no ack is checked.
note_sender : ℕ → StoredOrder → StoredOrder
unfolding add_sender
note_sender pid s =
    let senders' = add_sender pid s.senders in
    record s {
      senders = senders';
      ack_checks = s.ack_checks && (is_some s.count || leb (length senders') 2);
    }

-- The per-participant rule.
check_seq : ℕ → Option ℕ → StoredOrder → Outcome StoredOrder
check_seq pid none s = ok s
check_seq pid (some seq_start) s =
    if in_order (get pid s.last_seq) (some seq_start)
    then ok (record s { last_seq = put pid seq_start s.last_seq })
    else raised semantic

placer_for : ℕ → Option StreamPlacer → StoredOrder → StreamPlacer
placer_for pid none s = stream_placer (s.isns pid)
placer_for pid (some placer) s = placer

-- One peer's highest ack against the record's end.
check_peer : ℤ → ℕ → AckWalk → Option ℤ → Outcome (Unit {0})
check_peer end origin walk none = ok tt
check_peer end origin walk (some highest) = do
  acked ← position walk highest origin
  guard (ltb_ℤ acked end) semantic

-- _check_not_already_acked
check_acked : ℕ → ℤ → ℕ → PidMap AckWalk → Outcome (Unit {0})
unfolding check_peer
check_acked pid end origin [] = ok tt
check_acked pid end origin ((other, walk) ∷ rest) = do
  if other == pid then ok tt else check_peer end origin walk walk.highest
  check_acked pid end origin rest

check_end : ℕ → Option ℤ → Option ℕ → StoredOrder → Outcome (Unit {0})
unfolding check_acked
check_end pid none origin s = ok tt
check_end pid (some end) none s = ok tt
check_end pid (some end) (some origin) s =
    if s.ack_checks then check_acked pid end origin s.acks else ok tt

walk_for : Option AckWalk → AckWalk
walk_for none = ack_walk
walk_for (some walk) = walk

-- The last lines of `observe`: the record's own ack.
note_ack : ℕ → Option ℕ → StoredOrder → StoredOrder
unfolding walk_for
note_ack pid none s = s
note_ack pid (some ack) s =
    if s.ack_checks
    then record s { acks = put pid (observe ack (walk_for (get pid s.acks))).1 s.acks }
    else s

note_if_ok : ℕ → Option ℕ → StoredOrder → Outcome (Unit {0}) → Outcome StoredOrder
unfolding note_ack
note_if_ok pid ack s (raised e) = raised e
note_if_ok pid ack s (ok u) = ok (note_ack pid ack s)

-- The part of `observe` behind the per-participant rule.
place_and_check : Record → StoredOrder → Outcome StoredOrder
unfolding placer_for check_end note_if_ok
place_and_check r s =
    let pid = r.sender_pid in
    let (offset, placer) = stream_place r (placer_for pid (get pid s.placers) s) in
    let s' : StoredOrder = record s { placers = put pid placer s.placers } in
    note_if_ok pid r.ack s' (check_end pid (sequence_end r offset) placer.origin s')

unfoldable pub observe_record : Record → StoredOrder → Outcome StoredOrder
unfolding note_sender check_seq place_and_check
observe_record r s =
    check_seq r.sender_pid r.seq_start (note_sender r.sender_pid s) >>= place_and_check r

unfoldable pub observe_records : List Record → StoredOrder → Outcome StoredOrder
unfolding observe_record
observe_records [] s = ok s
observe_records (r ∷ rs) s = observe_record r s >>= observe_records rs

unfoldable pub verify_sequenced : List Record → Option ℕ → (ℕ → Option ℕ) → Outcome (Unit {0})
unfolding observe_records stored_order
verify_sequenced records count isns =
    observe_records records (stored_order count isns) >>= λ _. ok tt
