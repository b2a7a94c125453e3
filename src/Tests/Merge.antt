-- ===== src/Tests/Merge.antt =====
-- The theorems on the merge and on the stored-order check of order.py at concrete sessions.
use python_zipline.Base.{ℕ, ◌≡◌, ◌≢◌, ◌↔◌, refl, Option, none, some, List, [], ◌∷◌, arith}
use python_zipline.Base.Int.{ℤ, pos, ◌+ℤ◌}
use python_zipline.Base.Outcome.{Outcome, ok, raised}
use python_zipline.Blocks.Types.{Record}
use python_zipline.Order.Serial.{serial_delta}
use python_zipline.Order.Merge.{
  Frontier, frontier, round, done, out_of_fuel, causal_merge, sort_pids,
}
use python_zipline.Base.{All, is_some, get_elem?, true, false}
use python_zipline.Order.Merge.{emit, key_lt, ready_entries, with_head, advance}
use python_zipline.Base.{◌⊎◌}
use python_zipline.Order.Walk.{position}
use python_zipline.Order.Merge.{in_order, pair_ready, peer_bound}
use python_zipline.Order.Walk.{
  sequence_end, stream_place, stream_placer, place, place_seq, placer, delta, step, start, observe,
}
use python_zipline.Order.Merge.Acked.{Released, round-Released}
use python_zipline.Order.Merge.Bound.{IsTidy}
use python_zipline.Order.Merge.Key.{round-least}
use python_zipline.Order.Merge.Total.{Interleaving, streams_of, causal_merge_total}
use python_zipline.Order.Stored.{verify_sequenced}
use python_zipline.Order.Stored.Chains.{SendersInOrder, verify_sequenced_exact}

abbrev said : ℕ → ℤ → Option ℕ → Option ℕ → Record
said pid timestamp seq_start ack = record {
  session_id = 1;
  sender_pid = pid;
  source_id = 0;
  timestamp = timestamp;
  payload = 65 ∷ 66 ∷ [];
  flags = 0;
  seq_start = seq_start;
  ack = ack;
  ts_first = none;
  spans = [];
  decoder_id = none;
  content_type = none;
  role = none;
  comment = none;
  extra_options = [];
}

-- A request, and the reply that acknowledges it.
abbrev talk : List (ℕ × List Record)
talk =
    (2, said 2 (pos 3) (some 900) (some 102) ∷ []) ∷ (1, said 1 (pos 5) (some 100) none ∷ []) ∷ []

abbrev no_isns : ℕ → Option ℕ
no_isns pid = none

causal_merge_total_example :
    ((causal_merge no_isns talk).ending ≢ out_of_fuel)
    × ((causal_merge no_isns talk).ending ≡ done
        → Interleaving (streams_of (sort_pids talk)) (causal_merge no_isns talk).yielded)
causal_merge_total_example = causal_merge_total no_isns talk

abbrev stored : List Record
stored = said 1 (pos 5) (some 100) none ∷ said 2 (pos 3) (some 900) (some 102) ∷ []

verify_sequenced_exact_example :
    (verify_sequenced stored (some 3) no_isns ≡ ok tt) ↔ SendersInOrder stored
verify_sequenced_exact_example = verify_sequenced_exact stored 3 no_isns (λ h. omega arith)

-- The head of a frontier whose stream is used up.
abbrev loaded : Record → Frontier
loaded r = record (frontier r.sender_pid [] none) { head = some r }

abbrev three : List Frontier
three =
    loaded (said 1 (pos 5) none none) ∷ loaded (said 2 (pos 3) none none) ∷ frontier 3 [] none ∷ []

abbrev after : List Frontier
after = loaded (said 1 (pos 5) none none) ∷ frontier 2 [] none ∷ frontier 3 [] none ∷ []

emits_earliest : round three ≡ emit (said 2 (pos 3) none none) after
unfolding round frontier ready_entries with_head key_lt advance
emits_earliest = refl

round-least_example :
    (i : ℕ) × (best : Frontier) × (get_elem? three i ≡ some best)
    × (best.head ≡ some (said 2 (pos 3) none none))
    × All (λ (f : Frontier). is_some f.head ≡ true → key_lt f best ≡ false) three
round-least_example =
    round-least three after (said 2 (pos 3) none none) (λ h. omega arith) emits_earliest

abbrev advanced : Outcome Frontier → Frontier → Frontier
advanced (ok f) otherwise = f
advanced (raised fault) otherwise = otherwise

-- A record with the bytes 2 and 3 of a stream that starts at 100, and an earlier reply that
-- acknowledges the bytes before them.
abbrev asking : Frontier
asking = frontier 1 (said 1 (pos 5) (some 102) none ∷ []) (some 99)

abbrev replying : Frontier
replying = frontier 2 (said 2 (pos 3) none (some 102) ∷ []) none

abbrev asking_next : Frontier
asking_next = advanced (advance asking) asking

abbrev replying_next : Frontier
replying_next = advanced (advance replying) replying

abbrev replied : List Frontier
replied = asking_next ∷ advanced (advance replying_next) replying_next ∷ []

asking_advances : advance asking ≡ ok asking_next
unfolding advance frontier in_order
asking_advances = refl

replying_advances : advance replying ≡ ok replying_next
unfolding advance frontier in_order
replying_advances = refl

asking-IsTidy : IsTidy asking
unfolding frontier stream_place stream_placer sequence_end serial_delta ◌+ℤ◌ place place_seq delta
    step start placer
asking-IsTidy = ((omega arith, tt), tt)

replying-IsTidy : IsTidy replying
unfolding frontier stream_place stream_placer sequence_end
replying-IsTidy = (tt, tt)

pair_round :
    round (asking_next ∷ replying_next ∷ []) ≡ emit (said 2 (pos 3) none (some 102)) replied
unfolding round frontier ready_entries with_head key_lt advance pair_ready position serial_delta
    ◌+ℤ◌ in_order stream_place stream_placer sequence_end place place_seq delta step start placer
    observe peer_bound
pair_round = refl

round-Released_example :
    ((asking_next.head ≡ some (said 2 (pos 3) none (some 102)))
      × Released asking_next replying replying_next)
    ⊎ ((replying_next.head ≡ some (said 2 (pos 3) none (some 102)))
        × Released replying_next asking asking_next)
round-Released_example =
    round-Released asking asking_next replying replying_next asking_advances replying_advances
      asking-IsTidy replying-IsTidy replied (said 2 (pos 3) none (some 102)) pair_round
