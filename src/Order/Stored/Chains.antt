-- ===== src/Order/Stored/Chains.antt =====
-- The per-participant rule of `verify_sequenced`.
use mathlib.Core.Path.{subst}
use python_zipline.Base.{
  ℕ, ◌≡◌, ◌≢◌, ◌↔◌, refl, sym, ap, ◌∙◌, Bool, true, false, Option, none, some, List, [], ◌∷◌, ◌==◌,
  if◌then◌else◌, arith, Bool-cases, inl, inr, ==_iff,
}
use python_zipline.Base.Int.{ℤ}
use python_zipline.Base.Outcome.{Outcome, ok, raised, ◌>>=◌, >>=-eq-ok, ok-injective}
use python_zipline.Blocks.Types.{Record}
use python_zipline.Order.Serial.{seq_leq}
use python_zipline.Order.Walk.{StreamPlacer, stream_place, sequence_end}
use python_zipline.Order.Merge.{in_order}
use python_zipline.Order.Stored.{
  PidMap, get, put, placer_for, StoredOrder, stored_order, note_sender, check_seq, check_end,
  note_ack, note_if_ok, place_and_check, observe_record, observe_records, verify_sequenced,
}

pub get-put :
    {V : Type 0} (p q : ℕ) (v : V) (m : PidMap V)
    → get p (put q v m) ≡ (if q == p then some v else get p m)
unfolding get put
get-put p q v [] = refl
get-put p q v ((k, w) ∷ m) = ground (arith, get-put p q v m)

-- The `seq_start` values of one sender, in stored order.
abbrev cons_if : Bool → Option ℕ → List ℕ → List ℕ
cons_if true (some s) rest = s ∷ rest
cons_if true none rest = rest
cons_if false o rest = rest

unfoldable pub seqs_of : ℕ → List Record → List ℕ
seqs_of p [] = []
seqs_of p (r ∷ rs) = cons_if (r.sender_pid == p) r.seq_start (seqs_of p rs)

-- Each is serially at or past the one before it.
abbrev pub ChainFrom : Option ℕ → List ℕ → Type 0
ChainFrom last [] = Unit {0}
ChainFrom none (s ∷ rest) = ChainFrom (some s) rest
ChainFrom (some last) (s ∷ rest) = (seq_leq last s ≡ true) × ChainFrom (some s) rest

abbrev note_seq : ℕ → Option ℕ → PidMap ℕ → PidMap ℕ
note_seq pid none m = m
note_seq pid (some s) m = put pid s m

note_ack-last_seq :
    (pid : ℕ) (ack : Option ℕ) (s : StoredOrder)
    → ((note_ack pid ack s).last_seq ≡ s.last_seq)
      × ((note_ack pid ack s).ack_checks ≡ s.ack_checks)
unfolding note_ack
note_ack-last_seq pid none s = (refl, refl)
note_ack-last_seq pid (some ack) s = ground arith

check_seq-ok :
    (pid : ℕ) (o : Option ℕ) (s s' : StoredOrder)
    → check_seq pid o s ≡ ok s'
    → (in_order (get pid s.last_seq) o ≡ true) × (s'.last_seq ≡ note_seq pid o s.last_seq)
unfolding check_seq in_order
check_seq-ok pid none s s' h = ground arith
check_seq-ok pid (some n) s s' h = elim (Bool-cases (in_order (get pid s.last_seq) (some n))) [
  | inl t ↦ (t, sym (ap (λ (z : StoredOrder). z.last_seq) (ok-injective (rw (t, check_seq) at h))))
  | inr t ↦ cc (rw (t, check_seq) at h)
]

note_if_ok-last_seq :
    (pid : ℕ) (ack : Option ℕ) (s s' : StoredOrder) (o : Outcome (Unit {0}))
    → note_if_ok pid ack s o ≡ ok s'
    → s'.last_seq ≡ s.last_seq
unfolding note_if_ok
note_if_ok-last_seq pid ack s s' (raised e) h = cc
note_if_ok-last_seq pid ack s s' (ok u) h =
    subst (λ (z : StoredOrder). z.last_seq ≡ s.last_seq) (ok-injective h)
      (note_ack-last_seq pid ack s).0

place_and_check-ok :
    (r : Record) (s s' : StoredOrder) → place_and_check r s ≡ ok s' → s'.last_seq ≡ s.last_seq
unfolding place_and_check
place_and_check-ok r s s' h = note_if_ok-last_seq r.sender_pid r.ack _ s' _ h

-- A record that passes is in its sender's order, and becomes the sender's last.
observe_record-ok :
    (r : Record) (s s' : StoredOrder)
    → observe_record r s ≡ ok s'
    → (in_order (get r.sender_pid s.last_seq) r.seq_start ≡ true)
      × (s'.last_seq ≡ note_seq r.sender_pid r.seq_start s.last_seq)
unfolding observe_record
observe_record-ok r s s' h =
    let (s₁, e, h₁) =
      >>=-eq-ok (check_seq r.sender_pid r.seq_start (note_sender r.sender_pid s))
        (place_and_check r) h in
    let (p, q) = check_seq-ok r.sender_pid r.seq_start (note_sender r.sender_pid s) s₁ e in
    (p, place_and_check-ok r s₁ s' h₁ ∙ q)

chain_cons :
    (last : Option ℕ) (n : ℕ) (rest : List ℕ)
    → ((in_order last (some n) ≡ true) × ChainFrom (some n) rest) ↔ ChainFrom last (n ∷ rest)
unfolding in_order
chain_cons none n rest = (λ h. h.1, λ h. (refl, h))
chain_cons (some l) n rest = (λ h. h, λ h. h)

-- The chains of one sender, one record longer.
chain_step :
    (p q : ℕ) (o : Option ℕ) (m : PidMap ℕ) (rest : List ℕ)
    → in_order (get q m) o ≡ true
    → ChainFrom (get p (note_seq q o m)) rest
    → ChainFrom (get p m) (cons_if (q == p) o rest)
chain_step p q none m rest h c = elim (Bool-cases (q == p)) [ inl t ↦ rw t c | inr t ↦ rw t c ]
chain_step p q (some n) m rest h c = elim (Bool-cases (q == p)) [
  | inl t ↦
      let same : q ≡ p = (==_iff q p).0 t in
      rw t ((chain_cons (get p m) n rest).0 (rw same at h, rw (get-put p q n m, t) at c))
  | inr t ↦ rw t (rw (get-put p q n m, t) at c)
]

chain_first :
    (q : ℕ) (o : Option ℕ) (m : PidMap ℕ) (rest : List ℕ)
    → ChainFrom (get q m) (cons_if true o rest)
    → in_order (get q m) o ≡ true
chain_first q none m rest c = unfold in_order in refl
chain_first q (some n) m rest c = ((chain_cons (get q m) n rest).1 c).0

chain_unstep :
    (p q : ℕ) (o : Option ℕ) (m : PidMap ℕ) (rest : List ℕ)
    → ChainFrom (get p m) (cons_if (q == p) o rest)
    → ChainFrom (get p (note_seq q o m)) rest
chain_unstep p q none m rest c = elim (Bool-cases (q == p)) [
  | inl t ↦ rw t at c
  | inr t ↦ rw t at c
]
chain_unstep p q (some n) m rest c = elim (Bool-cases (q == p)) [
  | inl t ↦ rw (get-put p q n m, t) ((chain_cons (get p m) n rest).1 (rw t at c)).1
  | inr t ↦ rw (get-put p q n m, t) (rw t at c)
]

-- Whatever the count, a stored order that passes has every sender's `seq_start` values serially
-- non-decreasing.
observe_records-chains :
    (rs : List Record) (s s' : StoredOrder)
    → observe_records rs s ≡ ok s'
    → (p : ℕ) → ChainFrom (get p s.last_seq) (seqs_of p rs)
unfolding observe_records seqs_of
observe_records-chains [] s s' h p = tt
observe_records-chains (r ∷ rs) s s' h p =
    let (s₁, e, h₁) = >>=-eq-ok (observe_record r s) (observe_records rs) h in
    let (k, l) = observe_record-ok r s s₁ e in
    chain_step p r.sender_pid r.seq_start s.last_seq (seqs_of p rs) k
      (subst (λ m. ChainFrom (get p m) (seqs_of p rs)) l (observe_records-chains rs s₁ s' h₁ p))

-- The rule of every sender, over a whole stored order.
abbrev pub SendersInOrder : List Record → Type 0
SendersInOrder rs = (p : ℕ) → ChainFrom none (seqs_of p rs)

-- Whatever the count and the acks, a stored order that `verify_sequenced` accepts has every sender's
-- `seq_start` values serially non-decreasing.
verify_sequenced-SendersInOrder :
    (rs : List Record) (count : Option ℕ) (isns : ℕ → Option ℕ)
    → verify_sequenced rs count isns ≡ ok tt
    → SendersInOrder rs
unfolding verify_sequenced get
verify_sequenced-SendersInOrder rs count isns h p =
    let (s', e, _) = >>=-eq-ok (observe_records rs (stored_order count isns)) (λ _. ok tt) h in
    observe_records-chains rs (stored_order count isns) s' e p

check_end-off :
    (pid : ℕ) (e : Option ℤ) (o : Option ℕ) (s : StoredOrder)
    → s.ack_checks ≡ false
    → check_end pid e o s ≡ ok tt
unfolding check_end
check_end-off pid none o s a = refl
check_end-off pid (some e) none s a = refl
check_end-off pid (some e) (some o) s a = rw a

check_seq-passes :
    (pid : ℕ) (o : Option ℕ) (s : StoredOrder)
    → in_order (get pid s.last_seq) o ≡ true
    → (s' : StoredOrder) × (check_seq pid o s ≡ ok s') × (s'.ack_checks ≡ s.ack_checks)
unfolding check_seq
check_seq-passes pid none s h = (s, refl, refl)
check_seq-passes pid (some n) s h = (record s { last_seq = put pid n s.last_seq }, rw h, refl)

place_and_check-passes :
    (r : Record) (s : StoredOrder)
    → s.ack_checks ≡ false
    → (s' : StoredOrder) × (place_and_check r s ≡ ok s') × (s'.ack_checks ≡ false)
unfolding place_and_check note_if_ok
place_and_check-passes r s a =
    let pid = r.sender_pid in
    let placed : Option ℤ × StreamPlacer = stream_place r (placer_for pid (get pid s.placers) s) in
    let s' : StoredOrder = record s { placers = put pid placed.1 s.placers } in
    (
      note_ack pid r.ack s',
      ap (note_if_ok pid r.ack s')
          (check_end-off pid (sequence_end r placed.0) placed.1.origin s' a),
      (note_ack-last_seq pid r.ack s').1 ∙ a,
    )

-- With no ack checks a record that is in its sender's order passes.
observe_record-passes :
    (r : Record) (s : StoredOrder)
    → s.ack_checks ≡ false
    → in_order (get r.sender_pid s.last_seq) r.seq_start ≡ true
    → (s' : StoredOrder) × (observe_record r s ≡ ok s') × (s'.ack_checks ≡ false)
unfolding observe_record
observe_record-passes r s a h =
    let noted : StoredOrder = note_sender r.sender_pid s in
    let off : noted.ack_checks ≡ false = unfold note_sender in (rw a) in
    let (s₁, e, k) = check_seq-passes r.sender_pid r.seq_start noted (unfold note_sender in h) in
    let (s₂, e₂, k₂) = place_and_check-passes r s₁ (k ∙ off) in
    (s₂, ap (λ o. o >>= place_and_check r) e ∙ e₂, k₂)

observe_records-passes :
    (rs : List Record) (s : StoredOrder)
    → s.ack_checks ≡ false
    → ((p : ℕ) → ChainFrom (get p s.last_seq) (seqs_of p rs))
    → (s' : StoredOrder) × (observe_records rs s ≡ ok s')
unfolding observe_records seqs_of
observe_records-passes [] s a c = (s, refl)
observe_records-passes (r ∷ rs) s a c =
    let q : ℕ = r.sender_pid in
    let self : (q == q) ≡ true = (==_iff q q).1 refl in
    let first = chain_first q r.seq_start s.last_seq (seqs_of q rs) (rw self at (c q)) in
    let (s₁, e, a₁) = observe_record-passes r s a first in
    let (_, l) = observe_record-ok r s s₁ e in
    let (s₂, e₂) = observe_records-passes rs s₁ a₁ (λ p.
      subst (λ m. ChainFrom (get p m) (seqs_of p rs)) (sym l)
        (chain_unstep p q r.seq_start s.last_seq (seqs_of p rs) (c p))) in
    (s₂, ap (λ o. o >>= observe_records rs) e ∙ e₂)

-- In a session of any known number of participants but two, `verify_sequenced` accepts a stored order
-- exactly when every sender's `seq_start` values are serially non-decreasing.
pub verify_sequenced_exact :
    (rs : List Record) (count : ℕ) (isns : ℕ → Option ℕ)
    → count ≢ 2
    → (verify_sequenced rs (some count) isns ≡ ok tt) ↔ SendersInOrder rs
verify_sequenced_exact rs count isns h =
    (verify_sequenced-SendersInOrder rs (some count) isns, accepts)
  where
    off : (count == 2) ≡ false
    off = ground arith

    accepts : SendersInOrder rs → verify_sequenced rs (some count) isns ≡ ok tt
    accepts c =
        let (s', e) =
          observe_records-passes rs (stored_order (some count) isns) (unfold stored_order in off)
            (unfold stored_order get in c) in
        unfold verify_sequenced in (ap (λ o. o >>= λ _. ok tt) e)
