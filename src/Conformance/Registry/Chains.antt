-- ===== src/Conformance/Registry/Chains.antt =====
-- The records of one participant in a stream that conformance.py passes.
use mathlib.Core.Path.{subst}
use python_zipline.Base.{
  ℕ, ◌≡◌, refl, sym, true, false, ◌&&◌, Option, none, some, List, [], ◌∷◌, ◌==◌, if◌then◌else◌,
  is_some, arith, Bool-cases, inl, inr,
}
use python_zipline.Blocks.Types.{
  Record, Block, file_header, source, decoder, session, participant, session_end, record_block,
  undecoded, discontinuity, name_resolution, end, custom, unknown_block,
}
use python_zipline.Order.Stored.Chains.{ChainFrom}
use python_zipline.Conformance.Records.{follows}
use python_zipline.Conformance.Registry.{
  Standing, not_open, not_joined, joined, is_open, last_of, IsPlaced, Registry, registry, Names,
  declare, Referenced,
}

abbrev cons_seq : Option ℕ → List ℕ → List ℕ
cons_seq none rest = rest
cons_seq (some seq_start) rest = seq_start ∷ rest

-- The `seq_start` values that a participant of a session sends, in the order of the file.
unfoldable pub seqs_sent : ℕ → ℕ → List Block → List ℕ
seqs_sent sid pid [] = []
seqs_sent sid pid (record_block r ∷ bs) =
    let rest = seqs_sent sid pid bs in
    if r.session_id == sid && r.sender_pid == pid then cons_seq r.seq_start rest else rest
seqs_sent sid pid (b ∷ bs) = seqs_sent sid pid bs

-- A session is open for all participants or for none, and one that has ended is not open.
abbrev IsConsistent : Registry → ℕ → Type 0
IsConsistent R sid =
    ((pid : ℕ) → is_open (R.stands sid pid) ≡ is_open (R.stands sid 0))
    × (R.closed sid ≡ true → is_open (R.stands sid 0) ≡ false)

declare-IsConsistent :
    (b : Block) (R : Registry) (sid : ℕ)
    → Names R b
    → IsConsistent R sid
    → IsConsistent (declare b R) sid
declare-IsConsistent (file_header b) R sid n h = h
declare-IsConsistent (source b) R sid n h = h
declare-IsConsistent (decoder b) R sid n h = h
declare-IsConsistent (session b) R sid n h = (λ pid. ground (arith, h.0 pid), ground (arith, h.1))
declare-IsConsistent (participant b) R sid n h = (
  λ pid. ground (arith, h.0 pid, h.0 b.participant_id),
  ground (arith, h.1, h.0 b.participant_id),
)
declare-IsConsistent (session_end b) R sid n h =
    (λ pid. ground (arith, h.0 pid), ground (arith, h.1))
declare-IsConsistent (record_block r) R sid n h =
    (λ pid. ground (arith, h.0 pid, h.0 r.sender_pid), ground (arith, h.1, h.0 r.sender_pid))
declare-IsConsistent (undecoded b) R sid n h = h
declare-IsConsistent (discontinuity b) R sid n h = h
declare-IsConsistent (name_resolution b) R sid n h = h
declare-IsConsistent (end b) R sid n h = h
declare-IsConsistent (custom b) R sid n h = h
declare-IsConsistent (unknown_block t content) R sid n h = h

declare-closed :
    (b : Block) (R : Registry) (sid : ℕ) → R.closed sid ≡ true → (declare b R).closed sid ≡ true
declare-closed (session_end b) R sid h = ground arith
declare-closed (file_header b) R sid h = h
declare-closed (source b) R sid h = h
declare-closed (decoder b) R sid h = h
declare-closed (session b) R sid h = h
declare-closed (participant b) R sid h = h
declare-closed (record_block r) R sid h = h
declare-closed (undecoded b) R sid h = h
declare-closed (discontinuity b) R sid h = h
declare-closed (name_resolution b) R sid h = h
declare-closed (end b) R sid h = h
declare-closed (custom b) R sid h = h
declare-closed (unknown_block t content) R sid h = h

-- A record that is placed belongs to an open session.
IsPlaced-is_open : (r : Record) (st : Standing) → IsPlaced r st → is_open st ≡ true
IsPlaced-is_open r not_open h = sym h
IsPlaced-is_open r not_joined h = refl
IsPlaced-is_open r (joined last) h = refl

-- An ended session sends no more.
closed-seqs_sent :
    (bs : List Block) (R : Registry) (sid pid : ℕ)
    → Referenced R bs
    → IsConsistent R sid
    → R.closed sid ≡ true
    → seqs_sent sid pid bs ≡ []
unfolding Referenced seqs_sent
closed-seqs_sent [] R sid pid h c e = refl
closed-seqs_sent (b ∷ bs) R sid pid h c e =
    let later =
      closed-seqs_sent bs (declare b R) sid pid h.1 (declare-IsConsistent b R sid h.0.2 c)
        (declare-closed b R sid e) in
    first b h.0.2 later
  where
    first : (b : Block) → Names R b → seqs_sent sid pid bs ≡ [] → seqs_sent sid pid (b ∷ bs) ≡ []
    first (record_block r) n later = ground (
      arith,
      later,
      c.0 r.sender_pid,
      c.1 e,
      IsPlaced-is_open r (R.stands r.session_id r.sender_pid) n.0,
    )
    first (file_header b) n later = later
    first (source b) n later = later
    first (decoder b) n later = later
    first (session b) n later = later
    first (participant b) n later = later
    first (session_end b) n later = later
    first (undecoded b) n later = later
    first (discontinuity b) n later = later
    first (name_resolution b) n later = later
    first (end b) n later = later
    first (custom b) n later = later
    first (unknown_block t content) n later = later

chain_by_next :
    (r : Record) (st : Standing) (rest : List ℕ)
    → IsPlaced r st
    → ChainFrom (if is_some r.seq_start then r.seq_start else last_of st) rest
    → ChainFrom (last_of st) (cons_seq r.seq_start rest)
unfolding follows
chain_by_next r not_open rest p h = absurd (ground arith)
chain_by_next r not_joined rest p h = absurd (ground arith)
chain_by_next r (joined last) rest p h = by_seq r.seq_start last p h
  where
    by_seq :
        (o last : Option ℕ)
        → follows o last ≡ true
        → ChainFrom (if is_some o then o else last) rest
        → ChainFrom last (cons_seq o rest)
    by_seq none last p h = h
    by_seq (some n) none p h = h
    by_seq (some n) (some m) p h = (p, h)

last_of_shut : (st : Standing) → is_open st ≡ false → last_of st ≡ none
last_of_shut not_open h = refl
last_of_shut not_joined h = refl
last_of_shut (joined last) h = absurd (ground arith)

Referenced-ChainFrom_from :
    (bs : List Block) (R : Registry) (sid pid : ℕ)
    → Referenced R bs
    → IsConsistent R sid
    → ChainFrom (last_of (R.stands sid pid)) (seqs_sent sid pid bs)
unfolding Referenced seqs_sent
Referenced-ChainFrom_from [] R sid pid h c = tt
Referenced-ChainFrom_from (b ∷ bs) R sid pid h c =
    let c' = declare-IsConsistent b R sid h.0.2 c in
    first b h.0.2 c' h.1 (Referenced-ChainFrom_from bs (declare b R) sid pid h.1 c')
  where
    chain : Option ℕ → Type 0
    chain last = ChainFrom last (seqs_sent sid pid bs)

    first :
        (b : Block)
        → Names R b
        → IsConsistent (declare b R) sid
        → Referenced (declare b R) bs
        → ChainFrom (last_of ((declare b R).stands sid pid)) (seqs_sent sid pid bs)
        → ChainFrom (last_of (R.stands sid pid)) (seqs_sent sid pid (b ∷ bs))
    first (record_block r) n c' h later =
        elim (Bool-cases (r.session_id == sid && r.sender_pid == pid)) [
          | inl own ↦
              let same : R.stands r.session_id r.sender_pid ≡ R.stands sid pid = ground arith in
              rw own (
                subst (λ st. ChainFrom (last_of st) (cons_seq r.seq_start (seqs_sent sid pid bs)))
                  same
                  (chain_by_next r (R.stands r.session_id r.sender_pid) (seqs_sent sid pid bs) n.0
                    (subst chain (ground arith) later)))
          | inr other ↦ rw other (subst chain (ground arith) later)
        ]
    first (session b) n c' h later =
        let shut = last_of_shut (R.stands sid pid) in
        subst chain (ground (arith, c.0 pid, shut)) later
    first (participant b) n c' h later = subst chain (ground arith) later
    first (session_end b) n c' h later = elim (Bool-cases (b.session_id == sid)) [
      | inl own ↦
          let nothing =
            closed-seqs_sent bs (declare (session_end b) R) sid pid h c' (ground arith) in
          rw nothing tt
      | inr other ↦ subst chain (ground arith) later
    ]
    first (file_header b) n c' h later = later
    first (source b) n c' h later = later
    first (decoder b) n c' h later = later
    first (undecoded b) n c' h later = later
    first (discontinuity b) n c' h later = later
    first (name_resolution b) n c' h later = later
    first (end b) n c' h later = later
    first (custom b) n c' h later = later
    first (unknown_block t content) n c' h later = later

-- In a stream that keeps the discipline, the `seq_start` values of each participant of each session
-- are in serial order, each at or past the one before.
pub Referenced-ChainFrom :
    (bs : List Block) (sid pid : ℕ) → Referenced registry bs → ChainFrom none (seqs_sent sid pid bs)
Referenced-ChainFrom bs sid pid h =
    Referenced-ChainFrom_from bs registry sid pid h (λ pid. refl, λ e. refl)
