-- ===== src/Order/Merge/Bound.antt =====
-- The bound that the ack rule of order.py takes, against the ends of the records that a frontier has
-- still to give.
use mathlib.Core.Path.{subst}
use python_zipline.Base.{
  ◌≡◌, refl, sym, ap, ◌∙◌, Bool, true, false, not, inl, inr, Option, none, some, List, [], ◌∷◌, All,
  ltb, length, ◌&&◌, arith, is_some, Option-cases,
}
use python_zipline.Base.Int.{ℤ, pos, ◌+ℤ◌, ◌≤ℤ◌, ◌<ℤ◌, ltb_ℤ, max_ℤ, int_laws}
use python_zipline.Base.Outcome.{semantic, guard, ok, >>=-eq-ok, ok-injective}
use python_zipline.Blocks.Types.{Record}
use python_zipline.Order.Walk.{
  has_bit, syn_bit, sequence_end, Walk, StreamPlacer, stream_place, place, placer,
}
use python_zipline.Order.Walk.Place.{place_step}
use python_zipline.Order.Merge.{Frontier, advance_with, load, reach, in_order, peer_bound}

-- The ends of the records of a stream, in stored order, as its placer places them.
abbrev pub ends_from : StreamPlacer → List Record → List (Option ℤ)
ends_from s [] = []
ends_from s (r ∷ rs) =
    let (offset, s') = stream_place r s in sequence_end r offset ∷ ends_from s' rs

abbrev pub Every : (ℤ → Type 0) → List (Option ℤ) → Type 0
Every P [] = Unit
Every P (none ∷ es) = Every P es
Every P (some e ∷ es) = P e × Every P es

-- No record ends before what was reached before it.
abbrev pub NeverBack : ℤ → List (Option ℤ) → Type 0
NeverBack reached [] = Unit
NeverBack reached (none ∷ es) = NeverBack reached es
NeverBack reached (some e ∷ es) = (reached ≤ℤ e) × NeverBack e es

-- A SYN without bytes stands nowhere but at the head.
abbrev pub bare_syn : Record → Bool
bare_syn r = not (ltb 0 (length r.payload)) && has_bit r.flags syn_bit

abbrev pub SynFirst : List Record → Type 0
SynFirst [] = Unit
SynFirst (r ∷ rs) = All (λ (x : Record). bare_syn x ≡ false) rs

-- What the merge needs of a stream that it has still to take, from a placer and a reach on.
abbrev pub IsTidy : Frontier → Type 0
IsTidy f = NeverBack (reach f.reached f.head_end) (ends_from f.placer f.stream) × SynFirst f.stream

Every-NeverBack :
    (low reached : ℤ) (es : List (Option ℤ))
    → low ≤ℤ reached
    → NeverBack reached es
    → Every (λ e. low ≤ℤ e) es
Every-NeverBack low reached [] h n = tt
Every-NeverBack low reached (none ∷ es) h n = Every-NeverBack low reached es h n
Every-NeverBack low reached (some e ∷ es) h n =
    let here : low ≤ℤ e = omega (arith, n.0) in (here, Every-NeverBack low e es here n.1)

Every-cons :
    (P : ℤ → Type 0) (o : Option ℤ) (es : List (Option ℤ))
    → ((e : ℤ) → o ≡ some e → P e)
    → Every P es
    → Every P (o ∷ es)
Every-cons P none es h k = k
Every-cons P (some e) es h k = (h e refl, k)

pub Every-map :
    (P Q : ℤ → Type 0) (es : List (Option ℤ)) → ((e : ℤ) → P e → Q e) → Every P es → Every Q es
Every-map P Q [] h k = tt
Every-map P Q (none ∷ es) h k = Every-map P Q es h k
Every-map P Q (some e ∷ es) h k = (h e k.0, Every-map P Q es h k.1)

Every-both :
    (P Q : ℤ → Type 0) (es : List (Option ℤ)) → Every P es → Every Q es → Every (λ e. P e × Q e) es
Every-both P Q [] h k = tt
Every-both P Q (none ∷ es) h k = Every-both P Q es h k
Every-both P Q (some e ∷ es) h k = ((h.0, k.0), Every-both P Q es h.1 k.1)

pub below_bound : (a b e : ℤ) → ltb_ℤ a b ≡ true → b ≤ℤ e → a <ℤ e
below_bound a b e h k = ground arith

max_ℤ_least : (a b e : ℤ) → a ≤ℤ e → b ≤ℤ e → max_ℤ a b ≤ℤ e
max_ℤ_least a b e h k = ground arith

sequence_end-past :
    (r : Record) (p e : ℤ)
    → bare_syn r ≡ false
    → sequence_end r (some p) ≡ some e
    → (p +ℤ pos 1) ≤ℤ e
unfolding sequence_end ◌+ℤ◌
sequence_end-past r p e b h = ground arith

-- The walk of a placer that has placed a record stands at its offset.
abbrev StandsAt : ℤ → StreamPlacer → Type 0
StandsAt p s = (w : Walk) × (s.placer ≡ some w) × (w.position ≡ p)

stream_place-walk :
    (r : Record) (s : StreamPlacer) (w : Walk)
    → s.placer ≡ some w
    → ((stream_place r s).0 ≡ (place r w).0) × ((stream_place r s).1.placer ≡ some (place r w).1)
unfolding stream_place
stream_place-walk r s w e = rw e (refl, refl)

place-StandsAt :
    (r : Record) (w : Walk) (p : ℤ) → (place r w).0 ≡ some p → (place r w).1.position ≡ p
place-StandsAt r w p h = elim (place_step r w) [ inl (e, same) ↦ cc | inr (d, near, e, here) ↦ cc ]

stream_place-StandsAt :
    (r : Record) (s : StreamPlacer) (p : ℤ)
    → (stream_place r s).0 ≡ some p
    → StandsAt p (stream_place r s).1
stream_place-StandsAt r s p h = elim (Option-cases s.placer) [
  | inr (w, e) ↦
      let (offset, walk) = stream_place-walk r s w e in
      ((place r w).1, walk, place-StandsAt r w p (sym offset ∙ h))
  | inl e ↦ elim (Option-cases r.seq_start) [
    | inl bare ↦ absurd (unfold stream_place in cc (rw (e, bare) at h))
    | inr (n, q) ↦
        let first : stream_place r s ≡ (
          (place r (placer n)).0,
          record { placer = some (place r (placer n)).1; origin = some n },
        ) =
          unfold stream_place in (rw (e, q) refl) in
        (
          (place r (placer n)).1,
          ap (λ x. x.1.placer) first,
          place-StandsAt r (placer n) p (ap (λ x. x.0) (sym first) ∙ h),
        )
  ]
]

-- Behind a placed record every end is past its offset.
ends_past :
    (rs : List Record) (s : StreamPlacer) (p : ℤ)
    → StandsAt p s
    → All (λ (x : Record). bare_syn x ≡ false) rs
    → Every (λ e. (p +ℤ pos 1) ≤ℤ e) (ends_from s rs)
ends_past [] s p at b = tt
ends_past (r ∷ rs) s p (w, e, here) b =
    let (offset, walk) = stream_place-walk r s w e in
    elim (place_step r w) [
      | inl (bare, same) ↦
          let rest = ends_past rs (stream_place r s).1 p (w, walk ∙ ap some same, here) b.1 in
          Every-cons (λ e. (p +ℤ pos 1) ≤ℤ e) (sequence_end r (stream_place r s).0) _
            (λ end k. absurd (unfold sequence_end in cc (rw (offset, bare) at k))) rest
      | inr (d, near, some_at, moved) ↦
          let q : ℤ = w.position +ℤ pos d in
          let far : p ≤ℤ q = subst (λ x. x ≤ℤ (w.position +ℤ pos d)) here (omega int_laws) in
          let rest = ends_past rs (stream_place r s).1 q ((place r w).1, walk, moved) b.1 in
          Every-cons (λ e. (p +ℤ pos 1) ≤ℤ e) (sequence_end r (stream_place r s).0) _
            (λ end k. omega (
              int_laws,
              far,
              sequence_end-past r q end b.0
                  (ap (sequence_end r) (sym some_at) ∙ (ap (sequence_end r) (sym offset) ∙ k)),
            ))
            (Every-map (λ e. (q +ℤ pos 1) ≤ℤ e) (λ e. (p +ℤ pos 1) ≤ℤ e)
              (ends_from (stream_place r s).1 rs) (λ x h. omega (int_laws, far, h)) rest)
    ]

-- The bound that the code takes is at most every end of what the peer has still to be taken.
peer_bound_least :
    (r : Record) (rs : List Record) (s : StreamPlacer) (reached : ℤ)
    → NeverBack reached (ends_from s (r ∷ rs))
    → All (λ (x : Record). bare_syn x ≡ false) rs
    → Every
        (λ e. peer_bound (sequence_end r (stream_place r s).0) (stream_place r s).0 reached ≤ℤ e)
        (ends_from s (r ∷ rs))
peer_bound_least r rs s reached n b =
    by_place (stream_place r s).0 (sequence_end r (stream_place r s).0) refl refl n
  where
    s' : StreamPlacer
    s' = (stream_place r s).1

    by_place :
        (o end : Option ℤ)
        → (stream_place r s).0 ≡ o
        → sequence_end r o ≡ end
        → NeverBack reached (end ∷ ends_from s' rs)
        → Every (λ e. peer_bound end o reached ≤ℤ e) (end ∷ ends_from s' rs)
    by_place o (some end) p q n =
        let back = Every-NeverBack end end (ends_from s' rs) (omega arith) n.1 in
        unfold peer_bound in (omega arith, back)
    by_place none none p q n =
        let back = Every-NeverBack reached reached (ends_from s' rs) (omega arith) n in
        unfold peer_bound in back
    by_place (some offset) none p q n =
        let past = ends_past rs s' offset (stream_place-StandsAt r s offset p) b in
        let back = Every-NeverBack reached reached (ends_from s' rs) (omega arith) n in
        let both =
          Every-both (λ e. reached ≤ℤ e) (λ e. (offset +ℤ pos 1) ≤ℤ e) (ends_from s' rs) back
            past in
        let least =
          Every-map _ (λ e. max_ℤ reached (offset +ℤ pos 1) ≤ℤ e) (ends_from s' rs)
            (λ e h. max_ℤ_least reached (offset +ℤ pos 1) e h.0 h.1) both in
        unfold peer_bound in least

-- The ends of what a frontier has still to give when its next record is not loaded yet.
abbrev pub left : Frontier → List (Option ℤ)
left p0 = ends_from p0.placer p0.stream

pub bound_least :
    (rs : List Record) (p0 p : Frontier)
    → advance_with rs p0 ≡ ok p
    → NeverBack (reach p0.reached p0.head_end) (ends_from p0.placer rs)
    → SynFirst rs
    → Every (λ e. peer_bound p.head_end p.head_offset p.reached ≤ℤ e) (ends_from p0.placer rs)
unfolding advance_with
bound_least [] p0 p e n b = tt
bound_least (r ∷ rs) p0 p e n b =
    let (u, g, k) = >>=-eq-ok (guard (in_order p0.last_seq r.seq_start) semantic) _ e in
    let loaded : Every
        (λ e.
          peer_bound (load r rs p0).head_end (load r rs p0).head_offset (load r rs p0).reached ≤ℤ e)
        (ends_from p0.placer (r ∷ rs)) =
      unfold load in (peer_bound_least r rs p0.placer (reach p0.reached p0.head_end) n b) in
    subst
      (λ p.
        Every (λ e. peer_bound p.head_end p.head_offset p.reached ≤ℤ e)
          (ends_from p0.placer (r ∷ rs)))
      (ok-injective k) loaded

-- A frontier without a head has nothing left.
pub nothing_left :
    (rs : List Record) (p0 p : Frontier) (P : ℤ → Type 0)
    → advance_with rs p0 ≡ ok p
    → is_some p.head ≡ false
    → Every P (ends_from p0.placer rs)
unfolding advance_with
nothing_left [] p0 p P e h = tt
nothing_left (r ∷ rs) p0 p P e h =
    let (u, g, k) = >>=-eq-ok (guard (in_order p0.last_seq r.seq_start) semantic) _ e in
    let same : (load r rs p0).head ≡ p.head = ap (λ (x : Frontier). x.head) (ok-injective k) in
    absurd (unfold load in cc)
