-- ===== src/Order/Walk/Acks.antt =====
-- Unwrapping the acks of one participant (`_AckWalk` of order.py).
use mathlib.Core.Path.{ap₂}
use python_zipline.Base.{
  ℕ, ◌+◌, ◌%◌, ◌≤◌, ◌<◌, ◌≡◌, refl, ap, Bool, true, false, Option, some, List, [], ◌∷◌, arith,
  if◌then◌else◌,
}
use python_zipline.Base.Int.{ℤ, pos, sub_ℕ, ◌+ℤ◌, ltb_ℤ, max_ℤ}
use python_zipline.Base.Outcome.{ok}
use python_zipline.Order.Serial.{seq_space, seq_high_bit, serial_delta}
use python_zipline.Order.Walk.{Walk, AckWalk, ack_walk, observe, position}

-- Two positions that one serial step reads as what it is, in either direction.
abbrev pub Near : ℕ → ℕ → Type 0
Near p q = (q < p + seq_high_bit) × (p ≤ q + seq_high_bit)

pub serial_delta-Near :
    (p q : ℕ) → Near p q → serial_delta (q % seq_space) (p % seq_space) ≡ sub_ℕ q p
unfolding serial_delta
serial_delta-Near p q h = ground arith

-- The loop over one participant's acks.
unfoldable pub observe_all : AckWalk → List ℕ → List ℤ × AckWalk
observe_all a [] = ([], a)
observe_all a (ack ∷ acks) =
    let (relative, a') = observe ack a in
    let (rest, a'') = observe_all a' acks in (relative ∷ rest, a'')

-- The walk that began at `f`, stands at `p` and has `h` for its highest relative position.
abbrev standing : ℕ → ℕ → ℤ → Option ℕ → AckWalk
standing f p h ack = record {
  first = some (f % seq_space);
  walk = some (record { value = p % seq_space; position = sub_ℕ p f });
  highest = some h;
  highest_ack = ack;
}

observe_first :
    (f : ℕ)
    → observe (f % seq_space) ack_walk ≡ (pos 0, standing f f (pos 0) (some (f % seq_space)))
unfolding observe
observe_first f =
    let low : f % seq_space % seq_space ≡ f % seq_space = omega arith in
    let here : pos 0 ≡ sub_ℕ f f = ground arith in rw (low, ← here)

sub_chain : (p q f : ℕ) → sub_ℕ p f +ℤ sub_ℕ q p ≡ sub_ℕ q f
unfolding ◌+ℤ◌
sub_chain p q f = ground arith

raise_to_max :
    (w : Walk) (f q : ℕ) (h d : ℤ) (b : Bool) (ack : Option ℕ)
    → ◌≡◌ {A = AckWalk}
        (if b
          then record { first = some f; walk = some w; highest = some d; highest_ack = some q }
          else record { first = some f; walk = some w; highest = some h; highest_ack = ack })
        (record {
          first = some f;
          walk = some w;
          highest = some (if b then d else h);
          highest_ack = if b then some q else ack;
        })
raise_to_max w f q h d true ack = refl
raise_to_max w f q h d false ack = refl

observe_next :
    (f p q : ℕ) (h : ℤ) (ack : Option ℕ)
    → Near p q
    → observe (q % seq_space) (standing f p h ack) ≡ (
      sub_ℕ q f,
      standing f q
          (max_ℤ h (sub_ℕ q f))
          (if ltb_ℤ h (sub_ℕ q f) then some (q % seq_space) else ack),
    )
unfolding observe
observe_next f p q h ack n =
    let low : q % seq_space % seq_space ≡ q % seq_space = omega arith in
    let sum : sub_ℕ p f +ℤ sub_ℕ q p ≡ sub_ℕ q f = sub_chain p q f in
    rw (serial_delta-Near p q n, low, sum)
      (ap (λ t. (sub_ℕ q f, t))
        (raise_to_max _ (f % seq_space) (q % seq_space) h (sub_ℕ q f) (ltb_ℤ h (sub_ℕ q f)) ack))

abbrev pub NearChain : ℕ → List ℕ → Type 0
NearChain p [] = Unit {0}
NearChain p (q ∷ qs) = Near p q × NearChain q qs

-- Each true position, measured from `f`.
abbrev pub relative_to : ℕ → List ℕ → List ℤ
relative_to f [] = []
relative_to f (q ∷ qs) = sub_ℕ q f ∷ relative_to f qs

abbrev pub on_wire : List ℕ → List ℕ
on_wire [] = []
on_wire (q ∷ qs) = (q % seq_space) ∷ on_wire qs

abbrev pub highest_of : ℤ → List ℤ → ℤ
highest_of h [] = h
highest_of h (d ∷ ds) = highest_of (max_ℤ h d) ds

abbrev prepend : ℤ → List ℤ × AckWalk → List ℤ × AckWalk
prepend d (ds, a) = (d ∷ ds, a)

observe_all_by :
    (ack : ℕ) (acks : List ℕ) (a : AckWalk) (d : ℤ) (a' : AckWalk)
    → observe ack a ≡ (d, a')
    → observe_all a (ack ∷ acks) ≡ prepend d (observe_all a' acks)
unfolding observe_all
observe_all_by ack acks a d a' e = ap (λ (t : ℤ × AckWalk). prepend t.0 (observe_all t.1 acks)) e

-- What an observer of a whole run holds.
abbrev Read : ℕ → ℤ → List ℕ → List ℤ × AckWalk → Type 0
Read f h qs (relatives, a) =
    (relatives ≡ relative_to f qs)
    × (a.highest ≡ some (highest_of h (relative_to f qs)))
    × (a.first ≡ some (f % seq_space))

observe_all_from :
    (f p : ℕ) (h : ℤ) (ack : Option ℕ) (qs : List ℕ)
    → NearChain p qs
    → Read f h qs (observe_all (standing f p h ack) (on_wire qs))
observe_all_from f p h ack [] n = unfold observe_all in (refl, refl, refl)
observe_all_from f p h ack (q ∷ qs) n =
    let ack' : Option ℕ = if ltb_ℤ h (sub_ℕ q f) then some (q % seq_space) else ack in
    let rest = observe_all_from f q (max_ℤ h (sub_ℕ q f)) ack' qs n.1 in
    rw (observe_all_by _ (on_wire qs) _ _ _ (observe_next f p q h ack n.0))
      (ap (λ t. sub_ℕ q f ∷ t) rest.0, rest.1, rest.2)

sub_self : (f : ℕ) → pos 0 ≡ sub_ℕ f f
sub_self f = ground arith

position_true :
    (a : AckWalk) (f o q : ℕ)
    → Near o f
    → a.first ≡ some (f % seq_space)
    → position a (sub_ℕ q f) (o % seq_space) ≡ ok (sub_ℕ q o)
unfolding position
position_true a f o q m e = rw (e, serial_delta-Near o f m, sub_chain f q o)

-- The acks of one participant are those of true byte positions of its peer, each at most 2^31 from the
-- last, forward (less than) or back; however far they go, each is read as its exact signed distance
-- from the first, `highest` is the greatest of these, and measured from an origin that the first ack
-- is near, every ack's position is its true offset in the peer's stream.
pub observe_all_true :
    (f : ℕ) (qs : List ℕ)
    → NearChain f qs
    → ((observe_all ack_walk (on_wire (f ∷ qs))).0 ≡ relative_to f (f ∷ qs))
      × ((observe_all ack_walk (on_wire (f ∷ qs))).1.highest
          ≡ some (highest_of (pos 0) (relative_to f qs)))
      × ((o q : ℕ)
          → Near o f
          → position (observe_all ack_walk (on_wire (f ∷ qs))).1 (sub_ℕ q f) (o % seq_space)
            ≡ ok (sub_ℕ q o))
observe_all_true f qs n =
    let rest = observe_all_from f f (pos 0) (some (f % seq_space)) qs n in
    rw (observe_all_by _ (on_wire qs) _ _ _ (observe_first f))
      (ap₂ (λ h t. h ∷ t) (sub_self f) rest.0, rest.1, λ o q m. position_true _ f o q m rest.2)
