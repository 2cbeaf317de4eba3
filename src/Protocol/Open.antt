-- ===== src/Protocol/Open.antt =====
-- Opening: every party learns the shared values, and all of them the same.
use ampc_common.Base.{
  ℕ, suc, ◌%◌, ◌^◌, ◌≡◌, refl, arith, List, [], ◌∷◌, ap, ap₂, ◌∙◌, none, some, length, bit_xor,
}
use ampc_common.Base.Bits.{xor_comm, xor_assoc}
use ampc_common.Ring
use ampc_common.Ring.{zip_with}
use ampc_common.Ring.Laws.{one_mod}
use ampc_common.Share.{Share}
use ampc_common.Share.Local.{Shared, IsReplicated, reconstruct}
use ampc_common.Protocol.{
  open_ring, open_ring_send, open_ring_element_broadcast, setup_shared_seed, sub_pub,
}
use ampc_common.Protocol.Reshare.{AreSharesOf}

open0 :
    (k : ℕ) (xs : List ℕ) (ss ts us : List Share)
    → AreSharesOf k xs ss ts us
    → open_ring k ss (open_ring_send us) ≡ xs
unfolding open_ring open_ring_send zip_with
open0 k [] [] [] [] h = refl
open0 k [] [] [] (u ∷ us) h = absurd h
open0 k [] [] (t ∷ ts) us h = absurd h
open0 k [] (s ∷ ss) ts us h = absurd h
open0 k (x ∷ xs) [] ts us h = absurd h
open0 k (x ∷ xs) (s ∷ ss) [] us h = absurd h
open0 k (x ∷ xs) (s ∷ ss) (t ∷ ts) [] h = absurd h
open0 k (x ∷ xs) (s ∷ ss) (t ∷ ts) (u ∷ us) h =
    ap₂ ◌∷◌
      (rw (h.0.holds0, h.0.holds2) (simp one_mod (ap (λ (t : ℕ). t % 2 ^ k) (omega arith))) ∙ h.1)
      (open0 k xs ss ts us h.2)

rotate :
    (k : ℕ) (xs : List ℕ) (ss ts us : List Share)
    → AreSharesOf k xs ss ts us
    → AreSharesOf k xs ts us ss
rotate k [] [] [] [] h = tt
rotate k [] [] [] (u ∷ us) h = absurd h
rotate k [] [] (t ∷ ts) us h = absurd h
rotate k [] (s ∷ ss) ts us h = absurd h
rotate k (x ∷ xs) [] ts us h = absurd h
rotate k (x ∷ xs) (s ∷ ss) [] us h = absurd h
rotate k (x ∷ xs) (s ∷ ss) (t ∷ ts) [] h = absurd h
rotate k (x ∷ xs) (s ∷ ss) (t ∷ ts) (u ∷ us) h = (
  record { holds0 = h.0.holds1; holds1 = h.0.holds2; holds2 = h.0.holds0 },
  simp one_mod (ap (λ (t : ℕ). t % 2 ^ k) (omega arith)) ∙ h.1,
  rotate k xs ss ts us h.2,
)

-- On replicated shares of a list of values every party's `open_ring`, on the message of the
-- previous party, returns the values.
pub open_ring_shared :
    (k : ℕ) (xs : List ℕ) (ss ts us : List Share)
    → AreSharesOf k xs ss ts us
    → (open_ring k ss (open_ring_send us) ≡ xs)
      × (open_ring k ts (open_ring_send ss) ≡ xs)
      × (open_ring k us (open_ring_send ts) ≡ xs)
open_ring_shared k xs ss ts us h = (
  open0 k xs ss ts us h,
  open0 k xs ts us ss (rotate k xs ss ts us h),
  open0 k xs us ss ts (rotate k xs ts us ss (rotate k xs ss ts us h)),
)

-- Three lists under an operation that is commutative and associative can be turned round.
zip_turn :
    (f : ℕ → ℕ → ℕ)
    → ((a b c : ℕ) → f (f b a) c ≡ f (f a c) b)
    → (xs ys zs : List ℕ) → length ys ≡ length xs
    → length zs ≡ length xs
    → zip_with f (zip_with f ys xs) zs ≡ zip_with f (zip_with f xs zs) ys
unfolding zip_with
zip_turn f e [] [] [] p q = refl
zip_turn f e [] [] (z ∷ zs) p q = absurd (omega arith)
zip_turn f e [] (y ∷ ys) zs p q = absurd (omega arith)
zip_turn f e (x ∷ xs) [] zs p q = absurd (omega arith)
zip_turn f e (x ∷ xs) (y ∷ ys) [] p q = absurd (omega arith)
zip_turn f e (x ∷ xs) (y ∷ ys) (z ∷ zs) p q =
    ap₂ ◌∷◌ (e x y z) (zip_turn f e xs ys zs (omega arith) (omega arith))

add_turn : (k a b c : ℕ) → Ring.add k (Ring.add k b a) c ≡ Ring.add k (Ring.add k a c) b
add_turn k a b c = simp one_mod (ap (λ (t : ℕ). t % 2 ^ k) (omega arith))

xor_turn : (a b c : ℕ) → bit_xor (bit_xor b a) c ≡ bit_xor (bit_xor a c) b
xor_turn a b c = xor_assoc b a c ∙ xor_comm b (bit_xor a c)

-- Of three seeds of one length all three parties compute the same shared seed.
pub setup_shared_seed_agrees :
    (s0 s1 s2 : List ℕ)
    → length s1 ≡ length s0
    → length s2 ≡ length s0
    → (setup_shared_seed s1 s0 s2 ≡ setup_shared_seed s0 s2 s1)
      × (setup_shared_seed s2 s1 s0 ≡ setup_shared_seed s1 s0 s2)
unfolding setup_shared_seed
setup_shared_seed_agrees s0 s1 s2 p q = (
  zip_turn bit_xor xor_turn s0 s1 s2 p q,
  zip_turn bit_xor xor_turn s1 s2 s0 (omega arith) (omega arith),
)

-- Of three lists of one length all three parties open the same sums.
pub open_ring_element_broadcast_agrees :
    (k : ℕ) (x0 x1 x2 : List ℕ)
    → length x1 ≡ length x0
    → length x2 ≡ length x0
    → (open_ring_element_broadcast k x1 x0 x2 ≡ open_ring_element_broadcast k x0 x2 x1)
      × (open_ring_element_broadcast k x2 x1 x0 ≡ open_ring_element_broadcast k x1 x0 x2)
unfolding open_ring_element_broadcast
open_ring_element_broadcast_agrees k x0 x1 x2 p q = (
  zip_turn (Ring.add k) (add_turn k) x0 x1 x2 p q,
  zip_turn (Ring.add k) (add_turn k) x1 x2 x0 (omega arith) (omega arith),
)

-- A public value that every party subtracts under its role, 0, 1 or 2, is subtracted once from the
-- shared value and keeps the shares replicated; a role above 2 is refused.
pub sub_pub_shared :
    (k c n : ℕ) (x : Share) (s : Shared)
    → IsReplicated s
    → (sub_pub k x c (suc (suc (suc n))) ≡ none)
      × ((t : Shared) × (sub_pub k s.p0 c 0 ≡ some t.p0)
          × (sub_pub k s.p1 c 1 ≡ some t.p1)
          × (sub_pub k s.p2 c 2 ≡ some t.p2)
          × IsReplicated t
          × (reconstruct k t ≡ Ring.sub k (reconstruct k s) c))
unfolding sub_pub
sub_pub_shared k c n x s r = (
  refl,
  (
    record {
      p0 = record s.p0 { a = Ring.sub k s.p0.a c };
      p1 = record s.p1 { b = Ring.sub k s.p1.b c };
      p2 = s.p2;
    },
    refl,
    refl,
    refl,
    record {
      holds0 = r.holds0;
      holds1 = ap (λ (u : ℕ). Ring.sub k u c) r.holds1;
      holds2 = r.holds2;
    },
    simp one_mod (ap (λ (t : ℕ). t % 2 ^ k) (omega arith)),
  ),
)
