-- ===== src/Protocol/Reshare.antt =====
-- Resharing: the masked products of the three parties are fresh replicated shares of their sum.
use ampc_common.Base.{
  ℕ, zero, suc, ◌+◌, ◌%◌, ◌^◌, ◌≡◌, refl, arith, List, [], ◌∷◌, length, ap, ◌∙◌, Bool, true, false,
  if◌then◌else◌,
}
use ampc_common.Base.Mod.{mod-eq_of_multiples, pow-eq-suc}
use native.Mathlib.Nat.{mod-eq_of_lt}
use ampc_common.Ring
use ampc_common.Ring.{IsElem, zip_with}
use ampc_common.Ring.Laws.{one_mod, add-IsElem}
use ampc_common.Share.{Share, new, sub}
use ampc_common.Share.Local.{Shared, IsReplicated, reconstruct}
use ampc_common.Protocol.{
  Prf, gen_rands_mine, gen_rands_prev, gen_rands_batch, mask_products, reshare_send,
  reshare_receive, galois_ring_to_rep3_send, galois_ring_to_rep3_receive, mask_items, mux_product,
}

-- The three masks cancel.
masks_cancel :
    (k m0 m1 m2 e0 e1 e2 : ℕ)
    → Ring.add k
        (Ring.add k (Ring.add k (Ring.sub k m0 m2) e0) (Ring.add k (Ring.sub k m1 m0) e1))
        (Ring.add k (Ring.sub k m2 m1) e2)
      ≡ Ring.add k (Ring.add k e0 e1) e2
masks_cancel k m0 m1 m2 e0 e1 e2 = simp one_mod (
    mod-eq_of_multiples (2 ^ k) 0 (m0 + m1 + m2) _ (e0 + e1 + e2) (rw (pow-eq-suc k) (omega arith)))

-- The shares that the three parties hold of a list of values, position by position.
abbrev pub AreSharesOf : ℕ → List ℕ → List Share → List Share → List Share → Type 0
AreSharesOf k [] [] [] [] = Unit {0}
AreSharesOf k (x ∷ xs) (s ∷ ss) (t ∷ ts) (u ∷ us) =
    IsReplicated (record { p0 = s; p1 = t; p2 = u })
    × (reconstruct k (record { p0 = s; p1 = t; p2 = u }) ≡ x)
    × AreSharesOf k xs ss ts us
AreSharesOf k _ _ _ _ = ⊥

-- The sums of the three parties' products for `n` indices from `i` on.
abbrev pub product_sums : ℕ → ℕ → ℕ → (e0 e1 e2 : ℕ → ℕ) → List ℕ
product_sums k i zero e0 e1 e2 = []
product_sums k i (suc n) e0 e1 e2 =
    Ring.add k (Ring.add k (e0 i) (e1 i)) (e2 i) ∷ product_sums k (i + 1) n e0 e1 e2

mask_products_shared :
    (k i n : ℕ) (e0 e1 e2 : ℕ → ℕ) (m0 m1 m2 : List ℕ)
    → length m0 ≡ n
    → length m1 ≡ n
    → length m2 ≡ n
    → AreSharesOf k
        (product_sums k i n e0 e1 e2)
        (zip_with new (mask_products k i e0 m0 m2) (mask_products k i e2 m2 m1))
        (zip_with new (mask_products k i e1 m1 m0) (mask_products k i e0 m0 m2))
        (zip_with new (mask_products k i e2 m2 m1) (mask_products k i e1 m1 m0))
unfolding zip_with new mask_products
mask_products_shared k i zero e0 e1 e2 [] [] [] l0 l1 l2 = tt
mask_products_shared k i zero e0 e1 e2 [] [] (z ∷ m2) l0 l1 l2 = absurd (omega arith)
mask_products_shared k i zero e0 e1 e2 [] (y ∷ m1) m2 l0 l1 l2 = absurd (omega arith)
mask_products_shared k i zero e0 e1 e2 (x ∷ m0) m1 m2 l0 l1 l2 = absurd (omega arith)
mask_products_shared k i (suc n) e0 e1 e2 [] m1 m2 l0 l1 l2 = absurd (omega arith)
mask_products_shared k i (suc n) e0 e1 e2 (x ∷ m0) [] m2 l0 l1 l2 = absurd (omega arith)
mask_products_shared k i (suc n) e0 e1 e2 (x ∷ m0) (y ∷ m1) [] l0 l1 l2 = absurd (omega arith)
mask_products_shared k i (suc n) e0 e1 e2 (x ∷ m0) (y ∷ m1) (z ∷ m2) l0 l1 l2 = (
  record { holds0 = refl; holds1 = refl; holds2 = refl },
  masks_cancel k x y z (e0 i) (e1 i) (e2 i),
  mask_products_shared k (i + 1) n e0 e1 e2 m0 m1 m2 (omega arith) (omega arith) (omega arith),
)

-- Each party's generator for the previous party is that party's own.
pub record IsInSync {Rng : Type 0} (p0 p1 p2 : Prf Rng) : Type 0 where
  pub shared0 : p0.prev_prf ≡ p2.my_prf
  pub shared1 : p1.prev_prf ≡ p0.my_prf
  pub shared2 : p2.prev_prf ≡ p1.my_prf

-- For generators in step, and a generator that fills as many elements as asked for: after the round
-- of `reshare_products` the three parties hold replicated shares of the sums of their products, one
-- for each index, and their generators are in step again.
pub reshare_products_shared :
    {Rng : Type 0} (fill : ℕ → ℕ → Rng → List ℕ × Rng)
    (fills : (k n : ℕ) (rng : Rng) → length (fill k n rng).0 ≡ n) (k n : ℕ) (e0 e1 e2 : ℕ → ℕ)
    (p0 p1 p2 : Prf Rng)
    → IsInSync p0 p1 p2
    → AreSharesOf k
        (product_sums k 0 n e0 e1 e2)
        (reshare_receive (reshare_send fill k n e0 p0).0 (reshare_send fill k n e2 p2).0)
        (reshare_receive (reshare_send fill k n e1 p1).0 (reshare_send fill k n e0 p0).0)
        (reshare_receive (reshare_send fill k n e2 p2).0 (reshare_send fill k n e1 p1).0)
      × IsInSync
          (reshare_send fill k n e0 p0).1
          (reshare_send fill k n e1 p1).1
          (reshare_send fill k n e2 p2).1
unfolding reshare_send reshare_receive gen_rands_batch gen_rands_mine gen_rands_prev
reshare_products_shared fill fills k n e0 e1 e2 p0 p1 p2 s =
    rw (s.shared0, s.shared1, s.shared2)
      (
        mask_products_shared k 0 n e0 e1 e2 _ _ _ (fills k n p0.my_prf) (fills k n p1.my_prf)
            (fills k n p2.my_prf),
        record { shared0 = refl; shared1 = refl; shared2 = refl },
      )

mask_items_shared :
    (k n : ℕ) (x0 x1 x2 m0 m1 m2 : List ℕ)
    → length x0 ≡ n
    → length x1 ≡ n
    → length x2 ≡ n
    → length m0 ≡ n
    → length m1 ≡ n
    → length m2 ≡ n
    → AreSharesOf k
        (zip_with (Ring.add k) (zip_with (Ring.add k) x0 x1) x2)
        (zip_with new (mask_items k x0 m0 m2) (mask_items k x2 m2 m1))
        (zip_with new (mask_items k x1 m1 m0) (mask_items k x0 m0 m2))
        (zip_with new (mask_items k x2 m2 m1) (mask_items k x1 m1 m0))
unfolding zip_with new mask_items
mask_items_shared k zero [] [] [] m0 m1 m2 a b c d e f = tt
mask_items_shared k zero [] [] (v ∷ x2) m0 m1 m2 a b c d e f = absurd (omega arith)
mask_items_shared k zero [] (u ∷ x1) x2 m0 m1 m2 a b c d e f = absurd (omega arith)
mask_items_shared k zero (t ∷ x0) x1 x2 m0 m1 m2 a b c d e f = absurd (omega arith)
mask_items_shared k (suc n) [] x1 x2 m0 m1 m2 a b c d e f = absurd (omega arith)
mask_items_shared k (suc n) (t ∷ x0) [] x2 m0 m1 m2 a b c d e f = absurd (omega arith)
mask_items_shared k (suc n) (t ∷ x0) (u ∷ x1) [] m0 m1 m2 a b c d e f = absurd (omega arith)
mask_items_shared k (suc n) (t ∷ x0) (u ∷ x1) (v ∷ x2) [] m1 m2 a b c d e f = absurd (omega arith)
mask_items_shared k (suc n) (t ∷ x0) (u ∷ x1) (v ∷ x2) (x ∷ m0) [] m2 a b c d e f =
    absurd (omega arith)
mask_items_shared k (suc n) (t ∷ x0) (u ∷ x1) (v ∷ x2) (x ∷ m0) (y ∷ m1) [] a b c d e f =
    absurd (omega arith)
mask_items_shared k (suc n) (t ∷ x0) (u ∷ x1) (v ∷ x2) (x ∷ m0) (y ∷ m1) (z ∷ m2) a b c d e f = (
  record { holds0 = refl; holds1 = refl; holds2 = refl },
  masks_cancel k x y z t u v,
  mask_items_shared k n x0 x1 x2 m0 m1 m2 (omega arith) (omega arith) (omega arith) (omega arith)
      (omega arith) (omega arith),
)

-- For generators in step, a generator that fills as many elements as asked for, and as many items
-- at each party: after the round of `galois_ring_to_rep3` the parties hold replicated shares of the
-- sums of their items, position by position, and their generators are in step again.
pub galois_ring_to_rep3_shared :
    {Rng : Type 0} (fill : ℕ → ℕ → Rng → List ℕ × Rng)
    (fills : (k n : ℕ) (rng : Rng) → length (fill k n rng).0 ≡ n) (x0 x1 x2 : List ℕ)
    (p0 p1 p2 : Prf Rng)
    → length x1 ≡ length x0
    → length x2 ≡ length x0
    → IsInSync p0 p1 p2
    → AreSharesOf 16
        (zip_with (Ring.add 16) (zip_with (Ring.add 16) x0 x1) x2)
        (galois_ring_to_rep3_receive
          (galois_ring_to_rep3_send fill x0 p0).0
          (galois_ring_to_rep3_send fill x2 p2).0)
        (galois_ring_to_rep3_receive
          (galois_ring_to_rep3_send fill x1 p1).0
          (galois_ring_to_rep3_send fill x0 p0).0)
        (galois_ring_to_rep3_receive
          (galois_ring_to_rep3_send fill x2 p2).0
          (galois_ring_to_rep3_send fill x1 p1).0)
      × IsInSync
          (galois_ring_to_rep3_send fill x0 p0).1
          (galois_ring_to_rep3_send fill x1 p1).1
          (galois_ring_to_rep3_send fill x2 p2).1
unfolding galois_ring_to_rep3_send galois_ring_to_rep3_receive gen_rands_batch gen_rands_mine
    gen_rands_prev
galois_ring_to_rep3_shared fill fills x0 x1 x2 p0 p1 p2 l1 l2 s =
    let n : ℕ = length x0 in
    rw (l1, l2, s.shared0, s.shared1, s.shared2)
      (
        mask_items_shared 16 n x0 x1 x2 _ _ _ refl l1 l2 (fills 16 n p0.my_prf)
            (fills 16 n p1.my_prf) (fills 16 n p2.my_prf),
        record { shared0 = refl; shared1 = refl; shared2 = refl },
      )

-- The three local products of the conditional selection add up to `c * (left - right) + right`.
mux_product_sum :
    (k : ℕ) (c l r : Shared)
    → IsReplicated c
    → IsReplicated l
    → IsReplicated r
    → Ring.add k
        (Ring.add k (mux_product k c.p0 l.p0 r.p0) (mux_product k c.p1 l.p1 r.p1))
        (mux_product k c.p2 l.p2 r.p2)
      ≡ Ring.add k
          (Ring.mul k (reconstruct k c) (Ring.sub k (reconstruct k l) (reconstruct k r)))
          (reconstruct k r)
unfolding mux_product sub
mux_product_sum k c l r p q s =
    rw (p.holds0, p.holds1, p.holds2, q.holds0, q.holds1, q.holds2, s.holds0, s.holds1, s.holds2)
      (simp one_mod (ap (λ (t : ℕ). t % 2 ^ k) (omega arith)))

select_one : (k l r : ℕ) → IsElem k l → Ring.add k (Ring.mul k 1 (Ring.sub k l r)) r ≡ l
select_one k l r h =
    simp one_mod
      (mod-eq_of_multiples (2 ^ k) 0 r _ l (rw (pow-eq-suc k) (omega arith)) ∙ mod-eq_of_lt h)

select_zero : (k l r : ℕ) → IsElem k r → Ring.add k (Ring.mul k 0 (Ring.sub k l r)) r ≡ r
select_zero k l r h = simp one_mod (ap (λ (t : ℕ). t % 2 ^ k) (omega arith) ∙ mod-eq_of_lt h)

-- When the control value is the bit 1 the three local products of the conditional selection add up
-- to the value shared on the left, and when it is 0 to the one on the right.
pub mux_product_selects :
    (k : ℕ) (bit : Bool) (c l r : Shared)
    → IsReplicated c
    → IsReplicated l
    → IsReplicated r
    → reconstruct k c ≡ (if bit then 1 else 0)
    → Ring.add k
        (Ring.add k (mux_product k c.p0 l.p0 r.p0) (mux_product k c.p1 l.p1 r.p1))
        (mux_product k c.p2 l.p2 r.p2)
      ≡ (if bit then reconstruct k l else reconstruct k r)
mux_product_selects k true c l r p q s b =
    mux_product_sum k c l r p q s ∙ rw b (select_one k _ _ (add-IsElem k _ _))
mux_product_selects k false c l r p q s b =
    mux_product_sum k c l r p q s ∙ rw b (select_zero k (reconstruct k l) _ (add-IsElem k _ _))
