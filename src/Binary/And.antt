-- ===== src/Binary/And.antt =====
-- The conjunction and the opening of values that are shared by exclusive or.
use ampc_common.Base.{
  ℕ, ◌≡◌, refl, ap, map, length-map, ◌∙◌, arith, List, [], ◌∷◌, length, bit_xor, bit_and, ◌==◌,
  some, true,
}
use ampc_common.Base.Bits.{xor_comm, xor_self, xor-zero}
use ampc_common.Ring.{zip_with}
use ampc_common.Share
use ampc_common.Share.{Share, new}
use ampc_common.Share.Local.{Shared, IsReplicated}
use ampc_common.Share.Boolean.{reconstruct_xor, bitand_shared, interchange}
use ampc_common.Protocol.{Prf, gen_rands_mine, gen_rands_prev, gen_rands_batch}
use ampc_common.Protocol.Reshare.{IsInSync}
use ampc_common.Binary.{mask_ands, and_many_send, and_many_receive}

-- The shares that the three parties hold of a list of values by exclusive or.
abbrev pub AreXorSharesOf : List ℕ → List Share → List Share → List Share → Type 0
AreXorSharesOf [] [] [] [] = Unit {0}
AreXorSharesOf (x ∷ xs) (s ∷ ss) (t ∷ ts) (u ∷ us) =
    IsReplicated (record { p0 = s; p1 = t; p2 = u })
    × (reconstruct_xor (record { p0 = s; p1 = t; p2 = u }) ≡ x)
    × AreXorSharesOf xs ss ts us
AreXorSharesOf _ _ _ _ = ⊥

-- The three masks cancel.
xor_masks_cancel :
    (e0 e1 e2 m0 m1 m2 : ℕ)
    → bit_xor
        (bit_xor (bit_xor e0 (bit_xor m0 m2)) (bit_xor e1 (bit_xor m1 m0)))
        (bit_xor e2 (bit_xor m2 m1))
      ≡ bit_xor (bit_xor e0 e1) e2
xor_masks_cancel e0 e1 e2 m0 m1 m2 =
    let pair : bit_xor (bit_xor m0 m2) (bit_xor m1 m0) ≡ bit_xor m2 m1 =
      ap (bit_xor (bit_xor m0 m2)) (xor_comm m1 m0)
      ∙ interchange m0 m2 m0 m1
      ∙ ap (λ t. bit_xor t (bit_xor m2 m1)) (xor_self m0)
      ∙ xor_comm 0 (bit_xor m2 m1)
      ∙ xor-zero (bit_xor m2 m1) in
    ap (λ t. bit_xor t (bit_xor e2 (bit_xor m2 m1)))
      (interchange e0 (bit_xor m0 m2) e1 (bit_xor m1 m0))
    ∙ interchange (bit_xor e0 e1) (bit_xor (bit_xor m0 m2) (bit_xor m1 m0)) e2 (bit_xor m2 m1)
    ∙ ap (λ t. bit_xor (bit_xor (bit_xor e0 e1) e2) (bit_xor t (bit_xor m2 m1))) pair
    ∙ ap (bit_xor (bit_xor (bit_xor e0 e1) e2)) (xor_self (bit_xor m2 m1))
    ∙ xor-zero (bit_xor (bit_xor e0 e1) e2)

-- What the parties hold of a list of shared values.
abbrev pub at_0 : List Shared → List Share
at_0 = map (λ s. s.p0)

abbrev pub at_1 : List Shared → List Share
at_1 = map (λ s. s.p1)

abbrev pub at_2 : List Shared → List Share
at_2 = map (λ s. s.p2)

abbrev pub AreReplicated : List Shared → Type 0
AreReplicated [] = Unit {0}
AreReplicated (s ∷ ss) = IsReplicated s × AreReplicated ss

abbrev pub values : List Shared → List ℕ
values = map reconstruct_xor

mask_ands_shared :
    (xs ys : List Shared) (m0 m1 m2 : List ℕ)
    → AreReplicated xs
    → AreReplicated ys
    → length ys ≡ length xs
    → length m0 ≡ length xs
    → length m1 ≡ length xs
    → length m2 ≡ length xs
    → AreXorSharesOf
        (zip_with bit_and (values xs) (values ys))
        (zip_with new (mask_ands (at_0 xs) (at_0 ys) m0 m2) (mask_ands (at_2 xs) (at_2 ys) m2 m1))
        (zip_with new (mask_ands (at_1 xs) (at_1 ys) m1 m0) (mask_ands (at_0 xs) (at_0 ys) m0 m2))
        (zip_with new (mask_ands (at_2 xs) (at_2 ys) m2 m1) (mask_ands (at_1 xs) (at_1 ys) m1 m0))
unfolding zip_with new mask_ands
mask_ands_shared [] ys m0 m1 m2 ra rb l l0 l1 l2 = tt
mask_ands_shared (a ∷ xs) [] m0 m1 m2 ra rb l l0 l1 l2 = absurd (omega arith)
mask_ands_shared (a ∷ xs) (b ∷ ys) [] m1 m2 ra rb l l0 l1 l2 = absurd (omega arith)
mask_ands_shared (a ∷ xs) (b ∷ ys) (m ∷ m0) [] m2 ra rb l l0 l1 l2 = absurd (omega arith)
mask_ands_shared (a ∷ xs) (b ∷ ys) (m ∷ m0) (m' ∷ m1) [] ra rb l l0 l1 l2 = absurd (omega arith)
mask_ands_shared (a ∷ xs) (b ∷ ys) (m ∷ m0) (m' ∷ m1) (m'' ∷ m2) ra rb l l0 l1 l2 = (
  record { holds0 = refl; holds1 = refl; holds2 = refl },
  xor_masks_cancel (Share.bitand a.p0 b.p0) (Share.bitand a.p1 b.p1) (Share.bitand a.p2 b.p2) m m'
        m''
      ∙ bitand_shared a b ra.0 rb.0,
  mask_ands_shared xs ys m0 m1 m2 ra.1 rb.1 (omega arith) (omega arith) (omega arith) (omega arith),
)

-- For generators in step, and a generator that fills as many elements as asked for: when the
-- parties hold replicated shares by exclusive or of two lists of equal length, no party has an
-- error in `and_many`, and afterwards they hold replicated shares of the conjunctions, position by
-- position, and their generators are in step.
pub and_many_shared :
    {Rng : Type 0} (fill : ℕ → ℕ → Rng → List ℕ × Rng)
    (fills : (k n : ℕ) (rng : Rng) → length (fill k n rng).0 ≡ n) (k : ℕ) (xs ys : List Shared)
    (p0 p1 p2 : Prf Rng)
    → AreReplicated xs
    → AreReplicated ys
    → length ys ≡ length xs
    → IsInSync p0 p1 p2
    → (sent0 sent1 sent2 : List ℕ × Prf Rng) × (and_many_send fill k (at_0 xs) (at_0 ys) p0
        ≡ some sent0)
      × (and_many_send fill k (at_1 xs) (at_1 ys) p1 ≡ some sent1)
      × (and_many_send fill k (at_2 xs) (at_2 ys) p2 ≡ some sent2)
      × AreXorSharesOf
          (zip_with bit_and (values xs) (values ys))
          (and_many_receive sent0.0 sent2.0)
          (and_many_receive sent1.0 sent0.0)
          (and_many_receive sent2.0 sent1.0)
      × IsInSync sent0.1 sent1.1 sent2.1
unfolding and_many_send and_many_receive gen_rands_batch gen_rands_mine gen_rands_prev
and_many_shared fill fills k xs ys p0 p1 p2 ra rb l s =
    let n : ℕ = length xs in
    let m0 = fill k n p0.my_prf in
    let m1 = fill k n p1.my_prf in
    let m2 = fill k n p2.my_prf in
    let a0 = length-map xs (λ x. x.p0) in
    let a1 = length-map xs (λ x. x.p1) in
    let a2 = length-map xs (λ x. x.p2) in
    let b0 = length-map ys (λ x. x.p0) in
    let b1 = length-map ys (λ x. x.p1) in
    let b2 = length-map ys (λ x. x.p2) in
    let same : (n == length ys) ≡ true = ground arith in
    rw (s.shared0, s.shared1, s.shared2, a0, a1, a2, b0, b1, b2, same)
      (
        (mask_ands (at_0 xs) (at_0 ys) m0.0 m2.0, record { my_prf = m0.1; prev_prf = m2.1 }),
        (mask_ands (at_1 xs) (at_1 ys) m1.0 m0.0, record { my_prf = m1.1; prev_prf = m0.1 }),
        (mask_ands (at_2 xs) (at_2 ys) m2.0 m1.0, record { my_prf = m2.1; prev_prf = m1.1 }),
        refl,
        refl,
        refl,
        mask_ands_shared xs ys m0.0 m1.0 m2.0 ra rb l (fills k n p0.my_prf) (fills k n p1.my_prf)
            (fills k n p2.my_prf),
        record { shared0 = refl; shared1 = refl; shared2 = refl },
      )
