-- ===== src/Binary/Inject.antt =====
-- The three parties of `bit_inject` together.
use ampc_common.Base.{
  ℕ, zero, suc, ◌+◌, ◌*◌, ◌%◌, ◌^◌, ◌<◌, ◌≡◌, refl, ap, ◌∙◌, arith, List, [], ◌∷◌, length, some,
}
use ampc_common.Base.Mod.{mod-eq_of_multiples, pow-eq-suc, minus_one}
use native.Mathlib.Nat.{mod-eq_of_lt, lt_of_lt_of_le, pow-le-pow_right}
use ampc_common.Base.Bits.{xor_comm}
use ampc_common.Wire.Bits.{AreBits}
use ampc_common.Ring
use ampc_common.Ring.{zip_with, vec_mul, vec_sub}
use ampc_common.Ring.Laws.{one_mod}
use ampc_common.Bit
use ampc_common.Ring.Vectors.{vec_mul_lem, vec_sub_lem}
use ampc_common.Share.{Share, new, sub, add}
use ampc_common.Protocol.{Prf, gen_rands_mine, gen_rands_prev, gen_rands_batch}
use ampc_common.Protocol.Reshare.{AreSharesOf, IsInSync}
use ampc_common.Binary.{
  ring_bit, second_bits, first_bits, mask_xors, finish_0, finish_1, finish_2,
  bit_inject_party0_send, bit_inject_party1_send, bit_inject_party2, bit_inject_party1_receive,
  bit_inject_party0_receive,
}

-- The first parts of the three shares of one bit add up to it, whatever the masks are: `d` is the
-- exclusive or of two of its shares, `c` the third.
abbrev sum_of : (k d c r01 r02 r12 : ℕ) → ℕ
sum_of k d c r01 r02 r12 =
    let y = Ring.sub k (Ring.mul k r01 c) r02 in
    let x = Ring.sub k d r01 in
    let z = Ring.sub k (Ring.mul k x c) r12 in
    Ring.add k
      (Ring.add k (Ring.sub k (Ring.sub k (Ring.add k r01 0) (Ring.add k y 0)) (Ring.add k y 0))
        (Ring.sub k (Ring.sub k x (Ring.add k 0 r12)) (Ring.add k 0 r12)))
      (Ring.sub k (Ring.sub k (Ring.add k 0 c) (Ring.add k r02 z)) (Ring.add k r02 z))

sum_lem :
    (k d c r01 r02 r12 : ℕ) → d < 2 → c < 2 → sum_of k d c r01 r02 r12 ≡ Bit.bitxor d c % 2 ^ k
unfolding Bit.bitxor
sum_lem k zero zero r01 r02 r12 hd hc = simp one_mod (
    mod-eq_of_multiples (2 ^ k) 0 (r01 + 2 * minus_one k * r02 + 2 * minus_one k * r12) _ 0
      (rw (pow-eq-suc k) (omega arith)))
sum_lem k zero (suc zero) r01 r02 r12 hd hc = simp one_mod (
    mod-eq_of_multiples (2 ^ k) 0
      (r01 + 2 * minus_one k * r01 + 2 * minus_one k * r02 + 2 * minus_one k * r12) _ 1
      (rw (pow-eq-suc k) (omega arith)))
sum_lem k (suc zero) zero r01 r02 r12 hd hc = simp one_mod (
    mod-eq_of_multiples (2 ^ k) 0 (r01 + 2 * minus_one k * r02 + 2 * minus_one k * r12) _ 1
      (rw (pow-eq-suc k) (omega arith)))
sum_lem k (suc zero) (suc zero) r01 r02 r12 hd hc = simp one_mod (
    mod-eq_of_multiples (2 ^ k) 0
      (r01 + 2 * minus_one k * r01 + 2 * minus_one k * r02 + 2 * minus_one k * r12 + 2) _ 0
      (rw (pow-eq-suc k) (omega arith)))
sum_lem k (suc (suc d)) c r01 r02 r12 hd hc = absurd (omega arith)
sum_lem k d (suc (suc c)) r01 r02 r12 hd hc = absurd (omega arith)

ring_bit_lem : (b : ℕ) → b < 2 → ring_bit b ≡ b
unfolding ring_bit Bit.convert
ring_bit_lem zero h = refl
ring_bit_lem (suc zero) h = refl
ring_bit_lem (suc (suc b)) h = absurd (omega arith)

bitxor_lt : (a b : ℕ) → a < 2 → b < 2 → Bit.bitxor a b < 2
unfolding Bit.bitxor
bitxor_lt zero zero h h' = omega arith
bitxor_lt zero (suc zero) h h' = omega arith
bitxor_lt (suc zero) zero h h' = omega arith
bitxor_lt (suc zero) (suc zero) h h' = omega arith
bitxor_lt (suc (suc a)) b h h' = absurd (omega arith)
bitxor_lt a (suc (suc b)) h h' = absurd (omega arith)

-- The order of the first two bits does not matter, and a bit is an element of the ring.
xor_value :
    (k a b c : ℕ)
    → 0 < k
    → a < 2
    → b < 2
    → c < 2
    → Bit.bitxor (Bit.bitxor b a) c % 2 ^ k ≡ Bit.bitxor (Bit.bitxor a b) c
unfolding Bit.bitxor
xor_value k a b c pos ha hb hc =
    ap (λ t. Bit.bitxor t c % 2 ^ k) (xor_comm b a)
    ∙ mod-eq_of_lt (
        lt_of_lt_of_le (bitxor_lt (Bit.bitxor a b) c (bitxor_lt a b ha hb) hc)
          (pow-le-pow_right {n = 2} (omega arith) {i = 1} {j = k} pos))

abbrev pub xors : List ℕ → List ℕ → List ℕ → List ℕ
xors (a ∷ b0) (b ∷ b1) (c ∷ b2) = Bit.bitxor (Bit.bitxor a b) c ∷ xors b0 b1 b2
xors _ _ _ = []

finished :
    (k n : ℕ) (b0 b1 b2 m0 m1 m2 : List ℕ)
    → 0 < k
    → length b0 ≡ n
    → length b1 ≡ n
    → length b2 ≡ n
    → length m0 ≡ n
    → length m1 ≡ n
    → length m2 ≡ n
    → AreBits b0
    → AreBits b1
    → AreBits b2
    → let c0 = second_bits (zip_with new b0 b2) in
      let c2 = first_bits (zip_with new b2 b1) in
      let x = mask_xors k (zip_with new b1 b0) m0 in
      let y = zip_with (Ring.sub k) (zip_with (Ring.mul k) m0 c0) m2 in
      let z = zip_with (Ring.sub k) (zip_with (Ring.mul k) x c2) m1 in
      AreSharesOf k
        (xors b0 b1 b2)
        (finish_0 k m0 c0 y m2 z)
        (finish_1 k x m0 y m1)
        (finish_2 k x c2 m2 z m1)
unfolding zip_with new second_bits first_bits mask_xors finish_0 finish_1 finish_2 add sub
finished k zero [] [] [] [] [] [] pos l0 l1 l2 l3 l4 l5 h0 h1 h2 = tt
finished k zero (a ∷ b0) b1 b2 m0 m1 m2 pos l0 l1 l2 l3 l4 l5 h0 h1 h2 = absurd (omega arith)
finished k zero [] (b ∷ b1) b2 m0 m1 m2 pos l0 l1 l2 l3 l4 l5 h0 h1 h2 = absurd (omega arith)
finished k zero [] [] (c ∷ b2) m0 m1 m2 pos l0 l1 l2 l3 l4 l5 h0 h1 h2 = absurd (omega arith)
finished k zero [] [] [] (r01 ∷ m0) m1 m2 pos l0 l1 l2 l3 l4 l5 h0 h1 h2 = absurd (omega arith)
finished k zero [] [] [] [] (r12 ∷ m1) m2 pos l0 l1 l2 l3 l4 l5 h0 h1 h2 = absurd (omega arith)
finished k zero [] [] [] [] [] (r02 ∷ m2) pos l0 l1 l2 l3 l4 l5 h0 h1 h2 = absurd (omega arith)
finished k (suc n) [] b1 b2 m0 m1 m2 pos l0 l1 l2 l3 l4 l5 h0 h1 h2 = absurd (omega arith)
finished k (suc n) (a ∷ b0) [] b2 m0 m1 m2 pos l0 l1 l2 l3 l4 l5 h0 h1 h2 = absurd (omega arith)
finished k (suc n) (a ∷ b0) (b ∷ b1) [] m0 m1 m2 pos l0 l1 l2 l3 l4 l5 h0 h1 h2 =
    absurd (omega arith)
finished k (suc n) (a ∷ b0) (b ∷ b1) (c ∷ b2) [] m1 m2 pos l0 l1 l2 l3 l4 l5 h0 h1 h2 =
    absurd (omega arith)
finished k (suc n) (a ∷ b0) (b ∷ b1) (c ∷ b2) (r01 ∷ m0) [] m2 pos l0 l1 l2 l3 l4 l5 h0 h1 h2 =
    absurd (omega arith)
finished k (suc n) (a ∷ b0) (b ∷ b1) (c ∷ b2) (r01 ∷ m0) (r12 ∷ m1) [] pos l0 l1 l2 l3 l4 l5 h0 h1
      h2 =
    absurd (omega arith)
finished k (suc n) (a ∷ b0) (b ∷ b1) (c ∷ b2) (r01 ∷ m0) (r12 ∷ m1) (r02 ∷ m2) pos l0 l1 l2 l3 l4 l5
      h0 h1 h2 =
    rw (ring_bit_lem c h2.0, ring_bit_lem (Bit.bitxor b a) (bitxor_lt b a h1.0 h0.0))
      (
        record {
          holds0 = refl;
          holds1 = simp one_mod (ap (λ (t : ℕ). t % 2 ^ k) (omega arith));
          holds2 = simp one_mod (ap (λ (t : ℕ). t % 2 ^ k) (omega arith));
        },
        sum_lem k (Bit.bitxor b a) c r01 r02 r12 (bitxor_lt b a h1.0 h0.0) h2.0
            ∙ xor_value k a b c pos h0.0 h1.0 h2.0,
        finished k n b0 b1 b2 m0 m1 m2 pos (omega arith) (omega arith) (omega arith) (omega arith)
            (omega arith) (omega arith) h0.1 h1.1 h2.1,
      )

length-second_bits : (ss : List Share) → length (second_bits ss) ≡ length ss
unfolding second_bits
length-second_bits [] = refl
length-second_bits (s ∷ ss) = ap suc (length-second_bits ss)

length-first_bits : (ss : List Share) → length (first_bits ss) ≡ length ss
unfolding first_bits
length-first_bits [] = refl
length-first_bits (s ∷ ss) = ap suc (length-first_bits ss)

length-zip_with {ℓ κ μ} :
    {A : Type ℓ} {B : Type κ} {C : Type μ} (f : A → B → C) (xs : List A) (ys : List B)
    → length xs ≡ length ys
    → length (zip_with f xs ys) ≡ length xs
unfolding zip_with
length-zip_with f [] ys h = refl
length-zip_with f (x ∷ xs) [] h = absurd (omega arith)
length-zip_with f (x ∷ xs) (y ∷ ys) h = ap suc (length-zip_with f xs ys (omega arith))

length-mask_xors :
    (k : ℕ) (ss : List Share) (rs : List ℕ)
    → length ss ≡ length rs
    → length (mask_xors k ss rs) ≡ length ss
unfolding mask_xors
length-mask_xors k [] rs h = refl
length-mask_xors k (s ∷ ss) [] h = absurd (omega arith)
length-mask_xors k (s ∷ ss) (r ∷ rs) h = ap suc (length-mask_xors k ss rs (omega arith))

-- For generators in step, and a generator that fills as many elements as asked for: when the
-- parties hold replicated shares of bits, and each hands its message on, party 0 and party 2 have
-- no error, and all three end with replicated shares, in the ring of `2 ^ k`, of the exclusive ors
-- of the three bits, and with generators in step.
pub bit_inject_shared :
    {Rng : Type 0} (fill : ℕ → ℕ → Rng → List ℕ × Rng)
    (fills : (k n : ℕ) (rng : Rng) → length (fill k n rng).0 ≡ n) (k : ℕ) (b0 b1 b2 : List ℕ)
    (p0 p1 p2 : Prf Rng)
    → 0 < k
    → length b1 ≡ length b0
    → length b2 ≡ length b0
    → AreBits b0
    → AreBits b1
    → AreBits b2
    → IsInSync p0 p1 p2
    → let s0 = zip_with new b0 b2 in
      let s1 = zip_with new b1 b0 in
      let s2 = zip_with new b2 b1 in
      let sent1 = bit_inject_party1_send fill k s1 p1 in
      (sent0 : List ℕ × (List ℕ × List ℕ) × Prf Rng) × (done2 : List ℕ × List Share × Prf Rng)
      × (bit_inject_party0_send fill k s0 p0 ≡ some sent0)
      × (bit_inject_party2 fill k s2 p2 sent1.0 ≡ some done2)
      × AreSharesOf k
          (xors b0 b1 b2)
          (bit_inject_party0_receive k s0 sent0.0 sent0.1 done2.0)
          (bit_inject_party1_receive fill k s1 sent1.0 sent1.1 sent1.2 sent0.0).0
          done2.1
      × IsInSync sent0.2
          (bit_inject_party1_receive fill k s1 sent1.0 sent1.1 sent1.2 sent0.0).1
          done2.2
unfolding bit_inject_party0_send bit_inject_party1_send bit_inject_party2 bit_inject_party1_receive
    bit_inject_party0_receive gen_rands_batch gen_rands_mine gen_rands_prev
bit_inject_shared fill fills k b0 b1 b2 p0 p1 p2 pos l1 l2 h0 h1 h2 s =
    let n : ℕ = length b0 in
    let s0 = zip_with new b0 b2 in
    let s1 = zip_with new b1 b0 in
    let s2 = zip_with new b2 b1 in
    let m0 = (fill k n p0.my_prf).0 in
    let m1 = (fill k n p1.my_prf).0 in
    let m2 = (fill k n p2.my_prf).0 in
    let f0 = fills k n p0.my_prf in
    let f1 = fills k n p1.my_prf in
    let f2 = fills k n p2.my_prf in
    let e0 : length s0 ≡ n = length-zip_with new b0 b2 (omega arith) in
    let e1 : length s1 ≡ n = length-zip_with new b1 b0 (omega arith) ∙ l1 in
    let e2 : length s2 ≡ n = length-zip_with new b2 b1 (omega arith) ∙ l2 in
    let c0 = second_bits s0 in
    let c2 = first_bits s2 in
    let x = mask_xors k s1 m0 in
    let y0 = zip_with (Ring.mul k) m0 c0 in
    let z0 = zip_with (Ring.mul k) x c2 in
    let y = zip_with (Ring.sub k) y0 m2 in
    let z = zip_with (Ring.sub k) z0 m1 in
    let g0 = length-second_bits s0 in
    let g2 = length-first_bits s2 in
    let gx = length-mask_xors k s1 m0 (omega arith) in
    let gy = length-zip_with (Ring.mul k) m0 c0 (omega arith) in
    let gz = length-zip_with (Ring.mul k) x c2 (omega arith) in
    rw (s.shared0, s.shared1, s.shared2, e0, e1, e2)
      (
        (
          y,
          (m0, m2),
          record { my_prf = (fill k n p0.my_prf).1; prev_prf = (fill k n p2.my_prf).1 },
        ),
        (
          z,
          finish_2 k x c2 m2 z m1,
          record { my_prf = (fill k n p2.my_prf).1; prev_prf = (fill k n p1.my_prf).1 },
        ),
        rw (vec_mul_lem k m0 c0 (omega arith), vec_sub_lem k y0 m2 (omega arith)) refl,
        rw (vec_mul_lem k x c2 (omega arith), vec_sub_lem k z0 m1 (omega arith)) refl,
        finished k n b0 b1 b2 m0 m1 m2 pos refl l1 l2 f0 f1 f2 h0 h1 h2,
        record { shared0 = refl; shared1 = refl; shared2 = refl },
      )
