-- ===== src/Share/Boolean.antt =====
-- What the bitwise operations on replicated shares do to a value shared by exclusive or.
use ampc_common.Base.{
  ℕ, zero, suc, ◌+◌, ◌-◌, ◌%◌, ◌/◌, ◌^◌, ◌≤◌, ◌≡◌, ap, sym, ◌∙◌, arith, bit_and, bit_xor,
}
use ampc_common.Base.Bits.{
  bits_ext, low_digit, halves, xor_assoc, xor_comm, xor_self, xor-zero, xor_ones, xor_lt, xor-and,
}
use ampc_common.Base.Mod.{drop_mod}
use native.Mathlib.Nat.{le_refl}
use ampc_common.Ring
use ampc_common.Ring.{IsElem}
use ampc_common.Share.{bitxor, bitand, mask, complement}
use ampc_common.Share.Local.{Shared, IsReplicated, each, each₂}

-- The value shared by exclusive or.
abbrev pub reconstruct_xor : Shared → ℕ
reconstruct_xor s = bit_xor (bit_xor s.p0.a s.p1.a) s.p2.a

pub interchange :
    (a b c d : ℕ) → bit_xor (bit_xor a b) (bit_xor c d) ≡ bit_xor (bit_xor a c) (bit_xor b d)
interchange a b c d =
    xor_assoc a b (bit_xor c d)
    ∙ ap (bit_xor a)
        (sym (xor_assoc b c d) ∙ ap (λ (t : ℕ). bit_xor t d) (xor_comm b c) ∙ xor_assoc c b d)
    ∙ sym (xor_assoc a c (bit_xor b d))

xor_shared :
    (s t : Shared)
    → reconstruct_xor (each₂ bitxor s t) ≡ bit_xor (reconstruct_xor s) (reconstruct_xor t)
unfolding bitxor
xor_shared s t =
    ap (λ (u : ℕ). bit_xor u (bit_xor s.p2.a t.p2.a)) (interchange s.p0.a t.p0.a s.p1.a t.p1.a)
    ∙ interchange _ _ s.p2.a t.p2.a

-- The local conjunctions of the three parties, whose first parts are `a` and `b`.
abbrev three_ands : (a0 a1 a2 b0 b1 b2 : ℕ) → ℕ
three_ands a0 a1 a2 b0 b1 b2 =
    bit_xor
      (bit_xor (bit_xor (bit_xor (bit_and a0 b0) (bit_and a2 b0)) (bit_and a0 b2))
        (bit_xor (bit_xor (bit_and a1 b1) (bit_and a0 b1)) (bit_and a1 b0)))
      (bit_xor (bit_xor (bit_and a2 b2) (bit_and a1 b2)) (bit_and a2 b1))

three_ands_fuel :
    (n a0 a1 a2 b0 b1 b2 : ℕ)
    → a0 + a1 + a2 + b0 + b1 + b2 ≤ n
    → three_ands a0 a1 a2 b0 b1 b2
      ≡ bit_and (bit_xor (bit_xor a0 a1) a2) (bit_xor (bit_xor b0 b1) b2)
three_ands_fuel zero a0 a1 a2 b0 b1 b2 h =
    let e0 : a0 ≡ 0 = omega arith in
    let e1 : a1 ≡ 0 = omega arith in
    let e2 : a2 ≡ 0 = omega arith in
    let f0 : b0 ≡ 0 = omega arith in
    let f1 : b1 ≡ 0 = omega arith in let f2 : b2 ≡ 0 = omega arith in rw (e0, e1, e2, f0, f1, f2)
three_ands_fuel (suc n) a0 a1 a2 b0 b1 b2 h =
    bits_ext _ _
      (simp halves
        (three_ands_fuel n (a0 / 2) (a1 / 2) (a2 / 2) (b0 / 2) (b1 / 2) (b2 / 2) (omega arith)))
      (simp low_digit (simp drop_mod (ap (λ (t : ℕ). t % 2) (omega arith))))

three_ands_lem :
    (a0 a1 a2 b0 b1 b2 : ℕ)
    → three_ands a0 a1 a2 b0 b1 b2
      ≡ bit_and (bit_xor (bit_xor a0 a1) a2) (bit_xor (bit_xor b0 b1) b2)
three_ands_lem a0 a1 a2 b0 b1 b2 =
    three_ands_fuel (a0 + a1 + a2 + b0 + b1 + b2) a0 a1 a2 b0 b1 b2 (le_refl _)

-- For replicated shares of two values by exclusive or, the exclusive or of the three local
-- conjunctions is the conjunction of the values.
pub bitand_shared :
    (s t : Shared)
    → IsReplicated s
    → IsReplicated t
    → bit_xor (bit_xor (bitand s.p0 t.p0) (bitand s.p1 t.p1)) (bitand s.p2 t.p2)
      ≡ bit_and (reconstruct_xor s) (reconstruct_xor t)
unfolding bitand
bitand_shared s t r q =
    rw (r.holds0, r.holds1, r.holds2, q.holds0, q.holds1, q.holds2)
      (three_ands_lem s.p0.a s.p1.a s.p2.a t.p0.a t.p1.a t.p2.a)

complement_three :
    (k a b c : ℕ)
    → IsElem k a
    → IsElem k b
    → IsElem k c
    → bit_xor (bit_xor (Ring.not k a) (Ring.not k b)) (Ring.not k c)
      ≡ Ring.not k (bit_xor (bit_xor a b) c)
unfolding Ring.not
complement_three k a b c p q r =
    rw
      (
        ← xor_ones k a p,
        ← xor_ones k b q,
        ← xor_ones k c r,
        ← xor_ones k (bit_xor (bit_xor a b) c) (xor_lt k _ c (xor_lt k a b p q) r),
        interchange a (2 ^ k - 1) b (2 ^ k - 1),
        xor_self (2 ^ k - 1),
        xor-zero (bit_xor a b),
      )
      (sym (xor_assoc (bit_xor a b) c (2 ^ k - 1)))

-- On replicated shares whose parts fit `k` bits: flipping the bits of all shares flips those of the
-- value; the exclusive or of shares, and masking with a public value, act on the value likewise.
-- All three keep the shares replicated.
pub bitwise_shared :
    (k m : ℕ) (s t : Shared)
    → IsReplicated s
    → IsReplicated t
    → IsElem k s.p0.a
    → IsElem k s.p1.a
    → IsElem k s.p2.a
    → IsReplicated (each (complement k) s)
      × (reconstruct_xor (each (complement k) s) ≡ Ring.not k (reconstruct_xor s))
      × IsReplicated (each₂ bitxor s t)
      × (reconstruct_xor (each₂ bitxor s t) ≡ bit_xor (reconstruct_xor s) (reconstruct_xor t))
      × IsReplicated (each (λ x. mask x m) s)
      × (reconstruct_xor (each (λ x. mask x m) s) ≡ bit_and (reconstruct_xor s) m)
unfolding complement bitxor mask
bitwise_shared k m s t r q e0 e1 e2 = (
  record { holds0 = cc; holds1 = cc; holds2 = cc },
  complement_three k s.p0.a s.p1.a s.p2.a e0 e1 e2,
  record { holds0 = cc; holds1 = cc; holds2 = cc },
  xor_shared s t,
  record { holds0 = cc; holds1 = cc; holds2 = cc },
  simp xor-and,
)
