-- ===== src/Ring48/Laws.antt =====
-- The masked `u64` arithmetic is the arithmetic of 48 bits.
use ampc_common.Base.{ℕ, ◌+◌, ◌*◌, ◌%◌, ◌^◌, ◌≡◌, ◌∙◌, arith, bit_and}
use ampc_common.Base.Bits.{and_mask, xor_lt}
use ampc_common.Base.Mod.{pow-pos}
use native.Mathlib.Nat.{mod-lt, div-le_self}
use ampc_common.Ring
use ampc_common.Ring.{IsElem}
use ampc_common.Ring48.{
  wrapping_add, wrapping_sub, wrapping_mul, wrapping_neg, wrapping_shl, wrapping_shr, complement,
  masked, mask_48, bitxor, u64_shl, u64_not,
}

low_48 : (a : ℕ) → bit_and (a % 2 ^ 64) mask_48 ≡ a % 2 ^ 48
low_48 a = and_mask 48 (a % 2 ^ 64) ∙ omega arith

-- On values below 2 ^ 48 the masked operations on `u64` are those of the integers of 48 bits.
pub ring48_arithmetic :
    (a b : ℕ)
    → IsElem 48 a
    → IsElem 48 b
    → (wrapping_add a b ≡ Ring.add 48 a b)
      × (wrapping_sub a b ≡ Ring.sub 48 a b)
      × (wrapping_mul a b ≡ Ring.mul 48 a b)
      × (wrapping_neg a ≡ Ring.neg 48 a)
unfolding wrapping_add wrapping_sub wrapping_mul wrapping_neg Ring.add Ring.sub Ring.mul Ring.neg
ring48_arithmetic a b p q =
    (low_48 (a + b), low_48 _ ∙ omega arith, low_48 (a * b), low_48 _ ∙ omega arith)

complement-eq-not : (a : ℕ) → IsElem 48 a → complement a ≡ Ring.not 48 a
unfolding complement Ring.not
complement-eq-not a h = and_mask 48 _ ∙ omega arith

masked-IsElem : (v : ℕ) → IsElem 48 (masked v)
unfolding masked
masked-IsElem v = rw (and_mask 48 v) (mod-lt v (pow-pos 48))

shl-IsElem : (a r : ℕ) → IsElem 48 (wrapping_shl a r)
unfolding wrapping_shl
shl-IsElem a r = rw (and_mask 48 (u64_shl a r)) (mod-lt _ (pow-pos 48))

shr-IsElem : (a r : ℕ) → IsElem 48 a → IsElem 48 (wrapping_shr a r)
unfolding wrapping_shr
shr-IsElem a r h = omega (arith, div-le_self a (2 ^ (r % 64)))

-- No operation but the tuple constructor leaves the 48 bits: masking, complement, exclusive or and
-- the two shifts, by any amount, give a value below 2 ^ 48 from values below 2 ^ 48, and the
-- complement is that of 48 bits.
pub ring48_closed :
    (a b r : ℕ)
    → IsElem 48 a
    → IsElem 48 b
    → IsElem 48 (masked r)
      × (complement a ≡ Ring.not 48 a)
      × IsElem 48 (complement a)
      × IsElem 48 (bitxor a b)
      × IsElem 48 (wrapping_shl a r)
      × IsElem 48 (wrapping_shr a r)
ring48_closed a b r p q = (
  masked-IsElem r,
  complement-eq-not a p,
  unfold complement in rw (and_mask 48 (u64_not a)) (mod-lt _ (pow-pos 48)),
  unfold bitxor in xor_lt 48 a b p q,
  shl-IsElem a r,
  shr-IsElem a r p,
)
