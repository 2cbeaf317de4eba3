-- ===== src/Bit/Laws.antt =====
-- The byte operations on 0 and 1 are the arithmetic of one bit.
use ampc_common.Base.{ℕ, zero, suc, ◌<◌, ◌≡◌, refl, arith, Bool, true, false, ◌&&◌, ◌||◌, not, some}
use mathlib.Core.Bool.{xor}
use ampc_common.Ring
use ampc_common.Ring.{IsElem}
use ampc_common.Bit.{new, convert, try_from, bitxor, bitor, bitand, add, sub, neg, complement, mul}

-- A statement about two bits, from its four cases.
bits_cases :
    (P : ℕ → ℕ → Type 0) → P 0 0 → P 0 1 → P 1 0 → P 1 1 → (a b : ℕ) → a < 2 → b < 2 → P a b
bits_cases P p q r s zero zero h k = p
bits_cases P p q r s zero (suc zero) h k = q
bits_cases P p q r s (suc zero) zero h k = r
bits_cases P p q r s (suc zero) (suc zero) h k = s
bits_cases P p q r s zero (suc (suc b)) h k = absurd (omega arith)
bits_cases P p q r s (suc zero) (suc (suc b)) h k = absurd (omega arith)
bits_cases P p q r s (suc (suc a)) b h k = absurd (omega arith)

-- Exclusive or as addition and subtraction, conjunction as multiplication and the identity as
-- negation are the operations of the integers of one bit, on 0 and 1.
pub bit_arithmetic :
    (a b : ℕ)
    → IsElem 1 a
    → IsElem 1 b
    → (add a b ≡ Ring.add 1 a b)
      × (sub a b ≡ Ring.sub 1 a b)
      × (mul a b ≡ Ring.mul 1 a b)
      × (neg a ≡ Ring.neg 1 a)
unfolding add sub mul neg Ring.add Ring.sub Ring.mul Ring.neg
bit_arithmetic a b p q =
    bits_cases
      (λ a b.
        (add a b ≡ Ring.add 1 a b)
        × (sub a b ≡ Ring.sub 1 a b)
        × (mul a b ≡ Ring.mul 1 a b)
        × (neg a ≡ Ring.neg 1 a))
      (refl, refl, refl, refl) (refl, refl, refl, refl) (refl, refl, refl, refl)
      (refl, refl, refl, refl) a b p q

-- A truth value survives the conversion to a bit and back, its bit passes `try_from`, and the bit
-- operations are the truth functions.
pub bit_truth :
    (x y : Bool)
    → (convert (new x) ≡ x)
      × (try_from (new x) ≡ some (new x))
      × (bitxor (new x) (new y) ≡ new (xor x y))
      × (bitand (new x) (new y) ≡ new (x && y))
      × (bitor (new x) (new y) ≡ new (x || y))
      × (complement (new x) ≡ new (not x))
unfolding convert new try_from bitxor bitand bitor complement xor
bit_truth true true = (refl, refl, refl, refl, refl, refl)
bit_truth true false = (refl, refl, refl, refl, refl, refl)
bit_truth false true = (refl, refl, refl, refl, refl, refl)
bit_truth false false = (refl, refl, refl, refl, refl, refl)
