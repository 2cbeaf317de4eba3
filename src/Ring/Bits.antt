-- ===== src/Ring/Bits.antt =====
-- `bit_iter` of ampc-secret-sharing/src/shares/ring_impl.rs reads the binary digits of an element.
use ampc_common.Base.{
  ℕ, zero, suc, ◌+◌, ◌*◌, ◌/◌, ◌%◌, ◌^◌, ◌≡◌, refl, ap, sym, ◌∙◌, arith, List, [], ◌∷◌, length,
}
use ampc_common.Base.Bits.{and-one, mod-pow-suc}
use native.Mathlib.Numerals.{towards_suc}
use native.Mathlib.Nat.{mod-eq_of_lt, div-div-eq-div-mul, pow-suc}
use ampc_common.Ring.{IsElem, get_bit, bit_iter}

-- The number with the given binary digits, lowest first.
abbrev pub from_bits : List ℕ → ℕ
from_bits [] = 0
from_bits (b ∷ bs) = b + 2 * from_bits bs

get_bit_mod : (a i : ℕ) → get_bit a i ≡ a / 2 ^ i % 2
unfolding get_bit
get_bit_mod a i = and-one (a / 2 ^ i)

div-pow-suc : (a i : ℕ) → a / 2 ^ i / 2 ≡ a / 2 ^ (i + 1)
div-pow-suc a i =
    rw (div-div-eq-div-mul a (2 ^ i) 2)
      (ap (λ (t : ℕ). a / t) (simp towards_suc (sym (pow-suc 2 i))))

from_bits-bit_iter_from : (a i left : ℕ) → from_bits (bit_iter a i left) ≡ a / 2 ^ i % 2 ^ left
unfolding bit_iter
from_bits-bit_iter_from a i zero = omega arith
from_bits-bit_iter_from a i (suc left) = omega (
  arith,
  get_bit_mod a i,
  mod-pow-suc left (a / 2 ^ i),
  from_bits-bit_iter_from a (i + 1) left,
  ap (λ (t : ℕ). t % 2 ^ left) (div-pow-suc a i),
)

pub length-bit_iter : (a i left : ℕ) → length (bit_iter a i left) ≡ left
unfolding bit_iter
length-bit_iter a i zero = refl
length-bit_iter a i (suc left) = ap suc (length-bit_iter a (i + 1) left)

-- The `k` bits that `bit_iter` yields for an element of `k` bits are its binary digits, lowest
-- first: there are `k` of them and the number that they denote is the element.
pub from_bits-bit_iter :
    (k a : ℕ) → IsElem k a → (length (bit_iter a 0 k) ≡ k) × (from_bits (bit_iter a 0 k) ≡ a)
from_bits-bit_iter k a h = (
  length-bit_iter a 0 k,
  from_bits-bit_iter_from a 0 k ∙ ap (λ (t : ℕ). t % 2 ^ k) (omega arith) ∙ mod-eq_of_lt h,
)
