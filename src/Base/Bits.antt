-- ===== src/Base/Bits.antt =====
-- Laws of the native bit operations at variables, from their recursion on binary digits.
use Prim.Native.Nat.{
  ℕ, zero, suc, ◌+◌, ◌-◌, ◌*◌, ◌/◌, ◌%◌, ◌^◌, ◌≤◌, ◌<◌, min, digits, bitwise, bit_and, bit_xor,
  bit_and-bitwise, bit_xor-bitwise, differ,
}
use mathlib.Core.Path.{◌≡◌, refl, ap, ap₂, sym, ◌∙◌}
use native.Mathlib.Omega.{arith}
use native.Mathlib.Nat.{pow-suc, mod-lt, mod-eq_of_lt, div-add-mod'}
use ampc_common.Base.Mod.{mod-eq_of_multiples, pow-pos, drop_mod}

module _ (on_zero : ℕ → ℕ) (digit : ℕ → ℕ → ℕ) where
  -- One unit of fuel above the first operand changes nothing, so no amount of it does.
  one_more : (b a n : ℕ) → a ≤ n → digits on_zero digit (suc n) a b ≡ digits on_zero digit n a b
  one_more b zero zero le = refl
  one_more b zero (suc n) le = refl
  one_more b (suc a) zero le = absurd (omega arith)
  one_more b (suc a) (suc n) le =
      ap (λ (t : ℕ). t * 2 + digit (suc a % 2) (b % 2))
        (one_more (b / 2) (suc a / 2) n (omega arith))

  spare : (b a extra : ℕ) → digits on_zero digit (extra + a) a b ≡ digits on_zero digit a a b
  spare b a zero = ap (λ (n : ℕ). digits on_zero digit n a b) (omega arith)
  spare b a (suc extra) =
      let next : suc extra + a ≡ suc (extra + a) = omega arith in
      ap (λ (n : ℕ). digits on_zero digit n a b) next
      ∙ one_more b a (extra + a) (omega arith)
      ∙ spare b a extra

  lowest_digit :
      (a b : ℕ)
      → bitwise on_zero digit (suc a) b
        ≡ bitwise on_zero digit (suc a / 2) (b / 2) * 2 + digit (suc a % 2) (b % 2)
  lowest_digit a b =
      let total : a - suc a / 2 + suc a / 2 ≡ a = omega arith in
      ap (λ (t : ℕ). t * 2 + digit (suc a % 2) (b % 2))
        (ap (λ (n : ℕ). digits on_zero digit n (suc a / 2) (b / 2)) (sym total)
          ∙ spare (b / 2) (suc a / 2) (a - suc a / 2))

differ-digit : (x y : ℕ) → x < 2 → y < 2 → differ x y ≡ (x + y) % 2
differ-digit zero zero p q = refl
differ-digit zero (suc zero) p q = refl
differ-digit (suc zero) zero p q = refl
differ-digit (suc zero) (suc zero) p q = refl
differ-digit zero (suc (suc y)) p q = absurd (omega arith)
differ-digit (suc zero) (suc (suc y)) p q = absurd (omega arith)
differ-digit (suc (suc x)) y p q = absurd (omega arith)

pub and_step : (a b : ℕ) → bit_and a b ≡ min (a % 2) (b % 2) + 2 * bit_and (a / 2) (b / 2)
and_step zero b = simp bit_and-bitwise (omega arith)
and_step (suc a) b = simp bit_and-bitwise (omega (arith, lowest_digit (λ digit. 0) min a b))

pub xor_step : (a b : ℕ) → bit_xor a b ≡ bit_xor (a / 2) (b / 2) * 2 + (a + b) % 2
xor_step zero b = simp bit_xor-bitwise (omega arith)
xor_step (suc a) b = simp bit_xor-bitwise (
    lowest_digit (λ y. y) differ a b
    ∙ omega (arith, differ-digit (suc a % 2) (b % 2) (omega arith) (omega arith)))

pub bits_ext : (a b : ℕ) → a / 2 ≡ b / 2 → a % 2 ≡ b % 2 → a ≡ b
bits_ext a b h l = omega arith

pub xor-half : (a b : ℕ) → bit_xor a b / 2 ≡ bit_xor (a / 2) (b / 2)
xor-half a b = omega (arith, xor_step a b)

pub xor-low : (a b : ℕ) → bit_xor a b % 2 ≡ (a + b) % 2
xor-low a b = omega (arith, xor_step a b)

pub and-half : (a b : ℕ) → bit_and a b / 2 ≡ bit_and (a / 2) (b / 2)
and-half a b = omega (arith, and_step a b)

pub and-low : (a b : ℕ) → bit_and a b % 2 ≡ min (a % 2) (b % 2)
and-low a b = omega (arith, and_step a b)

-- The lowest digit of an expression over exclusive or and conjunction is that of the same
-- expression over `+` and `*`.
mul-digits : (x y : ℕ) → x < 2 → y < 2 → min x y ≡ x * y
mul-digits zero y p q = omega arith
mul-digits (suc zero) y p q = omega arith
mul-digits (suc (suc x)) y p q = absurd (omega arith)

product_lt : (x y : ℕ) → x < 2 → y < 2 → x * y < 2
product_lt x y p q = omega (arith, mul-digits x y p q)

pub and-low-mul : (a b : ℕ) → bit_and a b % 2 ≡ a % 2 * (b % 2) % 2
and-low-mul a b =
    and-low a b
    ∙ mul-digits (a % 2) (b % 2) (omega arith) (omega arith)
    ∙ sym (mod-eq_of_lt (product_lt (a % 2) (b % 2) (omega arith) (omega arith)))

pub xor-low-add : (a b : ℕ) → bit_xor a b % 2 ≡ (a % 2 + b % 2) % 2
xor-low-add a b = omega (arith, xor-low a b)

pub ruleset low_digit = (xor-low-add, and-low-mul)

-- Halving commutes with both.
pub ruleset halves = (xor-half, and-half)

xor_comm_fuel : (n a b : ℕ) → a ≤ n → b ≤ n → bit_xor a b ≡ bit_xor b a
xor_comm_fuel zero a b p q =
    let e : a ≡ 0 = omega arith in let e' : b ≡ 0 = omega arith in rw (e, e')
xor_comm_fuel (suc n) a b p q =
    omega (
      arith,
      xor_step a b,
      xor_step b a,
      xor_comm_fuel n (a / 2) (b / 2) (omega arith) (omega arith),
    )

pub xor_comm : (a b : ℕ) → bit_xor a b ≡ bit_xor b a
xor_comm a b = xor_comm_fuel (a + b) a b (omega arith) (omega arith)

pub xor-zero : (a : ℕ) → bit_xor a 0 ≡ a
xor-zero a = xor_comm a 0 ∙ bit_xor-bitwise 0 a

xor_self_fuel : (n a : ℕ) → a ≤ n → bit_xor a a ≡ 0
xor_self_fuel zero a p = let e : a ≡ 0 = omega arith in rw e
xor_self_fuel (suc n) a p = omega (arith, xor_step a a, xor_self_fuel n (a / 2) (omega arith))

pub xor_self : (a : ℕ) → bit_xor a a ≡ 0
xor_self a = xor_self_fuel a a (omega arith)

xor_assoc_fuel :
    (n a b c : ℕ) → a ≤ n → b ≤ n → c ≤ n → bit_xor (bit_xor a b) c ≡ bit_xor a (bit_xor b c)
xor_assoc_fuel zero a b c p q r =
    let e : a ≡ 0 = omega arith in
    let e' : b ≡ 0 = omega arith in let e'' : c ≡ 0 = omega arith in rw (e, e', e'')
xor_assoc_fuel (suc n) a b c p q r =
    bits_ext _ _
      (simp xor-half
        (xor_assoc_fuel n (a / 2) (b / 2) (c / 2) (omega arith) (omega arith) (omega arith)))
      (simp low_digit (simp drop_mod (ap (λ (t : ℕ). t % 2) (omega arith))))

pub xor_assoc : (a b c : ℕ) → bit_xor (bit_xor a b) c ≡ bit_xor a (bit_xor b c)
xor_assoc a b c = xor_assoc_fuel (a + b + c) a b c (omega arith) (omega arith) (omega arith)

and_comm_fuel : (n a b : ℕ) → a ≤ n → b ≤ n → bit_and a b ≡ bit_and b a
and_comm_fuel zero a b p q =
    let e : a ≡ 0 = omega arith in let e' : b ≡ 0 = omega arith in rw (e, e')
and_comm_fuel (suc n) a b p q =
    omega (
      arith,
      and_step a b,
      and_step b a,
      and_comm_fuel n (a / 2) (b / 2) (omega arith) (omega arith),
    )

pub and_comm : (a b : ℕ) → bit_and a b ≡ bit_and b a
and_comm a b = and_comm_fuel (a + b) a b (omega arith) (omega arith)

pub and-zero : (a : ℕ) → bit_and a 0 ≡ 0
and-zero a = and_comm a 0 ∙ bit_and-bitwise 0 a

pub and-one : (a : ℕ) → bit_and a 1 ≡ a % 2
and-one a = omega (arith, and_step a 1, and-zero (a / 2))

and-xor_fuel :
    (n a b c : ℕ)
    → a ≤ n
    → b ≤ n
    → c ≤ n
    → bit_and a (bit_xor b c) ≡ bit_xor (bit_and a b) (bit_and a c)
and-xor_fuel zero a b c p q r =
    let e : a ≡ 0 = omega arith in
    let e' : b ≡ 0 = omega arith in let e'' : c ≡ 0 = omega arith in rw (e, e', e'')
and-xor_fuel (suc n) a b c p q r =
    bits_ext _ _
      (simp halves
        (and-xor_fuel n (a / 2) (b / 2) (c / 2) (omega arith) (omega arith) (omega arith)))
      (simp low_digit (simp drop_mod (ap (λ (t : ℕ). t % 2) (omega arith))))

-- Conjunction distributes over exclusive or.
pub and-xor : (a b c : ℕ) → bit_and a (bit_xor b c) ≡ bit_xor (bit_and a b) (bit_and a c)
and-xor a b c = and-xor_fuel (a + b + c) a b c (omega arith) (omega arith) (omega arith)

pub xor-and : (a b c : ℕ) → bit_and (bit_xor a b) c ≡ bit_xor (bit_and a c) (bit_and b c)
xor-and a b c = and_comm (bit_xor a b) c ∙ and-xor c a b ∙ ap₂ bit_xor (and_comm c a) (and_comm c b)

pub xor_lt : (k a b : ℕ) → a < 2 ^ k → b < 2 ^ k → bit_xor a b < 2 ^ k
xor_lt zero a b p q =
    let e : a ≡ 0 = omega arith in let e' : b ≡ 0 = omega arith in rw (e, e') (omega arith)
xor_lt (suc k) a b p q = omega (
  arith,
  pow-suc 2 k,
  xor_step a b,
  xor_lt k (a / 2) (b / 2) (omega (arith, pow-suc 2 k)) (omega (arith, pow-suc 2 k)),
)

-- Flipping `k` bits is subtraction from `2 ^ k - 1`.
pub xor_ones : (k a : ℕ) → a < 2 ^ k → bit_xor a (2 ^ k - 1) ≡ 2 ^ k - 1 - a
xor_ones zero a h = let e : a ≡ 0 = omega arith in rw e
xor_ones (suc k) a h =
    let halved : (2 ^ suc k - 1) / 2 ≡ 2 ^ k - 1 = omega (arith, pow-suc 2 k) in
    xor_step a (2 ^ suc k - 1)
    ∙ rw (halved, xor_ones k (a / 2) (omega (arith, pow-suc 2 k)))
        (omega (arith, pow-suc 2 k, pow-pos k))

-- A remainder by `2 ^ (k + 1)`, digit by digit.
pub mod-pow-suc : (k a : ℕ) → a % 2 ^ suc k ≡ a / 2 % 2 ^ k * 2 + a % 2
mod-pow-suc k a = sym (
    sym (mod-eq_of_lt (omega (arith, pow-suc 2 k, mod-lt (a / 2) (pow-pos k))))
    ∙ mod-eq_of_multiples (2 ^ suc k) (a / 2 / 2 ^ k) 0 (a / 2 % 2 ^ k * 2 + a % 2) a (
        omega
          (arith, ap (λ (t : ℕ). a / 2 / 2 ^ k * t) (pow-suc 2 k), div-add-mod' (a / 2) (2 ^ k))))

-- A mask of `k` ones takes the remainder by `2 ^ k`.
pub and_mask : (k a : ℕ) → bit_and a (2 ^ k - 1) ≡ a % 2 ^ k
and_mask zero a = and-zero a ∙ omega arith
and_mask (suc k) a =
    let halved : (2 ^ suc k - 1) / 2 ≡ 2 ^ k - 1 = omega (arith, pow-suc 2 k) in
    and_step a (2 ^ suc k - 1)
    ∙ rw (halved, and_mask k (a / 2)) (omega (arith, pow-suc 2 k, pow-pos k, mod-pow-suc k a))
