-- ===== src/Base/Mod.antt =====
-- Congruence modulo a number: inner remainders dropped by `simp drop_mod`, and equality of
-- remainders from an equation that states the multiples of the modulus.
use Prim.Native.Nat.{ℕ, ◌+◌, ◌-◌, ◌*◌, ◌/◌, ◌%◌, ◌^◌, ◌<◌}
use mathlib.Core.Path.{◌≡◌, ap, sym, ◌∙◌}
use native.Mathlib.Omega.{arith}
use native.Mathlib.Nat.{
  mod-add-mod, add-mod-mod, add-mul-mod_self_right, mod-mod, mod-lt, div-add-mod', mul_comm,
  one-le-pow,
}

pub mod-eq_of_multiples : (m x y a b : ℕ) → a + x * m ≡ b + y * m → a % m ≡ b % m
mod-eq_of_multiples m x y a b e =
    sym (add-mul-mod_self_right a x m) ∙ ap (λ (t : ℕ). t % m) e ∙ add-mul-mod_self_right b y m

pub mod-mul-mod : (a b m : ℕ) → (a % m * b) % m ≡ (a * b) % m
mod-mul-mod a b m =
    mod-eq_of_multiples m (a / m * b) 0 (a % m * b) (a * b)
      (omega (arith, ap (λ (t : ℕ). t * b) (div-add-mod' a m)))

pub mul-mod-mod : (a b m : ℕ) → (a * (b % m)) % m ≡ (a * b) % m
mul-mod-mod a b m = rw (mul_comm a (b % m), mod-mul-mod b a m, mul_comm b a)

pub add-mul-mod-mod : (x c y m : ℕ) → (x + c * (y % m)) % m ≡ (x + c * y) % m
add-mul-mod-mod x c y m =
    sym (add-mod-mod x (c * (y % m)) m) ∙ rw (mul-mod-mod c y m) (add-mod-mod x (c * y) m)

pub ruleset drop_mod =
    (mod-add-mod, add-mod-mod, mod-mul-mod, mul-mod-mod, add-mul-mod-mod, mod-mod)

pub pow-pos : (k : ℕ) → 0 < 2 ^ k
pow-pos k = omega (arith, one-le-pow k 2)

-- `2 ^ k - 1`, the number that stands for -1.
pub minus_one : ℕ → ℕ
minus_one k = 2 ^ k - 1

pub pow-eq-suc : (k : ℕ) → 2 ^ k ≡ minus_one k + 1
unfolding minus_one
pow-eq-suc k = omega (arith, pow-pos k)

-- Adding the complement is multiplying by -1.
pub complement-mod : (k a b : ℕ) → (a + (2 ^ k - b % 2 ^ k)) % 2 ^ k ≡ (a + minus_one k * b) % 2 ^ k
complement-mod k a b =
    mod-eq_of_multiples (2 ^ k) b (b / 2 ^ k + 1) (a + (2 ^ k - b % 2 ^ k)) (a + minus_one k * b) (
      omega
        (arith, ap (λ (t : ℕ). b * t) (pow-eq-suc k), div-add-mod' b (2 ^ k), mod-lt b (pow-pos k)))
