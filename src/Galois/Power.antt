-- ===== src/Galois/Power.antt =====
-- `pow` and `inverse` of ampc-secret-sharing/src/galois.rs.
use ampc_common.Base.{
  ℕ, zero, suc, ◌+◌, ◌-◌, ◌/◌, ◌%◌, ◌^◌, ◌<◌, ◌≡◌, refl, ap, sym, ◌∙◌, arith, some, ◌==◌, ltb,
  Bool-cases, inl, inr, false,
}
use native.Mathlib.Nat.{pow-suc}
use ampc_common.Galois.{GaloisRingElement, mul, one, pow, pow_loop}
use ampc_common.Galois.Laws.{mul_comm, mul_assoc, mul-one, mul-one-mul, mul-IsReduced}

-- The product of `n` copies of `x`.
abbrev pub power : GaloisRingElement → ℕ → GaloisRingElement
power x zero = one
power x (suc n) = mul x (power x n)

-- Squaring the base doubles the exponent.
power-square : (x : GaloisRingElement) (n : ℕ) → power (mul x x) n ≡ power x (n + n)
power-square x zero = refl
power-square x (suc n) = rw (power-square x n) (
    let e : suc n + suc n ≡ suc (suc (n + n)) = omega arith in
    rw e (mul_assoc x x (power x (n + n))))

power_one : (x y : GaloisRingElement) → mul (power x 1) y ≡ mul x y
power_one x y = mul-one-mul x y

odd_round :
    (x y : GaloisRingElement) (m exp : ℕ)
    → exp ≡ suc (m + m)
    → mul (power (mul x x) m) (mul x y) ≡ mul (power x exp) y
odd_round x y m exp e =
    rw (e, power-square x m)
      (sym (mul_assoc (power x (m + m)) x y) ∙ ap (λ t. mul t y) (mul_comm (power x (m + m)) x))

even_round :
    (x y : GaloisRingElement) (m exp : ℕ)
    → exp ≡ m + m
    → mul (power (mul x x) m) y ≡ mul (power x exp) y
even_round x y m exp e = rw (e, power-square x m)

-- With fuel for the binary digits of the exponent the loop returns `x ^ exp * y`.
pub pow_loop_lem :
    (fuel exp : ℕ) (x y : GaloisRingElement)
    → 0 < exp
    → exp < 2 ^ fuel
    → pow_loop fuel exp x y ≡ some (mul (power x exp) y)
unfolding pow_loop
pow_loop_lem zero exp x y p h = absurd (omega arith)
pow_loop_lem (suc fuel) exp x y p h = elim (Bool-cases (ltb 1 exp)) [
  | inr last ↦ let e : exp ≡ 1 = ground arith in rw (last, e) (ap some (sym (power_one x y)))
  | inl more ↦ elim (Bool-cases (exp % 2 == 1)) [
    | inl odd ↦
        rw (more, odd)
          (pow_loop_lem fuel ((exp - 1) / 2) (mul x x) (mul x y) (ground arith)
              (omega (arith, pow-suc 2 fuel))
            ∙ ap some (odd_round x y ((exp - 1) / 2) exp (ground arith)))
    | inr even ↦
        rw (more, even)
          (pow_loop_lem fuel (exp / 2) (mul x x) y (ground arith) (omega (arith, pow-suc 2 fuel))
            ∙ ap some (even_round x y (exp / 2) exp (ground arith)))
  ]
]

positive : (n : ℕ) → (suc n == 0) ≡ false
positive n = ground arith

-- `pow` returns for every 32-bit exponent, and returns the product of that many copies.
pub pow-power : (x : GaloisRingElement) (exp : ℕ) → exp < 2 ^ 32 → pow x exp ≡ some (power x exp)
unfolding pow
pow-power x zero h = refl
pow-power x (suc n) h = rw (positive n) (
    pow_loop_lem 32 (suc n) x one (omega arith) h
    ∙ ap some (mul-one (power x (suc n)) (mul-IsReduced x (power x n))))
