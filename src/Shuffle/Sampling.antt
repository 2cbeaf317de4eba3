-- ===== src/Shuffle/Sampling.antt =====
-- The rejection sampling of `gen_u32_mod`.
use ampc_common.Base.{
  ℕ, zero, suc, ◌+◌, ◌*◌, ◌/◌, ◌%◌, ◌≤◌, ◌<◌, ◌≡◌, ap, ◌∙◌, arith, some, leb, false, ◌⊎◌, inl, inr,
  ◌==◌, Bool-cases, if◌then◌else◌, dec_lt, ◌-◌,
}
use native.Mathlib.Nat.{mod-lt, div-add-mod', mul-mod_left, mod-eq_of_lt}
use ampc_common.Shuffle.{u64_max, rejection_bound, sample, gen_u32_mod}

mod_of_multiple : (q m n : ℕ) → n ≡ q * m → n % m ≡ 0
mod_of_multiple q m n e = ap (λ (t : ℕ). t % m) e ∙ mul-mod_left q m

bound_lem :
    (u m : ℕ)
    → 0 < m
    → m ≤ u
    → ((u - (u % m + 1) % m + 1) % m ≡ 0)
      × (u - (u % m + 1) % m ≤ u)
      × (u < u - (u % m + 1) % m + m)
bound_lem u m pos h =
    let small = mod-lt u pos in
    let parts = div-add-mod' u m in
    let less = mod-lt (u % m + 1) pos in
    elim (dec_lt (u % m + 1) m) [
      | yes fits ↦
          let c = mod-eq_of_lt fits in
          (
            mod_of_multiple (u / m) m (u - (u % m + 1) % m + 1) (omega arith),
            omega arith,
            omega arith,
          )
      | no wraps ↦
          let full : u % m + 1 ≡ m = omega arith in
          let c : (u % m + 1) % m ≡ 0 = mod_of_multiple 1 m (u % m + 1) (omega arith) in
          (
            mod_of_multiple (u / m + 1) m (u - (u % m + 1) % m + 1) (omega arith),
            omega arith,
            omega arith,
          )
    ]

-- For a modulus that is not zero and below `2 ^ 64`, the accepted draws are a whole number of
-- rounds over the modulus, so that every remainder is as likely as any other; the bound is a `u64`,
-- and fewer draws than the modulus are rejected.
pub rejection_bound_unbiased :
    (m : ℕ)
    → 0 < m
    → m ≤ u64_max
    → ((rejection_bound m + 1) % m ≡ 0)
      × (rejection_bound m ≤ u64_max)
      × (u64_max < rejection_bound m + m)
unfolding rejection_bound
rejection_bound_unbiased m pos h = bound_lem u64_max m pos h

-- One of `fuel` draws is accepted.
abbrev pub IsAccepted : {Rng : Type 0} → (Rng → ℕ × Rng) → ℕ → ℕ → Rng → Type 0
IsAccepted gen zero modulus rng = ⊥
IsAccepted gen (suc fuel) modulus rng =
    ((gen rng).0 ≤ rejection_bound modulus) ⊎ IsAccepted gen fuel modulus (gen rng).1

sample-lt :
    {Rng : Type 0} (gen : Rng → ℕ × Rng) (fuel m : ℕ) (rng : Rng)
    → 0 < m
    → IsAccepted gen fuel m rng
    → (j : ℕ × Rng) × (sample gen fuel m rng ≡ some j) × (j.0 < m)
unfolding sample
sample-lt gen zero m rng pos h = absurd h
sample-lt gen (suc fuel) m rng pos h = elim (Bool-cases (leb (gen rng).0 (rejection_bound m))) [
  | inl e ↦ (
    ((gen rng).0 % m, (gen rng).1),
    ap (λ b. if b then some ((gen rng).0 % m, (gen rng).1) else sample gen fuel m (gen rng).1) e,
    mod-lt (gen rng).0 pos,
  )
  | inr e ↦ elim h [
    | inl le ↦ absurd (ground arith)
    | inr next ↦
        let found = sample-lt gen fuel m (gen rng).1 pos next in
        (
          found.0,
          ap (λ b. if b then some ((gen rng).0 % m, (gen rng).1) else sample gen fuel m (gen rng).1)
                e
              ∙ found.1,
          found.2,
        )
  ]
]

-- When the modulus is not zero and one of `fuel` draws is accepted, `gen_u32_mod` returns, with a
-- number below the modulus.
pub gen_u32_mod-lt :
    {Rng : Type 0} (gen : Rng → ℕ × Rng) (fuel m : ℕ) (rng : Rng)
    → 0 < m
    → IsAccepted gen fuel m rng
    → (j : ℕ × Rng) × (gen_u32_mod gen fuel m rng ≡ some j) × (j.0 < m)
unfolding gen_u32_mod
gen_u32_mod-lt gen fuel m rng pos h =
    let nonzero : (m == 0) ≡ false = ground arith in rw nonzero (sample-lt gen fuel m rng pos h)
