-- ===== src/Shuffle.antt =====
-- ampc-actor-utils/src/protocol/prf.rs: the random permutations of the shuffle. `gen` draws a `u64`
-- of the generator. The rejection loop has fuel for the draws: `none` is the error of a modulus
-- that is zero, an index out of bounds, or as many rejected draws as there is fuel.
pub mod Sampling
pub mod Permutations
pub mod Triplets
pub mod Rounds
pub mod Shared
pub mod Result
pub mod Parties
mod Tests
use ampc_common.Base.{
  ℕ, zero, suc, ◌+◌, ◌-◌, ◌%◌, ◌==◌, leb, not, Option, none, some, List, [], ◌∷◌, get_elem?,
  if◌then◌else◌,
}
use ampc_common.Base.Options.{◌>>=◌, ◌>>◌, assert}
use ampc_common.Protocol.{Prf}

-- `u64::MAX`.
abbrev pub u64_max : ℕ
u64_max = 18446744073709551615

unfoldable pub rejection_bound : ℕ → ℕ
rejection_bound modulus = u64_max - (u64_max % modulus + 1) % modulus

-- `perm.swap(i, j)`; `none` is an index out of bounds.
unfoldable pub set : List ℕ → ℕ → ℕ → List ℕ
set [] i y = []
set (x ∷ xs) zero y = y ∷ xs
set (x ∷ xs) (suc i) y = x ∷ set xs i y

unfoldable pub swap : List ℕ → ℕ → ℕ → Option (List ℕ)
swap xs i j = do x ← get_elem? xs i; y ← get_elem? xs j; some (set (set xs i y) j x)

-- `n` numbers from `i` on; `(0..size).collect()` is `range 0 size`.
unfoldable pub range : ℕ → ℕ → List ℕ
range i zero = []
range i (suc n) = i ∷ range (i + 1) n

module _ {Rng : Type 0} (gen : Rng → ℕ × Rng) where
  -- The loop of `gen_u32_mod`.
  unfoldable pub sample : ℕ → ℕ → Rng → Option (ℕ × Rng)
  sample zero modulus rng = none
  sample (suc fuel) modulus rng =
      let drawn = gen rng in
      let rest = sample fuel modulus drawn.1 in
      if leb drawn.0 (rejection_bound modulus) then some (drawn.0 % modulus, drawn.1) else rest

  unfoldable pub gen_u32_mod : ℕ → ℕ → Rng → Option (ℕ × Rng)
  gen_u32_mod fuel modulus rng = do assert (not (modulus == 0)); sample fuel modulus rng

  -- `Prf::gen_u32_mod`.
  unfoldable pub gen_u32_mod_both : ℕ → ℕ → Prf Rng → Option ((ℕ × ℕ) × Prf Rng)
  gen_u32_mod_both fuel modulus prf = do
    a ← gen_u32_mod fuel modulus prf.my_prf
    b ← gen_u32_mod fuel modulus prf.prev_prf
    some ((a.0, b.0), record { my_prf = a.1; prev_prf = b.1 })

  -- The loop of `gen_permutation`, `n` rounds from the index `i` on.
  unfoldable pub permute :
      ℕ → ℕ → ℕ → (perm_a perm_b : List ℕ) → Prf Rng → Option ((List ℕ × List ℕ) × Prf Rng)
  permute fuel zero i perm_a perm_b prf = some ((perm_a, perm_b), prf)
  permute fuel (suc n) i perm_a perm_b prf = do
    j ← gen_u32_mod_both fuel (i + 1) prf
    swapped_a ← swap perm_a i j.0.0
    swapped_b ← swap perm_b i j.0.1
    permute fuel n (i + 1) swapped_a swapped_b j.1

  unfoldable pub gen_permutation : ℕ → ℕ → Prf Rng → Option ((List ℕ × List ℕ) × Prf Rng)
  gen_permutation fuel size prf = permute fuel (size - 1) 1 (range 0 size) (range 0 size) prf
