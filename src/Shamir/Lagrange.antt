-- ===== src/Shamir/Lagrange.antt =====
-- The Lagrange coefficients that the code computes at its exceptional points.

use ampc_common.Base.{
  ℕ, every_below, every_below-true, ◌<◌, ◌≡◌, ◌≢◌, refl, arith, List, [], ◌∷◌, Option, none, some,
  Bool, true, false, ◌==◌, ◌&&◌, ◌||◌, get_elem?,
}
use ampc_common.Base.Options.{◌>>=◌}
use ampc_common.Galois
use ampc_common.Galois.{GaloisRingElement, from_coefs, exceptional_sequence, inverse, ◌⊕◌, ◌⊗◌}
use ampc_common.Ring
use ampc_common.Shamir.{deg_k_lagrange_polys_at_zero}

abbrev pub weights_2 : List GaloisRingElement
weights_2 = from_coefs 1 2 2 2 ∷ from_coefs 65535 65534 65534 65534 ∷ from_coefs 1 0 0 0 ∷ []

abbrev pub weights_4 : List GaloisRingElement
weights_4 =
    from_coefs 7 12 10 8
    ∷ from_coefs 37435 28061 9341 46794
    ∷ from_coefs 65535 65531 65533 65532
    ∷ from_coefs 8 17 13 12
    ∷ from_coefs 28088 37451 56175 18726
    ∷ []

pub deg_2_lem : deg_k_lagrange_polys_at_zero 3 ≡ some weights_2
unfolding deg_k_lagrange_polys_at_zero Galois.inverse Galois.pow Galois.pow_loop Galois.mul
    Galois.sub Galois.neg ◌⊕◌ ◌⊗◌ Ring.add Ring.mul Ring.sub Ring.neg
deg_2_lem = refl

pub deg_4_lem : deg_k_lagrange_polys_at_zero 5 ≡ some weights_4
unfolding deg_k_lagrange_polys_at_zero Galois.inverse Galois.pow Galois.pow_loop Galois.mul
    Galois.sub Galois.neg ◌⊕◌ ◌⊗◌ Ring.add Ring.mul Ring.sub Ring.neg
deg_4_lem = refl

-- Is the difference of the points `i` and `j` inverted by `inverse`?
pub inverts : ℕ → ℕ → Option GaloisRingElement
inverts i j = do
  ei ← get_elem? exceptional_sequence i
  ej ← get_elem? exceptional_sequence j
  inv ← inverse (Galois.sub ei ej)
  some (Galois.mul inv (Galois.sub ei ej))

is_one : Option GaloisRingElement → Bool
is_one none = false
is_one (some x) = x.c0 == 1 && (x.c1 == 0 && (x.c2 == 0 && x.c3 == 0))

is_one-eq_some : (o : Option GaloisRingElement) → is_one o ≡ true → o ≡ some Galois.one
unfolding is_one
is_one-eq_some none h = cc
is_one-eq_some (some x) h = ground arith

pair_ok : ℕ → ℕ → Bool
pair_ok i j = i == j || is_one (inverts i j)

pairs_ok : every_below (λ i. every_below (pair_ok i) 16) 16 ≡ true
unfolding every_below pair_ok is_one inverts Galois.inverse Galois.pow Galois.pow_loop Galois.mul
    Galois.sub Galois.neg ◌⊕◌ ◌⊗◌ Ring.add Ring.mul Ring.sub Ring.neg
pairs_ok = refl

pair_ok-eq_some : (i j : ℕ) → i ≢ j → pair_ok i j ≡ true → inverts i j ≡ some Galois.one
unfolding pair_ok
pair_ok-eq_some i j ne h = is_one-eq_some (inverts i j) (ground arith)

-- The difference of two distinct exceptional points has an inverse, and `inverse` finds it.
pub exceptional_difference : (i j : ℕ) → i < 16 → j < 16 → i ≢ j → inverts i j ≡ some Galois.one
exceptional_difference i j hi hj ne = pair_ok-eq_some i j ne (
    every_below-true (pair_ok i) 16 j hj
      (every_below-true (λ i. every_below (pair_ok i) 16) 16 i hi pairs_ok))
