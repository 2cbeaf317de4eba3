-- ===== src/Galois.antt =====
-- ampc-secret-sharing/src/galois.rs: the Galois ring of degree 4 over the 16-bit integers, modulo
-- x^4 - x - 1. An element has its coefficients in one of three bases; the basis is a phantom type
-- in the source, and here the name of the function says which basis it takes and gives.
pub mod Laws
pub mod Power
pub mod Basis
mod Tests
use ampc_common.Base.{
  ℕ, zero, suc, ◌+◌, ◌-◌, ◌*◌, ◌/◌, ◌%◌, ◌^◌, ◌==◌, ltb, ◌&&◌, if◌then◌else◌, List, [], ◌∷◌, Option,
  none, some, map, length,
}
use ampc_common.Ring

-- `wrapping_add` and `wrapping_mul` of `u16`.
infixl 65 ◌⊕◌
infixl 70 ◌⊗◌
unfoldable pub ◌⊕◌ : ℕ → ℕ → ℕ
a ⊕ b = Ring.add 16 a b

unfoldable pub ◌⊗◌ : ℕ → ℕ → ℕ
a ⊗ b = Ring.mul 16 a b

pub record GaloisRingElement : Type 0 where
  pub c0 : ℕ
  pub c1 : ℕ
  pub c2 : ℕ
  pub c3 : ℕ

abbrev pub from_coefs : ℕ → ℕ → ℕ → ℕ → GaloisRingElement
from_coefs c0 c1 c2 c3 = record { c0 = c0; c1 = c1; c2 = c2; c3 = c3 }

abbrev pub zero_element : GaloisRingElement
zero_element = from_coefs 0 0 0 0

abbrev pub one : GaloisRingElement
one = from_coefs 1 0 0 0

-- Indices from 16 on are out of bounds, a panic of the source.
abbrev pub exceptional_sequence : List GaloisRingElement
exceptional_sequence =
    from_coefs 0 0 0 0
    ∷ from_coefs 1 0 0 0
    ∷ from_coefs 0 1 0 0
    ∷ from_coefs 1 1 0 0
    ∷ from_coefs 0 0 1 0
    ∷ from_coefs 1 0 1 0
    ∷ from_coefs 0 1 1 0
    ∷ from_coefs 1 1 1 0
    ∷ from_coefs 0 0 0 1
    ∷ from_coefs 1 0 0 1
    ∷ from_coefs 0 1 0 1
    ∷ from_coefs 1 1 0 1
    ∷ from_coefs 0 0 1 1
    ∷ from_coefs 1 0 1 1
    ∷ from_coefs 0 1 1 1
    ∷ from_coefs 1 1 1 1
    ∷ []

unfoldable pub add : GaloisRingElement → GaloisRingElement → GaloisRingElement
add x y = from_coefs (x.c0 ⊕ y.c0) (x.c1 ⊕ y.c1) (x.c2 ⊕ y.c2) (x.c3 ⊕ y.c3)

unfoldable pub sub : GaloisRingElement → GaloisRingElement → GaloisRingElement
sub x y =
    from_coefs (Ring.sub 16 x.c0 y.c0) (Ring.sub 16 x.c1 y.c1) (Ring.sub 16 x.c2 y.c2)
      (Ring.sub 16 x.c3 y.c3)

unfoldable pub neg : GaloisRingElement → GaloisRingElement
neg x = from_coefs (Ring.neg 16 x.c0) (Ring.neg 16 x.c1) (Ring.neg 16 x.c2) (Ring.neg 16 x.c3)

-- The product in the monomial basis.
unfoldable pub mul : GaloisRingElement → GaloisRingElement → GaloisRingElement
mul x y =
    from_coefs (x.c0 ⊗ y.c0 ⊕ x.c1 ⊗ y.c3 ⊕ x.c2 ⊗ y.c2 ⊕ x.c3 ⊗ y.c1)
      (x.c0 ⊗ y.c1
        ⊕ x.c1 ⊗ y.c0
        ⊕ x.c1 ⊗ y.c3
        ⊕ x.c2 ⊗ y.c2
        ⊕ x.c3 ⊗ y.c1
        ⊕ x.c2 ⊗ y.c3
        ⊕ x.c3 ⊗ y.c2)
      (x.c0 ⊗ y.c2 ⊕ x.c1 ⊗ y.c1 ⊕ x.c2 ⊗ y.c0 ⊕ x.c2 ⊗ y.c3 ⊕ x.c3 ⊗ y.c2 ⊕ x.c3 ⊗ y.c3)
      (x.c0 ⊗ y.c3 ⊕ x.c1 ⊗ y.c2 ⊕ x.c2 ⊗ y.c1 ⊕ x.c3 ⊗ y.c0 ⊕ x.c3 ⊗ y.c3)

-- `to_basis_A`, by the matrix S^-1.
unfoldable pub to_basis_a : GaloisRingElement → GaloisRingElement
to_basis_a x =
    from_coefs x.c0 (x.c1 ⊕ x.c0 ⊗ 7454) (x.c2 ⊕ x.c0 ⊗ 35057 ⊕ x.c1 ⊗ 40342)
      (x.c3 ⊕ x.c0 ⊗ 37176 ⊕ x.c1 ⊗ 61738 ⊕ x.c2 ⊗ 8525)

-- `to_basis_B`, by the matrix (S * S)^-1 of its comment.
unfoldable pub to_basis_b : GaloisRingElement → GaloisRingElement
to_basis_b x =
    from_coefs (x.c0 ⊗ 16038 ⊕ x.c1 ⊗ 45700 ⊕ x.c2 ⊗ 28361 ⊕ x.c3 ⊗ 37176)
      (x.c0 ⊗ 45700 ⊕ x.c1 ⊗ 28361 ⊕ x.c2 ⊗ 37176 ⊕ x.c3 ⊗ 61738)
      (x.c0 ⊗ 28361 ⊕ x.c1 ⊗ 37176 ⊕ x.c2 ⊗ 61738 ⊕ x.c3 ⊗ 8525)
      (x.c0 ⊗ 37176 ⊕ x.c1 ⊗ 61738 ⊕ x.c2 ⊗ 8525 ⊕ x.c3 ⊗ 1)

-- `to_monomial` of an element in basis A, by the matrix S.
unfoldable pub to_monomial : GaloisRingElement → GaloisRingElement
to_monomial x =
    from_coefs x.c0 (x.c1 ⊕ x.c0 ⊗ 58082) (x.c2 ⊕ x.c0 ⊗ 60579 ⊕ x.c1 ⊗ 25194)
      (x.c3 ⊕ x.c0 ⊗ 17325 ⊕ x.c1 ⊗ 51956 ⊕ x.c2 ⊗ 57011)

-- `chunks_exact(4)` and the map of `encode1` and `encode2` on a slice whose length is a multiple
-- of four.
encode1_chunks : List ℕ → List GaloisRingElement
encode1_chunks (a ∷ b ∷ c ∷ d ∷ rest) = from_coefs a d c b ∷ encode1_chunks rest
encode1_chunks _ = []

encode2_chunks : List ℕ → List GaloisRingElement
encode2_chunks (a ∷ b ∷ c ∷ d ∷ rest) = from_coefs a b c d ∷ encode2_chunks rest
encode2_chunks _ = []

unfoldable pub encode1 : List ℕ → Option (List GaloisRingElement)
unfolding encode1_chunks
encode1 x = if length x % 4 == 0 then some (encode1_chunks x) else none

unfoldable pub encode2 : List ℕ → Option (List GaloisRingElement)
unfolding encode2_chunks
encode2 x = if length x % 4 == 0 then some (encode2_chunks x) else none

-- The loop of `pow`, `while exp > 1`, with fuel for its rounds.
unfoldable pub pow_loop : ℕ → ℕ → GaloisRingElement → GaloisRingElement → Option GaloisRingElement
pow_loop zero exp x y = none
pow_loop (suc fuel) exp x y =
    let odd = pow_loop fuel ((exp - 1) / 2) (mul x x) (mul x y) in
    let even = pow_loop fuel (exp / 2) (mul x x) y in
    if ltb 1 exp then if exp % 2 == 1 then odd else even else some (mul x y)

-- 32 rounds are more than a `u32` exponent takes.
unfoldable pub pow : GaloisRingElement → ℕ → Option GaloisRingElement
pow x exp = if exp == 0 then some one else pow_loop 32 exp x one

-- `none` is the panic on an element whose coefficients are all even.
unfoldable pub inverse : GaloisRingElement → Option GaloisRingElement
inverse x =
    if x.c0 % 2 == 0 && (x.c1 % 2 == 0 && (x.c2 % 2 == 0 && x.c3 % 2 == 0))
    then none
    else pow x ((2 ^ 4 - 1) * 2 ^ (16 - 1) - 1)
