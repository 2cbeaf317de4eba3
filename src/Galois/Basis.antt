-- ===== src/Galois/Basis.antt =====
-- The changes of basis of ampc-secret-sharing/src/galois.rs, and how products of encoded elements
-- compute inner products.
use ampc_common.Base.{ℕ, ◌%◌, ◌≡◌, refl, arith, List, [], ◌∷◌, some, length}
use ampc_common.Galois.{
  GaloisRingElement, to_basis_a, to_basis_b, to_monomial, mul, ◌⊕◌, ◌⊗◌, encode1, encode2,
  encode1_chunks, encode2_chunks,
}
use ampc_common.Galois.Laws.{u16_mod, element_ext, IsReduced}

-- The inner product of two coefficient vectors, modulo 2 ^ 16.
abbrev pub dot : GaloisRingElement → GaloisRingElement → ℕ
dot x y = x.c0 ⊗ y.c0 ⊕ x.c1 ⊗ y.c1 ⊕ x.c2 ⊗ y.c2 ⊕ x.c3 ⊗ y.c3

-- The change from the monomial basis to basis A and the one back are inverse to each other, on
-- elements whose coefficients are 16-bit values.
pub to_monomial-to_basis_a :
    (x : GaloisRingElement)
    → IsReduced x
    → (to_monomial (to_basis_a x) ≡ x) × (to_basis_a (to_monomial x) ≡ x)
unfolding to_monomial to_basis_a
to_monomial-to_basis_a x h =
    (element_ext (simp u16_mod (omega arith)), element_ext (simp u16_mod (omega arith)))

-- For elements `x` and `y` in basis A, the inner product of their coefficients is the first basis B
-- coefficient of their product, and also the inner product of the basis B coefficients of `x` and
-- the monomial coefficients of `y`.
pub dot-basis_b :
    (x y : GaloisRingElement)
    → ((to_basis_b (mul (to_monomial x) (to_monomial y))).c0 ≡ dot x y)
      × (dot (to_basis_b (to_monomial x)) (to_monomial y) ≡ dot x y)
unfolding to_basis_b mul to_monomial
dot-basis_b x y = (simp u16_mod (omega arith), simp u16_mod (omega arith))

-- The inner product of two vectors, modulo 2 ^ 16.
abbrev pub inner : List ℕ → List ℕ → ℕ
inner (x ∷ xs) (y ∷ ys) = x ⊗ y ⊕ inner xs ys
inner _ _ = 0

-- The sum of the constant coefficients of the products, element by element.
abbrev pub constant_sum : List GaloisRingElement → List GaloisRingElement → ℕ
constant_sum (x ∷ xs) (y ∷ ys) = (mul x y).c0 ⊕ constant_sum xs ys
constant_sum _ _ = 0

chunks_inner :
    (x y : List ℕ)
    → length x ≡ length y
    → length x % 4 ≡ 0
    → constant_sum (encode1_chunks x) (encode2_chunks y) ≡ inner x y
unfolding encode1_chunks encode2_chunks mul
chunks_inner [] y e h = refl
chunks_inner (a ∷ []) y e h = absurd (omega arith)
chunks_inner (a ∷ b ∷ []) y e h = absurd (omega arith)
chunks_inner (a ∷ b ∷ c ∷ []) y e h = absurd (omega arith)
chunks_inner (a ∷ b ∷ c ∷ d ∷ x) [] e h = absurd (omega arith)
chunks_inner (a ∷ b ∷ c ∷ d ∷ x) (a' ∷ []) e h = absurd (omega arith)
chunks_inner (a ∷ b ∷ c ∷ d ∷ x) (a' ∷ b' ∷ []) e h = absurd (omega arith)
chunks_inner (a ∷ b ∷ c ∷ d ∷ x) (a' ∷ b' ∷ c' ∷ []) e h = absurd (omega arith)
chunks_inner (a ∷ b ∷ c ∷ d ∷ x) (a' ∷ b' ∷ c' ∷ d' ∷ y) e h =
    rw (chunks_inner x y (omega arith) (omega arith)) (simp u16_mod (omega arith))

-- For two vectors of one length that is a multiple of four, both encodings succeed, and the
-- constant coefficients of the products of their elements add up to the inner product.
pub encode_inner :
    (x y : List ℕ)
    → length x ≡ length y
    → length x % 4 ≡ 0
    → (ex : List GaloisRingElement) × (ey : List GaloisRingElement) × (encode1 x ≡ some ex)
      × (encode2 y ≡ some ey)
      × (constant_sum ex ey ≡ inner x y)
unfolding encode1 encode2
encode_inner x y e h =
    (encode1_chunks x, encode2_chunks y, ground arith, ground arith, chunks_inner x y e h)
