-- ===== src/Galois/Laws.antt =====
-- The Galois ring of ampc-secret-sharing/src/galois.rs is a commutative ring.
use ampc_common.Base.{ℕ, ◌+◌, ◌*◌, ◌%◌, ◌^◌, ◌<◌, ◌≡◌, refl, ap, ap₂, sym, ◌∙◌, arith}
use ampc_common.Ring
use ampc_common.Ring.{IsElem}
use ampc_common.Base.Mod.{drop_mod}
use ampc_common.Galois.{GaloisRingElement, ◌⊕◌, ◌⊗◌, add, sub, neg, mul, one, zero_element}

pub ⊕_def : (a b : ℕ) → a ⊕ b ≡ (a + b) % 2 ^ 16
unfolding ◌⊕◌ Ring.add
⊕_def a b = refl

pub ⊗_def : (a b : ℕ) → a ⊗ b ≡ a * b % 2 ^ 16
unfolding ◌⊗◌ Ring.mul
⊗_def a b = refl

pub ruleset u16_mod = (⊕_def, ⊗_def, drop_mod)

-- Two elements are equal when their coefficients are.
abbrev pub SameCoefs : GaloisRingElement → GaloisRingElement → Type 0
SameCoefs x y = (x.c0 ≡ y.c0) × (x.c1 ≡ y.c1) × (x.c2 ≡ y.c2) × (x.c3 ≡ y.c3)

pub element_ext : {x y : GaloisRingElement} → SameCoefs x y → x ≡ y
element_ext p = λ i. record { c0 = p.0 i; c1 = p.1 i; c2 = p.2 i; c3 = p.3 i }

pub mul_comm : (x y : GaloisRingElement) → mul x y ≡ mul y x
unfolding mul
mul_comm x y = element_ext (simp u16_mod (omega arith))

pub mul-add : (x y z : GaloisRingElement) → mul x (add y z) ≡ add (mul x y) (mul x z)
unfolding mul add
mul-add x y z = element_ext (simp u16_mod (omega arith))

pub mul_assoc : (x y z : GaloisRingElement) → mul (mul x y) z ≡ mul x (mul y z)
unfolding mul
mul_assoc x y z = element_ext (simp u16_mod (omega arith))

-- The coefficients are values of 16 bits.
pub record IsReduced (x : GaloisRingElement) : Type 0 where
  pub fits0 : x.c0 < 2 ^ 16
  pub fits1 : x.c1 < 2 ^ 16
  pub fits2 : x.c2 < 2 ^ 16
  pub fits3 : x.c3 < 2 ^ 16

pub mul-one : (x : GaloisRingElement) → IsReduced x → mul x one ≡ x
unfolding mul
mul-one x h = element_ext (simp u16_mod (omega arith))

pub add-IsReduced : (x y : GaloisRingElement) → IsReduced (add x y)
unfolding add
add-IsReduced x y = simp u16_mod (omega arith)

pub mul-IsReduced : (x y : GaloisRingElement) → IsReduced (mul x y)
unfolding mul
mul-IsReduced x y = record {
  fits0 = simp u16_mod (omega arith);
  fits1 = simp u16_mod (omega arith);
  fits2 = simp u16_mod (omega arith);
  fits3 = simp u16_mod (omega arith);
}

-- A factor one between two others drops out, also where the first is not reduced.
pub mul-one-mul : (x y : GaloisRingElement) → mul (mul x one) y ≡ mul x y
unfolding mul
mul-one-mul x y = element_ext (simp u16_mod (omega arith))

pub add_assoc : (x y z : GaloisRingElement) → add (add x y) z ≡ add x (add y z)
unfolding add
add_assoc x y z = element_ext (simp u16_mod (omega arith))

pub add_comm : (x y : GaloisRingElement) → add x y ≡ add y x
unfolding add
add_comm x y = element_ext (simp u16_mod (omega arith))

pub add-mul : (x y z : GaloisRingElement) → mul (add x y) z ≡ add (mul x z) (mul y z)
add-mul x y z = mul_comm (add x y) z ∙ mul-add z x y ∙ ap₂ add (mul_comm z x) (mul_comm z y)

pub mul_swap_right : (x y z : GaloisRingElement) → mul (mul x y) z ≡ mul (mul x z) y
mul_swap_right x y z = mul_assoc x y z ∙ ap (mul x) (mul_comm y z) ∙ sym (mul_assoc x z y)

pub mul_interchange :
    (x y z w : GaloisRingElement) → mul (mul x y) (mul z w) ≡ mul (mul x z) (mul y w)
mul_interchange x y z w =
    mul_assoc x y (mul z w)
    ∙ ap (mul x) (sym (mul_assoc y z w) ∙ ap (λ t. mul t w) (mul_comm y z) ∙ mul_assoc z y w)
    ∙ sym (mul_assoc x z (mul y w))

-- The product of two linear polynomials in `z`.
pub linear_product :
    (x r y q z : GaloisRingElement)
    → mul (add x (mul r z)) (add y (mul q z))
      ≡ add (add (mul x y) (mul (add (mul r y) (mul x q)) z)) (mul (mul r q) (mul z z))
linear_product x r y q z =
    mul-add (add x (mul r z)) y (mul q z)
    ∙ ap₂ add (add-mul x (mul r z) y) (add-mul x (mul r z) (mul q z))
    ∙ add_assoc (mul x y) (mul (mul r z) y) (add (mul x (mul q z)) (mul (mul r z) (mul q z)))
    ∙ ap (add (mul x y))
        (sym (add_assoc (mul (mul r z) y) (mul x (mul q z)) (mul (mul r z) (mul q z))))
    ∙ sym (add_assoc (mul x y) (add (mul (mul r z) y) (mul x (mul q z))) (mul (mul r z) (mul q z)))
    ∙ ap₂ (λ b c. add (add (mul x y) b) c)
        (ap₂ add (mul_swap_right r z y) (sym (mul_assoc x q z))
          ∙ sym (add-mul (mul r y) (mul x q) z))
        (mul_interchange r z q z)

pub add-zero : (x : GaloisRingElement) → IsReduced x → add x zero_element ≡ x
unfolding add
add-zero x h = element_ext (simp u16_mod (omega arith))

add-neg : (x : GaloisRingElement) → add x (neg x) ≡ zero_element
unfolding add neg ◌⊕◌
add-neg x = element_ext (
  Ring.Laws.add-neg 16 x.c0,
  Ring.Laws.add-neg 16 x.c1,
  Ring.Laws.add-neg 16 x.c2,
  Ring.Laws.add-neg 16 x.c3,
)

sub-add : (x y : GaloisRingElement) → IsReduced x → add (sub x y) y ≡ x
unfolding add sub ◌⊕◌
sub-add x y h = element_ext (
  Ring.Laws.sub-add 16 x.c0 y.c0 h.fits0,
  Ring.Laws.sub-add 16 x.c1 y.c1 h.fits1,
  Ring.Laws.sub-add 16 x.c2 y.c2 h.fits2,
  Ring.Laws.sub-add 16 x.c3 y.c3 h.fits3,
)

-- On elements with 16-bit coefficients, addition and multiplication modulo x^4 - x - 1 obey the
-- laws of a commutative ring with 1.
pub galois_laws :
    (x y z : GaloisRingElement)
    → IsReduced x
    → (add x y ≡ add y x)
      × (add (add x y) z ≡ add x (add y z))
      × (add x zero_element ≡ x)
      × (add x (neg x) ≡ zero_element)
      × (add (sub x y) y ≡ x)
      × (mul x y ≡ mul y x)
      × (mul (mul x y) z ≡ mul x (mul y z))
      × (mul x one ≡ x)
      × (mul x (add y z) ≡ add (mul x y) (mul x z))
galois_laws x y z h = (
  add_comm x y,
  add_assoc x y z,
  add-zero x h,
  add-neg x,
  sub-add x y h,
  mul_comm x y,
  mul_assoc x y z,
  mul-one x h,
  mul-add x y z,
)
