-- ===== src/Shamir/Poly.antt =====
-- Polynomials over the Galois ring, and weighted sums of their values.
use ampc_common.Base.{ℕ, zero, suc, ◌≡◌, ap, ap₂, sym, ◌∙◌, arith, List, [], ◌∷◌, length}
use ampc_common.Galois.{GaloisRingElement, add, mul, one, zero_element}
use ampc_common.Galois.Laws.{
  u16_mod, element_ext, IsReduced, add_comm, mul_comm, mul_assoc, mul-add, add-mul, add-IsReduced,
  mul-IsReduced, mul-one, add-zero, mul-one-mul,
}
use ampc_common.Galois.Power.{power}
use mathlib.Core.Path.{fun_ext}

-- The value of the polynomial with the given coefficients, constant first.
abbrev pub evaluate : List GaloisRingElement → GaloisRingElement → GaloisRingElement
evaluate [] z = zero_element
evaluate (a ∷ cs) z = add a (mul z (evaluate cs z))

abbrev pub poly_add : List GaloisRingElement → List GaloisRingElement → List GaloisRingElement
poly_add [] ds = ds
poly_add (a ∷ cs) [] = a ∷ cs
poly_add (a ∷ cs) (d ∷ ds) = add a d ∷ poly_add cs ds

abbrev pub poly_scale : GaloisRingElement → List GaloisRingElement → List GaloisRingElement
poly_scale a [] = []
poly_scale a (d ∷ ds) = mul a d ∷ poly_scale a ds

abbrev pub poly_mul : List GaloisRingElement → List GaloisRingElement → List GaloisRingElement
poly_mul [] ds = []
poly_mul (a ∷ cs) ds = poly_add (poly_scale a ds) (zero_element ∷ poly_mul cs ds)

pub mul-zero : (x : GaloisRingElement) → mul x zero_element ≡ zero_element
unfolding mul
mul-zero x = element_ext (simp u16_mod (omega arith))

zero-mul : (x : GaloisRingElement) → mul zero_element x ≡ zero_element
zero-mul x = mul_comm zero_element x ∙ mul-zero x

pub mul-add_zero : (x y : GaloisRingElement) → mul x (add y zero_element) ≡ mul x y
unfolding add mul
mul-add_zero x y = element_ext (simp u16_mod (omega arith))

add_interchange : (x y z w : GaloisRingElement) → add (add x y) (add z w) ≡ add (add x z) (add y w)
unfolding add
add_interchange x y z w = element_ext (simp u16_mod (omega arith))

zero-add : (x : GaloisRingElement) → IsReduced x → add zero_element x ≡ x
zero-add x h = add_comm zero_element x ∙ add-zero x h

pub evaluate-IsReduced :
    (cs : List GaloisRingElement) (z : GaloisRingElement) → IsReduced (evaluate cs z)
evaluate-IsReduced [] z = omega arith
evaluate-IsReduced (a ∷ cs) z = add-IsReduced a (mul z (evaluate cs z))

evaluate-poly_add :
    (cs ds : List GaloisRingElement) (z : GaloisRingElement)
    → evaluate (poly_add cs ds) z ≡ add (evaluate cs z) (evaluate ds z)
evaluate-poly_add [] ds z = sym (zero-add (evaluate ds z) (evaluate-IsReduced ds z))
evaluate-poly_add (a ∷ cs) [] z =
    sym (add-zero (evaluate (a ∷ cs) z) (evaluate-IsReduced (a ∷ cs) z))
evaluate-poly_add (a ∷ cs) (d ∷ ds) z =
    ap (add (add a d))
      (ap (mul z) (evaluate-poly_add cs ds z) ∙ mul-add z (evaluate cs z) (evaluate ds z))
    ∙ add_interchange a d (mul z (evaluate cs z)) (mul z (evaluate ds z))

evaluate-poly_scale :
    (a : GaloisRingElement) (ds : List GaloisRingElement) (z : GaloisRingElement)
    → evaluate (poly_scale a ds) z ≡ mul a (evaluate ds z)
evaluate-poly_scale a [] z = sym (mul-zero a)
evaluate-poly_scale a (d ∷ ds) z =
    ap (add (mul a d)) (
      ap (mul z) (evaluate-poly_scale a ds z)
      ∙ sym (mul_assoc z a (evaluate ds z))
      ∙ ap (λ t. mul t (evaluate ds z)) (mul_comm z a)
      ∙ mul_assoc a z (evaluate ds z))
    ∙ sym (mul-add a d (mul z (evaluate ds z)))

-- The product of polynomials has the product of their values.
pub evaluate-poly_mul :
    (cs ds : List GaloisRingElement) (z : GaloisRingElement)
    → evaluate (poly_mul cs ds) z ≡ mul (evaluate cs z) (evaluate ds z)
evaluate-poly_mul [] ds z = sym (zero-mul (evaluate ds z))
evaluate-poly_mul (a ∷ cs) ds z =
    evaluate-poly_add (poly_scale a ds) (zero_element ∷ poly_mul cs ds) z
    ∙ ap₂ add (evaluate-poly_scale a ds z) (
        zero-add (mul z (evaluate (poly_mul cs ds) z)) (mul-IsReduced _ _)
        ∙ ap (mul z) (evaluate-poly_mul cs ds z)
        ∙ sym (mul_assoc z (evaluate cs z) (evaluate ds z)))
    ∙ sym (add-mul a (mul z (evaluate cs z)) (evaluate ds z))

-- The sum of `f z * w` over pairs of a point and its weight.
abbrev pub sum_at :
    (GaloisRingElement → GaloisRingElement)
    → List (GaloisRingElement × GaloisRingElement)
    → GaloisRingElement
sum_at f [] = zero_element
sum_at f ((z, w) ∷ ps) = add (mul (f z) w) (sum_at f ps)

sum_at-add :
    (f g : GaloisRingElement → GaloisRingElement)
    (ps : List (GaloisRingElement × GaloisRingElement))
    → sum_at (λ z. add (f z) (g z)) ps ≡ add (sum_at f ps) (sum_at g ps)
sum_at-add f g [] = sym (add-zero zero_element (omega arith))
sum_at-add f g ((z, w) ∷ ps) =
    ap₂ add (add-mul (f z) (g z) w) (sum_at-add f g ps)
    ∙ add_interchange (mul (f z) w) (mul (g z) w) (sum_at f ps) (sum_at g ps)

sum_at-mul :
    (a : GaloisRingElement) (f : GaloisRingElement → GaloisRingElement)
    (ps : List (GaloisRingElement × GaloisRingElement))
    → sum_at (λ z. mul a (f z)) ps ≡ mul a (sum_at f ps)
sum_at-mul a f [] = sym (mul-zero a)
sum_at-mul a f ((z, w) ∷ ps) =
    ap₂ add (mul_assoc a (f z) w) (sum_at-mul a f ps) ∙ sym (mul-add a (mul (f z) w) (sum_at f ps))

-- The weighted sum of the `d`-th powers of the points.
abbrev pub moment : ℕ → List (GaloisRingElement × GaloisRingElement) → GaloisRingElement
moment d ps = sum_at (λ z. power z d) ps

-- The moments from `d` on, `n` of them, vanish.
abbrev pub Vanish : ℕ → ℕ → List (GaloisRingElement × GaloisRingElement) → Type 0
Vanish d zero ps = Unit {0}
Vanish d (suc n) ps = (moment d ps ≡ zero_element) × Vanish (suc d) n ps

shift_power :
    (d : ℕ) (a e z : GaloisRingElement)
    → mul (power z d) (add a (mul z e)) ≡ add (mul a (power z d)) (mul (power z (suc d)) e)
shift_power d a e z =
    mul-add (power z d) a (mul z e)
    ∙ ap₂ add (mul_comm (power z d) a)
        (sym (mul_assoc (power z d) z e) ∙ ap (λ t. mul t e) (mul_comm (power z d) z))

sum_shifted :
    (d : ℕ) (cs : List GaloisRingElement) (ps : List (GaloisRingElement × GaloisRingElement))
    → Vanish d (length cs) ps
    → sum_at (λ z. mul (power z d) (evaluate cs z)) ps ≡ zero_element
sum_shifted d [] ps v =
    ap (λ f. sum_at f ps) (fun_ext (λ z. mul-zero (power z d) ∙ sym (zero-mul (power z d))))
    ∙ sum_at-mul zero_element (λ z. power z d) ps
    ∙ zero-mul (moment d ps)
sum_shifted d (a ∷ cs) ps v =
    ap (λ f. sum_at f ps) (fun_ext (λ z. shift_power d a (evaluate cs z) z))
    ∙ sum_at-add (λ z. mul a (power z d)) (λ z. mul (power z (suc d)) (evaluate cs z)) ps
    ∙ ap₂ add (sum_at-mul a (λ z. power z d) ps ∙ ap (mul a) v.0 ∙ mul-zero a)
        (sum_shifted (suc d) cs ps v.1)
    ∙ add-zero zero_element (omega arith)

-- Weights whose moments are 1, 0, 0, … give the constant coefficient of a polynomial that is no
-- longer than the moments known.
pub interpolate :
    (a : GaloisRingElement) (cs : List GaloisRingElement)
    (ps : List (GaloisRingElement × GaloisRingElement))
    → IsReduced a
    → moment 0 ps ≡ one
    → Vanish 1 (length cs) ps
    → sum_at (evaluate (a ∷ cs)) ps ≡ a
interpolate a cs ps h m v =
    ap (λ f. sum_at f ps) (fun_ext split)
    ∙ sum_at-add (λ z. mul a (power z 0)) (λ z. mul (power z 1) (evaluate cs z)) ps
    ∙ ap₂ add (sum_at-mul a (λ z. power z 0) ps ∙ ap (mul a) m ∙ mul-one a h)
        (sum_shifted 1 cs ps v)
    ∙ add-zero a h
  where
    split :
        (z : GaloisRingElement)
        → evaluate (a ∷ cs) z ≡ add (mul a (power z 0)) (mul (power z 1) (evaluate cs z))
    split z = ap₂ add (sym (mul-one a h)) (sym (mul-one-mul z (evaluate cs z)))
