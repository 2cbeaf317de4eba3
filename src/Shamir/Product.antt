-- ===== src/Shamir/Product.antt =====
-- Sharing, multiplying share by share and reconstructing.
use ampc_common.Base.{
  ℕ, ◌≡◌, ap, sym, ◌∙◌, arith, List, [], ◌∷◌, Option, some, length, ◌≤◌, some_inj,
}
use mathlib.Core.Path.{fun_ext}
use ampc_common.Base.Options.{◌>>=◌}
use ampc_common.Galois
use ampc_common.Galois.{GaloisRingElement, from_coefs, ◌⊕◌, zero_element}
use ampc_common.Galois.Laws.{
  u16_mod, element_ext, IsReduced, mul_comm, add-IsReduced, mul-IsReduced, add-zero,
}
use ampc_common.Shamir.{
  ShamirGaloisRingShare, encode_3, encode_3_mat, encode_5, encode_5_mat, mul,
  reconstruct_deg_2_shares, reconstruct_deg_4_shares, deg_2_lagrange_polys_at_zero,
  deg_4_lagrange_polys_at_zero,
}
use ampc_common.Shamir.Poly.{sum_at, evaluate, poly_mul, evaluate-poly_mul, mul-zero, mul-add_zero}
use ampc_common.Shamir.Interpolation.{points, deg_k_interpolates}
use ampc_common.Shamir.Encode.{encode_3-eq-encode_3_mat, encode_5-eq-encode_5_mat}
use ampc_common.Shamir.Lagrange.{deg_2_lem, deg_4_lem, weights_2, weights_4}

-- Every party multiplies its two shares.
abbrev pub mul_all :
    List ShamirGaloisRingShare → List ShamirGaloisRingShare → Option (List ShamirGaloisRingShare)
mul_all (s ∷ ss) (t ∷ ts) = do p ← mul s t; ps ← mul_all ss ts; some (p ∷ ps)
mul_all _ _ = some []

abbrev pub share : ℕ → GaloisRingElement → ShamirGaloisRingShare
share id y = record { id = id; y = y }

sum_of_3 :
    (x y z : GaloisRingElement)
    → Galois.add (Galois.add x y) z ≡ Galois.add x (Galois.add y (Galois.add z zero_element))
unfolding Galois.add
sum_of_3 x y z = element_ext (simp u16_mod (omega arith))

sum_of_5 :
    (x y z v w : GaloisRingElement)
    → Galois.add (Galois.add (Galois.add (Galois.add x y) z) v) w
      ≡ Galois.add x (Galois.add y (Galois.add z (Galois.add v (Galois.add w zero_element))))
unfolding Galois.add
sum_of_5 x y z v w = element_ext (simp u16_mod (omega arith))

-- The shares of a function at the first three and the first five points.
abbrev pub three_shares : (GaloisRingElement → GaloisRingElement) → List ShamirGaloisRingShare
three_shares f =
    share 1 (f (from_coefs 1 0 0 0))
    ∷ share 2 (f (from_coefs 0 1 0 0))
    ∷ share 3 (f (from_coefs 1 1 0 0))
    ∷ []

abbrev pub five_shares : (GaloisRingElement → GaloisRingElement) → List ShamirGaloisRingShare
five_shares f =
    share 1 (f (from_coefs 1 0 0 0))
    ∷ share 2 (f (from_coefs 0 1 0 0))
    ∷ share 3 (f (from_coefs 1 1 0 0))
    ∷ share 4 (f (from_coefs 0 0 1 0))
    ∷ share 5 (f (from_coefs 1 0 1 0))
    ∷ []

-- What the two reconstructions compute, as weighted sums.
reconstruct_2_sum :
    (f : GaloisRingElement → GaloisRingElement)
    → reconstruct_deg_2_shares (three_shares f) ≡ some (sum_at f (points weights_2))
unfolding reconstruct_deg_2_shares deg_2_lagrange_polys_at_zero
reconstruct_2_sum f = rw deg_2_lem (ap some (sum_of_3 _ _ _))

reconstruct_4_sum :
    (f : GaloisRingElement → GaloisRingElement)
    → reconstruct_deg_4_shares (five_shares f) ≡ some (sum_at f (points weights_4))
unfolding reconstruct_deg_4_shares deg_4_lagrange_polys_at_zero
reconstruct_4_sum f = rw deg_4_lem (ap some (sum_of_5 _ _ _ _ _))

-- The reconstructions of the values of a polynomial of at most three and at most five coefficients
-- give its constant coefficient.
reconstruct_poly_2 :
    (a : GaloisRingElement) (cs : List GaloisRingElement)
    → length cs ≤ 2
    → IsReduced a
    → reconstruct_deg_2_shares (three_shares (evaluate (a ∷ cs))) ≡ some a
reconstruct_poly_2 a cs l h =
    let found = deg_k_interpolates 2 a cs (omega arith) l h in
    reconstruct_2_sum (evaluate (a ∷ cs))
    ∙ ap some (
        ap (λ ws. sum_at (evaluate (a ∷ cs)) (points ws)) (some_inj _ _ (sym deg_2_lem ∙ found.1))
        ∙ found.2)

reconstruct_poly_4 :
    (a : GaloisRingElement) (cs : List GaloisRingElement)
    → length cs ≤ 4
    → IsReduced a
    → reconstruct_deg_4_shares (five_shares (evaluate (a ∷ cs))) ≡ some a
reconstruct_poly_4 a cs l h =
    let found = deg_k_interpolates 4 a cs (omega arith) l h in
    reconstruct_4_sum (evaluate (a ∷ cs))
    ∙ ap some (
        ap (λ ws. sum_at (evaluate (a ∷ cs)) (points ws)) (some_inj _ _ (sym deg_4_lem ∙ found.1))
        ∙ found.2)

encode_3_poly :
    (x r : GaloisRingElement) → encode_3 x r ≡ some (three_shares (evaluate (x ∷ r ∷ [])))
unfolding encode_3
encode_3_poly x r = ap (λ f. some (three_shares f)) (fun_ext linear)
  where
    linear : (z : GaloisRingElement) → Galois.add x (Galois.mul r z) ≡ evaluate (x ∷ r ∷ []) z
    linear z = ap (Galois.add x) (
        mul_comm r z
        ∙ sym (mul-add_zero z r)
        ∙ ap (λ t. Galois.mul z (Galois.add r t)) (sym (mul-zero z)))

encode_5_poly :
    (x r t : GaloisRingElement) → encode_5 x r t ≡ some (five_shares (evaluate (x ∷ r ∷ t ∷ [])))
unfolding encode_5
encode_5_poly x r t = ap (λ f. some (five_shares f)) (fun_ext quadratic)
  where
    quadratic :
        (z : GaloisRingElement)
        → Galois.add x (Galois.mul (Galois.add r (Galois.mul t z)) z) ≡ evaluate (x ∷ r ∷ t ∷ []) z
    quadratic z = ap (Galois.add x) (
        mul_comm (Galois.add r (Galois.mul t z)) z
        ∙ ap (λ u. Galois.mul z (Galois.add r u))
            (mul_comm t z
              ∙ sym (mul-add_zero z t)
              ∙ ap (λ u. Galois.mul z (Galois.add t u)) (sym (mul-zero z))))

-- The coefficients but the constant one.
abbrev rest : List GaloisRingElement → List GaloisRingElement
rest [] = []
rest (c ∷ cs) = cs

-- The constant coefficient of a product.
abbrev constant_product : GaloisRingElement → GaloisRingElement → GaloisRingElement
constant_product x y = Galois.add (Galois.mul x y) zero_element

-- The products of the three shares of `x` and of `y`, whatever the random elements, reconstruct to
-- the product of `x` and `y`.
pub reconstruct-encode_3 :
    (x r y q : GaloisRingElement)
    → (do
      sx ← encode_3 x r
      sy ← encode_3 y q
      products ← mul_all sx sy
      reconstruct_deg_2_shares products)
      ≡ some (Galois.mul x y)
unfolding mul
reconstruct-encode_3 x r y q =
    rw (encode_3_poly x r, encode_3_poly y q)
      (ap (λ f. reconstruct_deg_2_shares (three_shares f))
          (fun_ext (λ z. sym (evaluate-poly_mul (x ∷ r ∷ []) (y ∷ q ∷ []) z)))
        ∙ reconstruct_poly_2 (constant_product x y) (rest (poly_mul (x ∷ r ∷ []) (y ∷ q ∷ [])))
            (omega arith) (add-IsReduced _ _)
        ∙ ap some (add-zero (Galois.mul x y) (mul-IsReduced x y)))

-- The products of the five shares of `x` and of `y`, whatever the random elements, reconstruct to
-- the product of `x` and `y`.
pub reconstruct-encode_5 :
    (x r t y q u : GaloisRingElement)
    → (do
      sx ← encode_5 x r t
      sy ← encode_5 y q u
      products ← mul_all sx sy
      reconstruct_deg_4_shares products)
      ≡ some (Galois.mul x y)
unfolding mul
reconstruct-encode_5 x r t y q u =
    rw (encode_5_poly x r t, encode_5_poly y q u)
      (ap (λ f. reconstruct_deg_4_shares (five_shares f))
          (fun_ext (λ z. sym (evaluate-poly_mul (x ∷ r ∷ t ∷ []) (y ∷ q ∷ u ∷ []) z)))
        ∙ reconstruct_poly_4 (constant_product x y)
            (rest (poly_mul (x ∷ r ∷ t ∷ []) (y ∷ q ∷ u ∷ []))) (omega arith) (add-IsReduced _ _)
        ∙ ap some (add-zero (Galois.mul x y) (mul-IsReduced x y)))

-- For a secret whose coefficients are 16-bit values, and any random elements, the shares of the
-- matrix encoders reconstruct to the secret: the three shares of `encode_3_mat` by the coefficients
-- of degree 2, the five of `encode_5_mat` by those of degree 4.
pub reconstruct-encode_mat :
    (x r t : GaloisRingElement)
    → IsReduced x
    → (reconstruct_deg_2_shares (encode_3_mat x r) ≡ some x)
      × (reconstruct_deg_4_shares (encode_5_mat x r t) ≡ some x)
reconstruct-encode_mat x r t h = (
  ap reconstruct_deg_2_shares
        (some_inj _ _ (sym (encode_3-eq-encode_3_mat x r) ∙ encode_3_poly x r))
      ∙ reconstruct_poly_2 x (r ∷ []) (omega arith) h,
  ap reconstruct_deg_4_shares
        (some_inj _ _ (sym (encode_5-eq-encode_5_mat x r t) ∙ encode_5_poly x r t))
      ∙ reconstruct_poly_4 x (r ∷ t ∷ []) (omega arith) h,
)
