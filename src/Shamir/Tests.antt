-- ===== src/Shamir/Tests.antt =====
-- Runs of the theorems on Shamir sharing at given secrets and random elements.
use ampc_common.Base.{suc, ◌≡◌, arith, List, [], ◌∷◌, some}
use ampc_common.Base.Options.{◌>>=◌}
use ampc_common.Galois
use ampc_common.Galois.{GaloisRingElement, from_coefs}
use ampc_common.Galois.Laws.{IsReduced}
use ampc_common.Shamir.{
  encode_3, encode_5, encode_5_mat, reconstruct_deg_2_shares, reconstruct_deg_4_shares,
  deg_k_lagrange_polys_at_zero,
}
use ampc_common.Shamir.Poly.{sum_at, evaluate}
use ampc_common.Shamir.Lagrange.{inverts, exceptional_difference}
use ampc_common.Shamir.Interpolation.{points, deg_k_interpolates}
use ampc_common.Shamir.Encode.{encode_5-eq-encode_5_mat}
use ampc_common.Shamir.Product.{mul_all, reconstruct-encode_3, reconstruct-encode_5}

abbrev x : GaloisRingElement
x = from_coefs 65535 12 7 40000

abbrev y : GaloisRingElement
y = from_coefs 3 65000 0 1

abbrev r : GaloisRingElement
r = from_coefs 9 8 7 6

abbrev t : GaloisRingElement
t = from_coefs 500 60000 2 33333

x-IsReduced : IsReduced x
x-IsReduced = record {
  fits0 = omega arith;
  fits1 = omega arith;
  fits2 = omega arith;
  fits3 = omega arith;
}

exceptional_difference_example : inverts 5 11 ≡ some Galois.one
exceptional_difference_example =
    exceptional_difference 5 11 (omega arith) (omega arith) (λ e. absurd (omega arith))

deg_k_interpolates_example :
    (ws : List GaloisRingElement) × (deg_k_lagrange_polys_at_zero (suc 2) ≡ some ws)
    × (sum_at (evaluate (x ∷ r ∷ t ∷ [])) (points ws) ≡ x)
deg_k_interpolates_example =
    deg_k_interpolates 2 x (r ∷ t ∷ []) (omega arith) (omega arith) x-IsReduced

encode_5-eq-encode_5_mat_example : encode_5 x r t ≡ some (encode_5_mat x r t)
encode_5-eq-encode_5_mat_example = encode_5-eq-encode_5_mat x r t

reconstruct-encode_3_example :
    (do
      sx ← encode_3 x r
      sy ← encode_3 y t
      products ← mul_all sx sy
      reconstruct_deg_2_shares products)
    ≡ some (Galois.mul x y)
reconstruct-encode_3_example = reconstruct-encode_3 x r y t

reconstruct-encode_5_example :
    (do
      sx ← encode_5 x r t
      sy ← encode_5 y t r
      products ← mul_all sx sy
      reconstruct_deg_4_shares products)
    ≡ some (Galois.mul x y)
reconstruct-encode_5_example = reconstruct-encode_5 x r t y t r
