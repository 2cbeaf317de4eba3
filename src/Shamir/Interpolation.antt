-- ===== src/Shamir/Interpolation.antt =====
-- The coefficients of `deg_k_lagrange_polys_at_zero` interpolate at zero, for every number of
-- points that the function accepts.

use ampc_common.Base.{
  ℕ, zero, suc, ◌≤◌, ◌<◌, ◌≡◌, refl, arith, List, [], ◌∷◌, Option, none, some, Bool, true, false,
  ◌==◌, ◌&&◌, length,
}
use ampc_common.Galois
use ampc_common.Galois.{
  GaloisRingElement, from_coefs, exceptional_sequence, zero_element, one, ◌⊕◌, ◌⊗◌,
}
use ampc_common.Galois.Laws.{IsReduced}
use ampc_common.Ring
use ampc_common.Shamir.{deg_k_lagrange_polys_at_zero}
use ampc_common.Shamir.Poly.{sum_at, evaluate, moment, Vanish, interpolate}
use ampc_common.Base.{every_below, every_below-true}

abbrev pub pair :
    List GaloisRingElement → List GaloisRingElement → List (GaloisRingElement × GaloisRingElement)
pair (z ∷ zs) (w ∷ ws) = (z, w) ∷ pair zs ws
pair _ _ = []

abbrev pub tail : List GaloisRingElement → List GaloisRingElement
tail [] = []
tail (x ∷ xs) = xs

-- The evaluation points with the weights: the exceptional sequence without its first element.
abbrev pub points : List GaloisRingElement → List (GaloisRingElement × GaloisRingElement)
points ws = pair (tail exceptional_sequence) ws

same : GaloisRingElement → GaloisRingElement → Bool
same x y = x.c0 == y.c0 && (x.c1 == y.c1 && (x.c2 == y.c2 && x.c3 == y.c3))

same-eq : (x y : GaloisRingElement) → same x y ≡ true → x ≡ y
unfolding same
same-eq x y h = ground arith

vanish_ok : ℕ → ℕ → List (GaloisRingElement × GaloisRingElement) → Bool
vanish_ok d zero ps = true
vanish_ok d (suc n) ps = same (moment d ps) zero_element && vanish_ok (suc d) n ps

vanish_ok-Vanish :
    (d n m : ℕ) (ps : List (GaloisRingElement × GaloisRingElement))
    → m ≤ n
    → vanish_ok d n ps ≡ true
    → Vanish d m ps
unfolding vanish_ok
vanish_ok-Vanish d n zero ps l h = tt
vanish_ok-Vanish d zero (suc m) ps l h = absurd (omega arith)
vanish_ok-Vanish d (suc n) (suc m) ps l h = (
  same-eq (moment d ps) zero_element (ground arith),
  vanish_ok-Vanish (suc d) n m ps (omega arith) (ground arith),
)

-- Weights for `n + 1` points that interpolate: the moments are 1, 0, …, 0.
abbrev pub Interpolates : ℕ → List GaloisRingElement → Type 0
Interpolates n ws = (moment 0 (points ws) ≡ one) × Vanish 1 n (points ws)

-- Are the moments of the computed weights for `n + 1` points 1, 0, …, 0?
weights_ok : ℕ → Option (List GaloisRingElement) → Bool
weights_ok n none = false
weights_ok n (some ws) = same (moment 0 (points ws)) one && vanish_ok 1 n (points ws)

all_weights_ok : every_below (λ n. weights_ok n (deg_k_lagrange_polys_at_zero (suc n))) 15 ≡ true
unfolding every_below weights_ok vanish_ok same deg_k_lagrange_polys_at_zero Galois.inverse
    Galois.pow Galois.pow_loop Galois.mul Galois.sub Galois.add Galois.neg ◌⊕◌ ◌⊗◌ Ring.add Ring.mul
    Ring.sub Ring.neg
all_weights_ok = refl

weights_ok-Interpolates :
    (n m : ℕ) (o : Option (List GaloisRingElement))
    → m ≤ n
    → weights_ok n o ≡ true
    → (ws : List GaloisRingElement) × (o ≡ some ws) × Interpolates m ws
unfolding weights_ok
weights_ok-Interpolates n m none l h = absurd (cc)
weights_ok-Interpolates n m (some ws) l h = (
  ws,
  refl,
  (
    same-eq (moment 0 (points ws)) one (ground arith),
    vanish_ok-Vanish 1 n m (points ws) l (ground arith),
  ),
)

-- For any number of points from 1 to 15 the function returns weights, and the weighted sum of the
-- values at those points of a polynomial with at most as many coefficients is its constant one,
-- when that has 16-bit coefficients.
pub deg_k_interpolates :
    (n : ℕ) (a : GaloisRingElement) (cs : List GaloisRingElement)
    → n < 15
    → length cs ≤ n
    → IsReduced a
    → (ws : List GaloisRingElement) × (deg_k_lagrange_polys_at_zero (suc n) ≡ some ws)
      × (sum_at (evaluate (a ∷ cs)) (points ws) ≡ a)
deg_k_interpolates n a cs h l r =
    let found = weights_ok-Interpolates n (length cs) (deg_k_lagrange_polys_at_zero (suc n)) l (
      every_below-true (λ n. weights_ok n (deg_k_lagrange_polys_at_zero (suc n))) 15 n h
        all_weights_ok) in
    (found.0, found.1, interpolate a cs (points found.0) r found.2.0 found.2.1)
