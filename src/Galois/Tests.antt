-- ===== src/Galois/Tests.antt =====
-- Runs of the theorems on the Galois ring at given elements.
use ampc_common.Base.{ℕ, ◌≡◌, arith, List, [], ◌∷◌, some}
use ampc_common.Galois.{GaloisRingElement, from_coefs, pow}
use ampc_common.Galois.Laws.{IsReduced}
use ampc_common.Galois.Power.{power, pow-power}

abbrev x : GaloisRingElement
x = from_coefs 65535 12 7 40000

abbrev y : GaloisRingElement
y = from_coefs 3 65000 0 1

abbrev z : GaloisRingElement
z = from_coefs 9 8 7 6

x-IsReduced : IsReduced x
x-IsReduced = record {
  fits0 = omega arith;
  fits1 = omega arith;
  fits2 = omega arith;
  fits3 = omega arith;
}

pow-power_example : pow x 5 ≡ some (power x 5)
pow-power_example = pow-power x 5 (omega arith)

abbrev code : List ℕ
code = 1 ∷ 65535 ∷ 3 ∷ 4 ∷ []

abbrev query : List ℕ
query = 5 ∷ 6 ∷ 7 ∷ 65000 ∷ []
