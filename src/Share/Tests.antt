-- ===== src/Share/Tests.antt =====
-- Runs of the theorems on replicated shares at given shares of 16 bits.
use ampc_common.Base.{ℕ, ◌≡◌, refl, List, [], ◌∷◌, bit_and, bit_xor}
use ampc_common.Ring
use ampc_common.Share.{Share, DistanceShare, add, sub, neg, scale, mul, bitand}
use ampc_common.Share.Local.{
  Shared, IsReplicated, reconstruct, each, each₂, linear_shared, mul_shared,
}
use ampc_common.Share.Boolean.{reconstruct_xor, bitand_shared}

abbrev share : ℕ → ℕ → Share
share a b = record { a = a; b = b }

-- The shares of the three parties whose first parts are given.
abbrev of_parts : ℕ → ℕ → ℕ → Shared
of_parts x0 x1 x2 = record { p0 = share x0 x2; p1 = share x1 x0; p2 = share x2 x1 }

of_parts-IsReplicated : (x0 x1 x2 : ℕ) → IsReplicated (of_parts x0 x1 x2)
of_parts-IsReplicated x0 x1 x2 = record { holds0 = refl; holds1 = refl; holds2 = refl }

abbrev s : Shared
s = of_parts 65535 10 200

abbrev t : Shared
t = of_parts 3 40000 30000

linear_shared_example :
    IsReplicated (each₂ (add 16) s t)
    × (reconstruct 16 (each₂ (add 16) s t) ≡ Ring.add 16 (reconstruct 16 s) (reconstruct 16 t))
    × IsReplicated (each₂ (sub 16) s t)
    × (reconstruct 16 (each₂ (sub 16) s t) ≡ Ring.sub 16 (reconstruct 16 s) (reconstruct 16 t))
    × IsReplicated (each (neg 16) s)
    × (reconstruct 16 (each (neg 16) s) ≡ Ring.neg 16 (reconstruct 16 s))
    × IsReplicated (each (λ x. scale 16 x 7) s)
    × (reconstruct 16 (each (λ x. scale 16 x 7) s) ≡ Ring.mul 16 (reconstruct 16 s) 7)
linear_shared_example =
    linear_shared 16 7 s t (of_parts-IsReplicated 65535 10 200)
      (of_parts-IsReplicated 3 40000 30000)

mul_shared_example :
    Ring.add 16 (Ring.add 16 (mul 16 s.p0 t.p0) (mul 16 s.p1 t.p1)) (mul 16 s.p2 t.p2)
    ≡ Ring.mul 16 (reconstruct 16 s) (reconstruct 16 t)
mul_shared_example =
    mul_shared 16 s t (of_parts-IsReplicated 65535 10 200) (of_parts-IsReplicated 3 40000 30000)

bitand_shared_example :
    bit_xor (bit_xor (bitand s.p0 t.p0) (bitand s.p1 t.p1)) (bitand s.p2 t.p2)
    ≡ bit_and (reconstruct_xor s) (reconstruct_xor t)
bitand_shared_example =
    bitand_shared s t (of_parts-IsReplicated 65535 10 200) (of_parts-IsReplicated 3 40000 30000)

abbrev distance : DistanceShare
distance = record { code_dot = share 1 2; mask_dot = share 3 4 }

abbrev distances : List DistanceShare
distances = distance ∷ distance ∷ []

abbrev with_ids : List (Share × DistanceShare)
with_ids = (share 5 6, distance) ∷ []
