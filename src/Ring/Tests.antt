-- ===== src/Ring/Tests.antt =====
-- Runs of the ring theorems at given values.
use ampc_common.Base.{ℕ, List, [], ◌∷◌}

abbrev minuend : List ℕ
minuend = 3 ∷ 65535 ∷ []

abbrev subtrahend : List ℕ
subtrahend = 5 ∷ 1 ∷ []
