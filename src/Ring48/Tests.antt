-- ===== src/Ring48/Tests.antt =====
-- Runs of the theorems on 48-bit elements at given values.
use ampc_common.Base.{◌≡◌, arith}
use ampc_common.Ring
use ampc_common.Ring.{IsElem}
use ampc_common.Ring48.{wrapping_add, wrapping_sub, wrapping_mul, wrapping_neg}
use ampc_common.Ring48.Laws.{ring48_arithmetic}

-- The greatest element, and 3.
ring48_arithmetic_example :
    (wrapping_add 281474976710655 3 ≡ Ring.add 48 281474976710655 3)
    × (wrapping_sub 281474976710655 3 ≡ Ring.sub 48 281474976710655 3)
    × (wrapping_mul 281474976710655 3 ≡ Ring.mul 48 281474976710655 3)
    × (wrapping_neg 281474976710655 ≡ Ring.neg 48 281474976710655)
ring48_arithmetic_example = ring48_arithmetic 281474976710655 3 (omega arith) (omega arith)
