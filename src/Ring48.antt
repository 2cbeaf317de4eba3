-- ===== src/Ring48.antt =====
-- ampc-secret-sharing/src/shares/ring48.rs: 48-bit elements kept in a `u64`. The `u64` operations
-- are those of Rust's standard library, with their wrap at 2 ^ 64 written out.
pub mod Laws
mod Tests
use ampc_common.Base.{
  ℕ, ◌+◌, ◌-◌, ◌*◌, ◌/◌, ◌%◌, ◌^◌, bit_and, bit_xor, bit_or, Bool, true, false, ◌==◌,
}

abbrev pub mask_48 : ℕ
mask_48 = 1 * 2 ^ 48 - 1

-- `u64` addition, subtraction, multiplication, negation and shifts that wrap.
abbrev pub u64_add : ℕ → ℕ → ℕ
u64_add a b = (a + b) % 2 ^ 64

abbrev pub u64_sub : ℕ → ℕ → ℕ
u64_sub a b = (a + (2 ^ 64 - b % 2 ^ 64)) % 2 ^ 64

abbrev pub u64_mul : ℕ → ℕ → ℕ
u64_mul a b = a * b % 2 ^ 64

abbrev pub u64_shl : ℕ → ℕ → ℕ
u64_shl a r = a * 2 ^ (r % 64) % 2 ^ 64

abbrev pub u64_not : ℕ → ℕ
u64_not a = 2 ^ 64 - 1 - a

unfoldable pub masked : ℕ → ℕ
masked v = bit_and v mask_48

unfoldable pub from_bool : Bool → ℕ
from_bool true = 1
from_bool false = 0

unfoldable pub wrapping_add : ℕ → ℕ → ℕ
wrapping_add a b = bit_and (u64_add a b) mask_48

unfoldable pub wrapping_sub : ℕ → ℕ → ℕ
wrapping_sub a b = bit_and (u64_sub a b) mask_48

unfoldable pub wrapping_mul : ℕ → ℕ → ℕ
wrapping_mul a b = bit_and (u64_mul a b) mask_48

unfoldable pub wrapping_neg : ℕ → ℕ
wrapping_neg a = bit_and (u64_sub 0 a) mask_48

unfoldable pub wrapping_shl : ℕ → ℕ → ℕ
wrapping_shl a r = bit_and (u64_shl a r) mask_48

unfoldable pub wrapping_shr : ℕ → ℕ → ℕ
wrapping_shr a r = a / 2 ^ (r % 64)

unfoldable pub complement : ℕ → ℕ
complement a = bit_and (u64_not a) mask_48

unfoldable pub bitxor : ℕ → ℕ → ℕ
bitxor a b = bit_xor a b

unfoldable pub bitand : ℕ → ℕ → ℕ
bitand a b = bit_and a b

unfoldable pub bitor : ℕ → ℕ → ℕ
bitor a b = bit_or a b

unfoldable pub is_zero : ℕ → Bool
is_zero a = a == 0
