-- ===== src/Bit.antt =====
-- ampc-secret-sharing/src/shares/bit.rs: a bit kept in a byte that is 0 or 1.
pub mod Laws
use ampc_common.Base.{
  ℕ, zero, suc, bit_and, bit_xor, bit_or, Bool, true, false, Option, none, some, ◌==◌,
  if◌then◌else◌,
}

unfoldable pub new : Bool → ℕ
new true = 1
new false = 0

-- `convert`, and `From<Bit> for bool`.
unfoldable pub convert : ℕ → Bool
convert b = b == 1

-- `TryFrom<u8>` and `TryFrom<usize>`; `none` is the conversion error.
unfoldable pub try_from : ℕ → Option ℕ
try_from zero = some 0
try_from (suc zero) = some 1
try_from (suc (suc n)) = none

unfoldable pub bitxor : ℕ → ℕ → ℕ
bitxor a b = bit_xor a b

unfoldable pub bitor : ℕ → ℕ → ℕ
bitor a b = bit_or a b

unfoldable pub bitand : ℕ → ℕ → ℕ
bitand a b = bit_and a b

-- `Add` and `WrappingAdd`.
unfoldable pub add : ℕ → ℕ → ℕ
unfolding bitxor
add a b = bitxor a b

-- `Sub` and `WrappingSub`.
unfoldable pub sub : ℕ → ℕ → ℕ
unfolding bitxor
sub a b = bitxor a b

-- `Neg` and `WrappingNeg`.
unfoldable pub neg : ℕ → ℕ
neg a = a

unfoldable pub complement : ℕ → ℕ
complement a = bit_xor a 1

-- `Mul` and `WrappingMul`.
unfoldable pub mul : ℕ → ℕ → ℕ
unfolding bitand
mul a b = bitand a b

-- `Shl` and `WrappingShl`; `Shr` and `WrappingShr` are the same.
unfoldable pub shl : ℕ → ℕ → ℕ
shl a r = if r == 0 then a else 0

unfoldable pub shr : ℕ → ℕ → ℕ
shr a r = if r == 0 then a else 0

-- `Rem`; `none` is the panic on a zero divisor.
unfoldable pub rem : ℕ → ℕ → Option ℕ
rem a zero = none
rem a (suc zero) = some 0
rem a (suc (suc b)) = none
