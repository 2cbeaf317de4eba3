-- ===== src/Ring.antt =====
-- ampc-secret-sharing/src/shares/int_ring.rs and ring_impl.rs: the integers of `k` bits with
-- wrapping arithmetic (`IntRing2k` with `K = k`), and `RingElement` and `VecRingElement` over
-- them. A `RingElement` is transparent over its value, so an element is the number it holds.
-- The operand of a subtraction is read modulo `2 ^ k`, which changes nothing for a value of the
-- type, since `-` on numbers stops at 0. The assigning forms and the forms by reference of an
-- operator are the same function here.
pub mod Laws
pub mod Bits
pub mod Vectors
mod Tests
use ampc_common.Base.{
  ℕ, zero, suc, ◌+◌, ◌-◌, ◌*◌, ◌/◌, ◌%◌, ◌^◌, ◌<◌, Bool, ◌==◌, List, [], ◌∷◌, Option, none, some,
  length, if◌then◌else◌, bit_and, bit_or, bit_xor,
}

-- A value that a type of `k` bits can hold.
abbrev pub IsElem : ℕ → ℕ → Type 0
IsElem k x = x < 2 ^ k

unfoldable pub add : ℕ → ℕ → ℕ → ℕ
add k a b = (a + b) % 2 ^ k

unfoldable pub sub : ℕ → ℕ → ℕ → ℕ
sub k a b = (a + (2 ^ k - b % 2 ^ k)) % 2 ^ k

unfoldable pub mul : ℕ → ℕ → ℕ → ℕ
mul k a b = a * b % 2 ^ k

unfoldable pub neg : ℕ → ℕ → ℕ
neg k a = (0 + (2 ^ k - a % 2 ^ k)) % 2 ^ k

-- `!`, every bit of the word flipped.
unfoldable pub not : ℕ → ℕ → ℕ
not k a = 2 ^ k - 1 - a

-- The amount of a shift: reduced modulo the width of the number, which is 64 for `Ring48`.
unfoldable pub shift_amount : ℕ → ℕ → ℕ
shift_amount k r = if k == 48 then r % 64 else r % k

-- `wrapping_shl` and `wrapping_shr`: a `Bit` is 0 after a shift by any amount but 0.
unfoldable pub shl : ℕ → ℕ → ℕ → ℕ
unfolding shift_amount
shl k a r = if k == 1 then (if r == 0 then a else 0) else a * 2 ^ shift_amount k r % 2 ^ k

unfoldable pub shr : ℕ → ℕ → ℕ → ℕ
unfolding shift_amount
shr k a r = if k == 1 then (if r == 0 then a else 0) else a / 2 ^ shift_amount k r

-- `get_bit` and `get_bit_as_bit`, for an index below the width.
unfoldable pub get_bit : ℕ → ℕ → ℕ
get_bit a index = bit_and (a / 2 ^ index) 1

-- What `bit_iter` yields from `index` on, `left` bits before its end.
unfoldable pub bit_iter : ℕ → ℕ → ℕ → List ℕ
bit_iter a index zero = []
bit_iter a index (suc left) = get_bit a index ∷ bit_iter a (index + 1) left

-- `izip!` followed by `map`.
unfoldable pub zip_with {ℓ κ μ} :
    {A : Type ℓ} {B : Type κ} {C : Type μ} → (A → B → C) → List A → List B → List C
zip_with f (x ∷ xs) (y ∷ ys) = f x y ∷ zip_with f xs ys
zip_with f _ _ = []

-- The operators of `VecRingElement`: `none` is the error on different lengths.
componentwise : (ℕ → ℕ → ℕ) → List ℕ → List ℕ → Option (List ℕ)
componentwise f xs ys = if length xs == length ys then some (zip_with f xs ys) else none

unfoldable pub vec_add : ℕ → List ℕ → List ℕ → Option (List ℕ)
unfolding componentwise
vec_add k = componentwise (add k)

unfoldable pub vec_sub : ℕ → List ℕ → List ℕ → Option (List ℕ)
unfolding componentwise
vec_sub k = componentwise (sub k)

unfoldable pub vec_mul : ℕ → List ℕ → List ℕ → Option (List ℕ)
unfolding componentwise
vec_mul k = componentwise (mul k)

unfoldable pub vec_xor : List ℕ → List ℕ → Option (List ℕ)
unfolding componentwise
vec_xor = componentwise bit_xor
