-- ===== src/Ring/Laws.antt =====
-- The wrapping operations make the numbers below `2 ^ k` a commutative ring.
use ampc_common.Base.{ℕ, ◌+◌, ◌*◌, ◌%◌, ◌^◌, ◌≡◌, refl, ap, ◌∙◌, arith}
use ampc_common.Base.Mod.{
  mod-eq_of_multiples, drop_mod, pow-pos, minus_one, pow-eq-suc, complement-mod,
}
use native.Mathlib.Nat.{mod-lt, mod-eq_of_lt}
use ampc_common.Ring.{IsElem, add, sub, mul, neg}

-- Subtraction and negation as multiplication by `2 ^ k - 1`, a form in which sums can be
-- normalised.
pub sub_lem : (k a b : ℕ) → sub k a b ≡ (a + minus_one k * b) % 2 ^ k
unfolding sub
sub_lem k a b = complement-mod k a b

pub neg_lem : (k a : ℕ) → neg k a ≡ minus_one k * a % 2 ^ k
unfolding neg
neg_lem k a = complement-mod k 0 a ∙ ap (λ (t : ℕ). t % 2 ^ k) (omega arith)

pub add_def : (k a b : ℕ) → add k a b ≡ (a + b) % 2 ^ k
unfolding add
add_def k a b = refl

pub mul_def : (k a b : ℕ) → mul k a b ≡ a * b % 2 ^ k
unfolding mul
mul_def k a b = refl

-- The result of an expression over the operations, as one remainder.
pub ruleset one_mod = (add_def, mul_def, sub_lem, neg_lem, drop_mod)

pub add-IsElem : (k a b : ℕ) → IsElem k (add k a b)
unfolding add
add-IsElem k a b = mod-lt (a + b) (pow-pos k)

pub sub-IsElem : (k a b : ℕ) → IsElem k (sub k a b)
unfolding sub
sub-IsElem k a b = mod-lt _ (pow-pos k)

pub mul-IsElem : (k a b : ℕ) → IsElem k (mul k a b)
unfolding mul
mul-IsElem k a b = mod-lt _ (pow-pos k)

pub add_comm : (k a b : ℕ) → add k a b ≡ add k b a
unfolding add
add_comm k a b = ap (λ (t : ℕ). t % 2 ^ k) (omega arith)

pub add_assoc : (k a b c : ℕ) → add k (add k a b) c ≡ add k a (add k b c)
add_assoc k a b c = simp one_mod (ap (λ (t : ℕ). t % 2 ^ k) (omega arith))

pub mul_comm : (k a b : ℕ) → mul k a b ≡ mul k b a
unfolding mul
mul_comm k a b = ap (λ (t : ℕ). t % 2 ^ k) (omega arith)

pub mul_assoc : (k a b c : ℕ) → mul k (mul k a b) c ≡ mul k a (mul k b c)
mul_assoc k a b c = simp one_mod (ap (λ (t : ℕ). t % 2 ^ k) (omega arith))

pub mul-add : (k a b c : ℕ) → mul k a (add k b c) ≡ add k (mul k a b) (mul k a c)
mul-add k a b c = simp one_mod (ap (λ (t : ℕ). t % 2 ^ k) (omega arith))

-- Subtraction undoes addition.
pub sub-add : (k a b : ℕ) → IsElem k a → add k (sub k a b) b ≡ a
sub-add k a b h = simp one_mod (
    mod-eq_of_multiples (2 ^ k) 0 b (a + minus_one k * b + b) a (rw (pow-eq-suc k) (omega arith))
    ∙ mod-eq_of_lt h)

-- A value and its negative cancel.
pub add-neg : (k a : ℕ) → add k a (neg k a) ≡ 0
add-neg k a = simp one_mod (
    mod-eq_of_multiples (2 ^ k) 0 a (a + minus_one k * a) 0 (rw (pow-eq-suc k) (omega arith))
    ∙ mod-eq_of_lt (pow-pos k))

sub-eq-add-neg : (k a b : ℕ) → sub k a b ≡ add k a (neg k b)
sub-eq-add-neg k a b = simp one_mod

add-zero : (k a : ℕ) → IsElem k a → add k a 0 ≡ a
unfolding add
add-zero k a h = ap (λ (t : ℕ). t % 2 ^ k) (omega arith) ∙ mod-eq_of_lt h

mul-one : (k a : ℕ) → IsElem k a → mul k a 1 ≡ a
unfolding mul
mul-one k a h = ap (λ (t : ℕ). t % 2 ^ k) (omega arith) ∙ mod-eq_of_lt h

-- At every width the wrapping operations obey the laws of a commutative ring, 0 and 1 being
-- neutral for a value of that width, the results fit the width, and subtraction adds the negative.
pub ring_laws :
    (k a b c : ℕ)
    → IsElem k a
    → IsElem k (add k a b)
      × IsElem k (mul k a b)
      × (add k a b ≡ add k b a)
      × (add k (add k a b) c ≡ add k a (add k b c))
      × (add k a 0 ≡ a)
      × (add k a (neg k a) ≡ 0)
      × (sub k a b ≡ add k a (neg k b))
      × (mul k a b ≡ mul k b a)
      × (mul k (mul k a b) c ≡ mul k a (mul k b c))
      × (mul k a 1 ≡ a)
      × (mul k a (add k b c) ≡ add k (mul k a b) (mul k a c))
ring_laws k a b c h = (
  add-IsElem k a b,
  mul-IsElem k a b,
  add_comm k a b,
  add_assoc k a b c,
  add-zero k a h,
  add-neg k a,
  sub-eq-add-neg k a b,
  mul_comm k a b,
  mul_assoc k a b c,
  mul-one k a h,
  mul-add k a b c,
)
