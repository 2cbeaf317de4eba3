-- ===== src/Base/Equality.antt =====
-- Rust's `==`, for the types whose equality is tested.
use Prim.Native.Nat.{ℕ}
use Prim.Native.String.{String}
use mathlib.Core.Path.{◌≡◌, refl, ap}
use mathlib.Core.Logic.{◌↔◌}
use mathlib.Core.Bool.{Bool, true, false}
use mathlib.Core.Option.{Option, none, some}
use text.Mathlib.Text
use text.Mathlib.TextEquality.{eq_iff}
use ampc_common.Base.Tests
use ampc_common.Base.Tests.{==_iff, some_inj}

pub record Eq {ℓ} (A : Type ℓ) : Type ℓ where
  pub test : A → A → Bool
  pub test_iff : (a b : A) → (test a b ≡ true) ↔ (a ≡ b)

module _ {ℓ} {A : Type ℓ} ⦃e : Eq A⦄ where
  infix 50 ◌=?◌
  abbrev pub ◌=?◌ : A → A → Bool
  a =? b = e.test a b

  pub same_equal : (a b : A) → (a =? b) ≡ true → a ≡ b
  same_equal a b h = (e.test_iff a b).0 h

  pub same_refl : (a : A) → (a =? a) ≡ true
  same_refl a = (e.test_iff a a).1 refl

  unfoldable pub option_test : Option A → Option A → Bool
  option_test none none = true
  option_test none (some b) = false
  option_test (some a) none = false
  option_test (some a) (some b) = a =? b

  pub option_test_iff : (x y : Option A) → (option_test x y ≡ true) ↔ (x ≡ y)
  unfolding option_test
  option_test_iff none none = (λ _. refl, λ _. refl)
  option_test_iff none (some b) = (λ h. cc, λ h. cc)
  option_test_iff (some a) none = (λ h. cc, λ h. cc)
  option_test_iff (some a) (some b) =
      (λ h. ap some (same_equal a b h), λ h. (e.test_iff a b).1 (some_inj a b h))

  instance unfoldable pub option_eq : Eq (Option A)
  option_eq = record { test = option_test; test_iff = option_test_iff }

instance unfoldable pub nat_eq : Eq ℕ
nat_eq = record { test = Tests.◌==◌; test_iff = ==_iff }

instance unfoldable pub string_eq : Eq String
string_eq = record { test = Text.◌==◌; test_iff = eq_iff }

abbrev pub bool_test : Bool → Bool → Bool
bool_test true b = b
bool_test false true = false
bool_test false false = true

pub bool_test_iff : (a b : Bool) → (bool_test a b ≡ true) ↔ (a ≡ b)
bool_test_iff true true = (λ _. refl, λ _. refl)
bool_test_iff true false = (λ h. cc, λ h. cc)
bool_test_iff false true = (λ h. cc, λ h. cc)
bool_test_iff false false = (λ _. refl, λ _. refl)

instance unfoldable pub bool_eq : Eq Bool
bool_eq = record { test = bool_test; test_iff = bool_test_iff }
