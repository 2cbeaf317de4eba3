-- ===== src/Base/Bytes.antt =====
-- Byte buffers as lists of numbers, little-endian integers, and readers that may fail.
use Prim.Native.Nat.{ℕ, zero, suc, ◌+◌, ◌-◌, ◌*◌, ◌/◌, ◌%◌, ◌^◌, ◌≤◌, ◌<◌}
use mathlib.Core.Path.{◌≡◌, refl, ap, ◌∙◌}
use mathlib.Core.Bool.{Bool, true, false}
use mathlib.Core.List.{List, [], ◌∷◌, ◌++◌}
use native.Mathlib.Omega.{arith}
use native.Mathlib.Nat.{pow-suc}
use ampc_common.Base.Lists.{length, length-append}

-- A value, an error that the code returns, or a panic.
pub data Read {ℓ} (A : Type ℓ) : Type ℓ where
  ok : A → Read A
  bail : Read A
  panic : Read A

infixl 5 ◌>>=◌ ◌>>◌
abbrev pub ◌>>=◌ {ℓ κ} : {A : Type ℓ} {B : Type κ} → Read A → (A → Read B) → Read B
ok a >>= f = f a
bail >>= f = bail
panic >>= f = panic

abbrev pub ◌>>◌ {ℓ} : {B : Type ℓ} → Read (Unit {0}) → Read B → Read B
m >> k = m >>= λ _. k

-- `ensure!`, or a `bail!` on the negated condition.
abbrev pub ensure : Bool → Read (Unit {0})
ensure true = ok tt
ensure false = bail

-- What a slice expression checks.
abbrev pub in_range : Bool → Read (Unit {0})
in_range true = ok tt
in_range false = panic

pub bail-neq-ok {ℓ} : {A : Type ℓ} (a : A) → bail ≡ ok a → ⊥
bail-neq-ok a h = cc

pub panic-neq-ok {ℓ} : {A : Type ℓ} (a : A) → panic ≡ ok a → ⊥
panic-neq-ok a h = cc

-- A chain that gives a result had one at its first step.
pub bind-ok {ℓ κ} :
    {A : Type ℓ} {B : Type κ} (m : Read A) (f : A → Read B) (b : B)
    → (m >>= f) ≡ ok b
    → (a : A) × (m ≡ ok a) × (f a ≡ ok b)
bind-ok (ok a) f b h = (a, refl, h)
bind-ok bail f b h = absurd (bail-neq-ok b h)
bind-ok panic f b h = absurd (panic-neq-ok b h)

pub ok_inj {ℓ} : {A : Type ℓ} (x y : A) → ok x ≡ ok y → x ≡ y
ok_inj x y h = cc

module _ {ℓ} {A : Type ℓ} where
  unfoldable pub take : ℕ → List A → List A
  take zero xs = []
  take (suc n) [] = []
  take (suc n) (x ∷ xs) = x ∷ take n xs

  unfoldable pub drop : ℕ → List A → List A
  drop zero xs = xs
  drop (suc n) [] = []
  drop (suc n) (x ∷ xs) = drop n xs

  pub take-append : (n : ℕ) (xs ys : List A) → length xs ≡ n → take n (xs ++ ys) ≡ xs
  unfolding take
  take-append zero [] ys h = refl
  take-append zero (x ∷ xs) ys h = absurd (omega arith)
  take-append (suc n) [] ys h = absurd (omega arith)
  take-append (suc n) (x ∷ xs) ys h = ap (λ t. x ∷ t) (take-append n xs ys (omega arith))

  pub drop-append : (n : ℕ) (xs ys : List A) → length xs ≡ n → drop n (xs ++ ys) ≡ ys
  unfolding drop
  drop-append zero [] ys h = refl
  drop-append zero (x ∷ xs) ys h = absurd (omega arith)
  drop-append (suc n) [] ys h = absurd (omega arith)
  drop-append (suc n) (x ∷ xs) ys h = drop-append n xs ys (omega arith)

  pub take_all : (n : ℕ) (xs : List A) → length xs ≡ n → take n xs ≡ xs
  unfolding take
  take_all zero [] h = refl
  take_all zero (x ∷ xs) h = absurd (omega arith)
  take_all (suc n) [] h = absurd (omega arith)
  take_all (suc n) (x ∷ xs) h = ap (λ t. x ∷ t) (take_all n xs (omega arith))

  pub take_short : (n : ℕ) (xs : List A) → length xs ≤ n → take n xs ≡ xs
  unfolding take
  take_short zero [] h = refl
  take_short zero (x ∷ xs) h = absurd (omega arith)
  take_short (suc n) [] h = refl
  take_short (suc n) (x ∷ xs) h = ap (λ t. x ∷ t) (take_short n xs (omega arith))

  pub append-take-drop : (n : ℕ) (xs : List A) → take n xs ++ drop n xs ≡ xs
  unfolding take drop
  append-take-drop zero xs = refl
  append-take-drop (suc n) [] = refl
  append-take-drop (suc n) (x ∷ xs) = ap (λ t. x ∷ t) (append-take-drop n xs)

  pub take-append_less : (n : ℕ) (xs ys : List A) → n ≤ length xs → take n (xs ++ ys) ≡ take n xs
  unfolding take
  take-append_less zero xs ys h = refl
  take-append_less (suc n) [] ys h = absurd (omega arith)
  take-append_less (suc n) (x ∷ xs) ys h = ap (λ t. x ∷ t) (take-append_less n xs ys (omega arith))

  pub take-append_more :
      (n : ℕ) (xs ys : List A) → length xs ≤ n → take n (xs ++ ys) ≡ xs ++ take (n - length xs) ys
  unfolding take
  take-append_more n [] ys h = ap (λ m. take m ys) (omega arith)
  take-append_more zero (x ∷ xs) ys h = absurd (omega arith)
  take-append_more (suc n) (x ∷ xs) ys h =
      ap (λ t. x ∷ t)
        (take-append_more n xs ys (omega arith) ∙ ap (λ m. xs ++ take m ys) (omega arith))

  pub length-take : (n : ℕ) (xs : List A) → n ≤ length xs → length (take n xs) ≡ n
  unfolding take
  length-take zero xs h = refl
  length-take (suc n) [] h = absurd (omega arith)
  length-take (suc n) (x ∷ xs) h = ap suc (length-take n xs (omega arith))

  pub length-drop : (n : ℕ) (xs : List A) → length (drop n xs) ≡ length xs - n
  unfolding drop
  length-drop zero xs = omega arith
  length-drop (suc n) [] = omega arith
  length-drop (suc n) (x ∷ xs) = omega (arith, length-drop n xs)

-- The `w` lowest bytes of a number, lowest first.
unfoldable pub to_le_bytes : ℕ → ℕ → List ℕ
to_le_bytes zero x = []
to_le_bytes (suc w) x = x % 256 ∷ to_le_bytes w (x / 256)

unfoldable pub from_le_bytes : List ℕ → ℕ
from_le_bytes [] = 0
from_le_bytes (b ∷ bs) = b + 256 * from_le_bytes bs

pub length-to_le_bytes : (w x : ℕ) → length (to_le_bytes w x) ≡ w
unfolding to_le_bytes
length-to_le_bytes zero x = refl
length-to_le_bytes (suc w) x = ap suc (length-to_le_bytes w (x / 256))

pub from_le_bytes-to_le_bytes : (w x : ℕ) → x < 256 ^ w → from_le_bytes (to_le_bytes w x) ≡ x
unfolding to_le_bytes from_le_bytes
from_le_bytes-to_le_bytes zero x h = omega arith
from_le_bytes-to_le_bytes (suc w) x h =
    let rest = from_le_bytes-to_le_bytes w (x / 256) (omega (arith, pow-suc 256 w)) in
    omega (arith, rest)

-- The elements of a vector one after another, each in `w` bytes, and back.
unfoldable pub elems_to_bytes : ℕ → List ℕ → List ℕ
elems_to_bytes w [] = []
elems_to_bytes w (x ∷ xs) = to_le_bytes w x ++ elems_to_bytes w xs

unfoldable pub elems_from_bytes : ℕ → ℕ → List ℕ → List ℕ
elems_from_bytes w zero bytes = []
elems_from_bytes w (suc n) bytes =
    from_le_bytes (take w bytes) ∷ elems_from_bytes w n (drop w bytes)

pub length-elems_to_bytes : (w : ℕ) (xs : List ℕ) → length (elems_to_bytes w xs) ≡ length xs * w
unfolding elems_to_bytes
length-elems_to_bytes w [] = omega arith
length-elems_to_bytes w (x ∷ xs) = omega (
  arith,
  length-append (to_le_bytes w x) (elems_to_bytes w xs),
  length-to_le_bytes w x,
  length-elems_to_bytes w xs,
)

-- Every element fits `w` bytes.
abbrev pub FitBytes : ℕ → List ℕ → Type 0
FitBytes w [] = Unit {0}
FitBytes w (x ∷ xs) = (x < 256 ^ w) × FitBytes w xs

pub elems_from_bytes-elems_to_bytes :
    (w : ℕ) (xs : List ℕ)
    → FitBytes w xs
    → elems_from_bytes w (length xs) (elems_to_bytes w xs) ≡ xs
unfolding elems_from_bytes elems_to_bytes
elems_from_bytes-elems_to_bytes w [] h = refl
elems_from_bytes-elems_to_bytes w (x ∷ xs) h =
    rw
      (
        take-append w (to_le_bytes w x) (elems_to_bytes w xs) (length-to_le_bytes w x),
        drop-append w (to_le_bytes w x) (elems_to_bytes w xs) (length-to_le_bytes w x),
        from_le_bytes-to_le_bytes w x h.0,
      )
      (ap (λ t. x ∷ t) (elems_from_bytes-elems_to_bytes w xs h.1))
