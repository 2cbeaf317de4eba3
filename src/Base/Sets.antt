-- ===== src/Base/Sets.antt =====
-- Hash sets and hash maps over numbers: a set is a list, and what is said of it is said by `count`;
-- a map is a list of keys and values.
use Prim.Native.Nat.{ℕ, zero, suc, ◌+◌, ◌≤◌}
use mathlib.Core.Path.{◌≡◌, refl}
use mathlib.Core.Bool.{Bool, true, false}
use mathlib.Core.List.{List, [], ◌∷◌, ◌++◌}
use mathlib.Core.Option.{Option, none, some}
use native.Mathlib.Omega.{arith}
use ampc_common.Base.Tests.{◌==◌, if◌then◌else◌}

abbrev pub contains : ℕ → List ℕ → Bool
contains a [] = false
contains a (x ∷ xs) = if x == a then true else contains a xs

unfoldable pub remove : ℕ → List ℕ → List ℕ
remove a [] = []
remove a (x ∷ xs) = if x == a then remove a xs else x ∷ remove a xs

unfoldable pub insert : ℕ → List ℕ → List ℕ
insert a xs = if contains a xs then xs else a ∷ xs

unfoldable pub is_empty {ℓ} : {A : Type ℓ} → List A → Bool
is_empty [] = true
is_empty (x ∷ xs) = false

-- How often a number occurs; at most once in a set.
unfoldable pub count : ℕ → List ℕ → ℕ
count a [] = 0
count a (x ∷ xs) = (if x == a then 1 else 0) + count a xs

-- The numbers below `n`.
unfoldable pub range : ℕ → List ℕ
range zero = []
range (suc n) = n ∷ range n

pub count-remove :
    (a b : ℕ) (xs : List ℕ) → count a (remove b xs) ≡ (if b == a then 0 else count a xs)
unfolding count remove
count-remove a b [] = ground arith
count-remove a b (x ∷ xs) = ground (arith, count-remove a b xs)

pub count-contains : (a : ℕ) (xs : List ℕ) → (contains a xs ≡ false) → count a xs ≡ 0
unfolding count
count-contains a [] h = refl
count-contains a (x ∷ xs) h = ground (arith, count-contains a xs)

pub contains-count : (a : ℕ) (xs : List ℕ) → (contains a xs ≡ true) → 1 ≤ count a xs
unfolding count
contains-count a [] h = cc
contains-count a (x ∷ xs) h = ground (arith, contains-count a xs)

pub count-contains-not : (a : ℕ) (xs : List ℕ) → count a xs ≡ 0 → contains a xs ≡ false
unfolding count
count-contains-not a [] h = refl
count-contains-not a (x ∷ xs) h = ground (arith, count-contains-not a xs)

pub count-insert :
    (a b : ℕ) (xs : List ℕ)
    → count a (insert b xs) ≡ (if contains b xs then count a xs else count a (b ∷ xs))
unfolding insert count
count-insert a b xs = ground arith

pub count-append : (a : ℕ) (xs ys : List ℕ) → count a (xs ++ ys) ≡ count a xs + count a ys
unfolding count
count-append a [] ys = omega arith
count-append a (x ∷ xs) ys = omega (arith, count-append a xs ys)

module _ {ℓ} {V : Type ℓ} where
  unfoldable pub lookup : ℕ → List (ℕ × V) → Option V
  lookup k [] = none
  lookup k ((j, v) ∷ m) = if j == k then some v else lookup k m

  -- `insert` of a map: a value under the key is replaced.
  unfoldable pub put : ℕ → V → List (ℕ × V) → List (ℕ × V)
  put k v [] = (k, v) ∷ []
  put k v ((j, w) ∷ m) = if j == k then (k, v) ∷ m else (j, w) ∷ put k v m

  unfoldable pub delete : ℕ → List (ℕ × V) → List (ℕ × V)
  delete k [] = []
  delete k ((j, w) ∷ m) = if j == k then delete k m else (j, w) ∷ delete k m

  unfoldable pub keys : List (ℕ × V) → List ℕ
  keys [] = []
  keys ((j, v) ∷ m) = j ∷ keys m

  unfoldable pub values : List (ℕ × V) → List V
  values [] = []
  values ((j, v) ∷ m) = v ∷ values m

  pub lookup-put :
      (k j : ℕ) (v : V) (m : List (ℕ × V))
      → lookup j (put k v m) ≡ (if k == j then some v else lookup j m)
  unfolding lookup put
  lookup-put k j v [] = refl
  lookup-put k j v ((i, w) ∷ m) = ground (arith, lookup-put k j v m)

  pub lookup-delete :
      (k j : ℕ) (m : List (ℕ × V)) → lookup j (delete k m) ≡ (if k == j then none else lookup j m)
  unfolding lookup delete
  lookup-delete k j [] = ground arith
  lookup-delete k j ((i, w) ∷ m) = ground (arith, lookup-delete k j m)

  pub keys-put :
      (k a : ℕ) (v : V) (m : List (ℕ × V))
      → count k (keys m) ≡ 0
      → count a (keys (put k v m)) ≡ (if k == a then 1 else 0) + count a (keys m)
  unfolding keys put count
  keys-put k a v [] h = refl
  keys-put k a v ((i, w) ∷ m) h = ground (arith, keys-put k a v m)

  pub keys-put-other :
      (k a : ℕ) (v : V) (m : List (ℕ × V))
      → (k == a) ≡ false
      → count a (keys (put k v m)) ≡ count a (keys m)
  unfolding keys put count
  keys-put-other k a v [] h = ground arith
  keys-put-other k a v ((i, w) ∷ m) h = ground (arith, keys-put-other k a v m)

  pub keys-delete :
      (k a : ℕ) (m : List (ℕ × V))
      → count a (keys (delete k m)) ≡ (if k == a then 0 else count a (keys m))
  unfolding keys delete count
  keys-delete k a [] = ground arith
  keys-delete k a ((i, w) ∷ m) = ground (arith, keys-delete k a m)

count-range-above : (a n : ℕ) → n ≤ a → count a (range n) ≡ 0
unfolding count range
count-range-above a zero le = refl
count-range-above a (suc n) le = ground (arith, count-range-above a n)

pub count-range : (a n : ℕ) → count a (range n) ≤ 1
unfolding count range
count-range a zero = omega arith
count-range a (suc n) = ground (arith, count-range a n, count-range-above a n)

module _ {ℓ} {V : Type ℓ} where
  pub lookup-put-same : (k : ℕ) (v : V) (m : List (ℕ × V)) → lookup k (put k v m) ≡ some v
  lookup-put-same k v m = ground (arith, lookup-put k k v m)

  pub lookup-delete-same : (k : ℕ) (m : List (ℕ × V)) → lookup k (delete k m) ≡ none
  lookup-delete-same k m = ground (arith, lookup-delete k k m)

pub contains-remove : (a : ℕ) (xs : List ℕ) → contains a (remove a xs) ≡ false
unfolding remove
contains-remove a [] = refl
contains-remove a (x ∷ xs) = ground (arith, contains-remove a xs)
