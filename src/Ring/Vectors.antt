-- ===== src/Ring/Vectors.antt =====
-- The operators of `VecRingElement` fail on different lengths and else work element by element.
use ampc_common.Base.{
  ℕ, suc, ◌≡◌, ◌≢◌, refl, ap, arith, List, [], ◌∷◌, length, none, some, ◌⊎◌, inl, inr, ap₂,
  ℕ_discrete, ◌==◌, true,
}
use ampc_common.Ring.Laws.{sub-add}
use ampc_common.Ring.{IsElem, add, sub, mul, zip_with, vec_add, vec_sub, vec_mul}

pub length-zip_with {ℓ κ μ} :
    {A : Type ℓ} {B : Type κ} {C : Type μ} (f : A → B → C) (xs : List A) (ys : List B)
    → length xs ≡ length ys
    → length (zip_with f xs ys) ≡ length xs
unfolding zip_with
length-zip_with f [] [] h = refl
length-zip_with f [] (y ∷ ys) h = absurd (omega arith)
length-zip_with f (x ∷ xs) [] h = absurd (omega arith)
length-zip_with f (x ∷ xs) (y ∷ ys) h = ap suc (length-zip_with f xs ys (omega arith))

-- On vectors of one length the operators have no error.
pub vec_add_lem :
    (k : ℕ) (xs ys : List ℕ)
    → length xs ≡ length ys
    → vec_add k xs ys ≡ some (zip_with (add k) xs ys)
unfolding vec_add
vec_add_lem k xs ys h = let same : (length xs == length ys) ≡ true = ground arith in rw same refl

pub vec_sub_lem :
    (k : ℕ) (xs ys : List ℕ)
    → length xs ≡ length ys
    → vec_sub k xs ys ≡ some (zip_with (sub k) xs ys)
unfolding vec_sub
vec_sub_lem k xs ys h = let same : (length xs == length ys) ≡ true = ground arith in rw same refl

pub vec_mul_lem :
    (k : ℕ) (xs ys : List ℕ)
    → length xs ≡ length ys
    → vec_mul k xs ys ≡ some (zip_with (mul k) xs ys)
unfolding vec_mul
vec_mul_lem k xs ys h = let same : (length xs == length ys) ≡ true = ground arith in rw same refl

-- Every element of the list fits `k` bits.
abbrev pub AreElems : ℕ → List ℕ → Type 0
AreElems k [] = Unit {0}
AreElems k (x ∷ xs) = IsElem k x × AreElems k xs

zip_with-sub-add :
    (k : ℕ) (xs ys : List ℕ)
    → length xs ≡ length ys
    → AreElems k xs
    → zip_with (add k) (zip_with (sub k) xs ys) ys ≡ xs
unfolding zip_with
zip_with-sub-add k [] [] h e = refl
zip_with-sub-add k [] (y ∷ ys) h e = refl
zip_with-sub-add k (x ∷ xs) [] h e = absurd (omega arith)
zip_with-sub-add k (x ∷ xs) (y ∷ ys) h e =
    ap₂ ◌∷◌ (sub-add k x y e.0) (zip_with-sub-add k xs ys (omega arith) e.1)

-- Vector subtraction of equally long vectors succeeds, and adding the subtrahend back gives the
-- minuend; on different lengths it is an error.
pub vec_sub-vec_add :
    (k : ℕ) (xs ys : List ℕ)
    → AreElems k xs
    → ((length xs ≢ length ys) × (vec_sub k xs ys ≡ none))
      ⊎ ((d : List ℕ) × (vec_sub k xs ys ≡ some d) × (vec_add k d ys ≡ some xs))
vec_sub-vec_add k xs ys e = elim (ℕ_discrete (length xs) (length ys)) [
  | yes h ↦ inr (zip_with (sub k) xs ys, succeeds h, back h)
  | no h ↦ inl (h, unfold vec_sub in ground arith)
]
  where
    succeeds : length xs ≡ length ys → vec_sub k xs ys ≡ some (zip_with (sub k) xs ys)
    succeeds h = unfold vec_sub in ground arith

    back : length xs ≡ length ys → vec_add k (zip_with (sub k) xs ys) ys ≡ some xs
    back h =
        unfold vec_add in
        ground (arith, length-zip_with (sub k) xs ys h, zip_with-sub-add k xs ys h e)
