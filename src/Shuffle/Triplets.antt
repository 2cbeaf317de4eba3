-- ===== src/Shuffle/Triplets.antt =====
-- ampc-actor-utils/src/protocol/shuffle.rs: `shuffle_triplets`, and what it does to a sum of
-- vectors. `none` is a panic: a chunk size of zero, or an index out of bounds. The loop over the
-- chunks has fuel for the length of the data.
use ampc_common.Base.{
  ℕ, zero, suc, ◌+◌, ◌*◌, ◌-◌, ◌≤◌, ◌<◌, ◌≡◌, refl, ap, sym, ◌∙◌, arith, some, none, List, [], ◌∷◌,
  ◌++◌, length, get_elem?, Option, ◌==◌, not, false, length-append,
}
use ampc_common.Base.Options.{◌>>=◌, ◌>>◌, assert}
use ampc_common.Ring.{zip_with}

abbrev pub take : ℕ → List ℕ → List ℕ
take zero xs = []
take (suc n) [] = []
take (suc n) (x ∷ xs) = x ∷ take n xs

abbrev pub drop : ℕ → List ℕ → List ℕ
drop zero xs = xs
drop (suc n) [] = []
drop (suc n) (x ∷ xs) = drop n xs

-- The loop over the permutation, on one chunk.
unfoldable pub permute_chunk : List ℕ → List ℕ → Option (List ℕ)
permute_chunk [] batch = some []
permute_chunk (i ∷ perm) batch = do
  a ← get_elem? batch (i * 3)
  b ← get_elem? batch (i * 3 + 1)
  c ← get_elem? batch (i * 3 + 2)
  rest ← permute_chunk perm batch
  some (a ∷ b ∷ c ∷ rest)

unfoldable pub permute_chunks : ℕ → ℕ → List ℕ → List ℕ → Option (List ℕ)
permute_chunks zero size perm values = none
permute_chunks (suc fuel) size perm [] = some []
permute_chunks (suc fuel) size perm (x ∷ xs) = do
  chunk ← permute_chunk perm (take size (x ∷ xs))
  rest ← permute_chunks fuel size perm (drop size (x ∷ xs))
  some (chunk ++ rest)

unfoldable pub shuffle_triplets : List ℕ → List ℕ → ℕ → Option (List ℕ)
shuffle_triplets perm values batch_size = do
  assert (not (batch_size * 3 == 0))
  permute_chunks (suc (length values)) (batch_size * 3) perm values

-- The element at a place, and zero outside of the list.
abbrev pub at : List ℕ → ℕ → ℕ
at [] i = 0
at (x ∷ xs) zero = x
at (x ∷ xs) (suc i) = at xs i

-- The triplets of a batch in the order of the permutation, and those of `n` batches.
abbrev pub permuted_batch : List ℕ → List ℕ → List ℕ
permuted_batch [] batch = []
permuted_batch (i ∷ perm) batch =
    at batch (i * 3) ∷ at batch (i * 3 + 1) ∷ at batch (i * 3 + 2) ∷ permuted_batch perm batch

abbrev pub permuted : ℕ → ℕ → List ℕ → List ℕ → List ℕ
permuted zero size perm values = []
permuted (suc n) size perm values =
    permuted_batch perm (take size values) ++ permuted n size perm (drop size values)

-- Every index of the permutation is below the number of triplets.
abbrev pub AreBelow : ℕ → List ℕ → Type 0
AreBelow n [] = Unit {0}
AreBelow n (i ∷ perm) = (i < n) × AreBelow n perm

get_elem?-at : (xs : List ℕ) (i : ℕ) → i < length xs → get_elem? xs i ≡ some (at xs i)
get_elem?-at [] i h = absurd (omega arith)
get_elem?-at (x ∷ xs) zero h = refl
get_elem?-at (x ∷ xs) (suc i) h = get_elem?-at xs i (omega arith)

at-zip_with :
    (f : ℕ → ℕ → ℕ) (xs ys : List ℕ) (i : ℕ)
    → length ys ≡ length xs
    → i < length xs
    → at (zip_with f xs ys) i ≡ f (at xs i) (at ys i)
unfolding zip_with
at-zip_with f [] ys i l h = absurd (omega arith)
at-zip_with f (x ∷ xs) [] i l h = absurd (omega arith)
at-zip_with f (x ∷ xs) (y ∷ ys) zero l h = refl
at-zip_with f (x ∷ xs) (y ∷ ys) (suc i) l h = at-zip_with f xs ys i (omega arith) (omega arith)

length-take : (n : ℕ) (xs : List ℕ) → n ≤ length xs → length (take n xs) ≡ n
length-take zero xs h = refl
length-take (suc n) [] h = absurd (omega arith)
length-take (suc n) (x ∷ xs) h = ap suc (length-take n xs (omega arith))

length-drop : (n : ℕ) (xs : List ℕ) → length (drop n xs) ≡ length xs - n
length-drop zero xs = omega arith
length-drop (suc n) [] = omega arith
length-drop (suc n) (x ∷ xs) = omega (arith, length-drop n xs)

take-zip_with :
    (f : ℕ → ℕ → ℕ) (n : ℕ) (xs ys : List ℕ)
    → take n (zip_with f xs ys) ≡ zip_with f (take n xs) (take n ys)
unfolding zip_with
take-zip_with f zero xs ys = refl
take-zip_with f (suc n) [] ys = refl
take-zip_with f (suc n) (x ∷ xs) [] = refl
take-zip_with f (suc n) (x ∷ xs) (y ∷ ys) = ap (λ t. f x y ∷ t) (take-zip_with f n xs ys)

drop-zip_with :
    (f : ℕ → ℕ → ℕ) (n : ℕ) (xs ys : List ℕ)
    → length ys ≡ length xs
    → drop n (zip_with f xs ys) ≡ zip_with f (drop n xs) (drop n ys)
unfolding zip_with
drop-zip_with f zero xs ys l = refl
drop-zip_with f (suc n) [] [] l = refl
drop-zip_with f (suc n) [] (y ∷ ys) l = absurd (omega arith)
drop-zip_with f (suc n) (x ∷ xs) [] l = absurd (omega arith)
drop-zip_with f (suc n) (x ∷ xs) (y ∷ ys) l = drop-zip_with f n xs ys (omega arith)

permute_chunk_lem :
    (n : ℕ) (perm batch : List ℕ)
    → AreBelow n perm
    → length batch ≡ n * 3
    → permute_chunk perm batch ≡ some (permuted_batch perm batch)
unfolding permute_chunk
permute_chunk_lem n [] batch h l = refl
permute_chunk_lem n (i ∷ perm) batch h l =
    let below = h.0 in
    rw
      (
        get_elem?-at batch (i * 3) (omega arith),
        get_elem?-at batch (i * 3 + 1) (omega arith),
        get_elem?-at batch (i * 3 + 2) (omega arith),
        permute_chunk_lem n perm batch h.1 l,
      )
      refl

permute_chunks_lem :
    (n batches fuel : ℕ) (perm values : List ℕ)
    → 0 < n
    → AreBelow n perm
    → length values ≡ batches * (n * 3)
    → batches < fuel
    → permute_chunks fuel (n * 3) perm values ≡ some (permuted batches (n * 3) perm values)
unfolding permute_chunks
permute_chunks_lem n batches zero perm values pos h l f = absurd (omega arith)
permute_chunks_lem n zero (suc fuel) perm [] pos h l f = refl
permute_chunks_lem n zero (suc fuel) perm (x ∷ xs) pos h l f = absurd (omega arith)
permute_chunks_lem n (suc batches) (suc fuel) perm [] pos h l f = absurd (omega arith)
permute_chunks_lem n (suc batches) (suc fuel) perm (x ∷ xs) pos h l f =
    let size = n * 3 in
    let here : length (take size (x ∷ xs)) ≡ size = length-take size (x ∷ xs) (omega arith) in
    let there : length (drop size (x ∷ xs)) ≡ batches * size =
      omega (arith, length-drop size (x ∷ xs), l) in
    rw
      (
        permute_chunk_lem n perm (take size (x ∷ xs)) h here,
        permute_chunks_lem n batches fuel perm (drop size (x ∷ xs)) pos h there (omega arith),
      )
      refl

length-permuted_batch : (perm batch : List ℕ) → length (permuted_batch perm batch) ≡ length perm * 3
length-permuted_batch [] batch = refl
length-permuted_batch (i ∷ perm) batch = omega (arith, length-permuted_batch perm batch)

pub length-permuted :
    (batches size : ℕ) (perm values : List ℕ)
    → length (permuted batches size perm values) ≡ batches * (length perm * 3)
length-permuted zero size perm values = omega arith
length-permuted (suc batches) size perm values =
    length-append (permuted_batch perm (take size values))
      (permuted batches size perm (drop size values))
    ∙ omega (
      arith,
      length-permuted_batch perm (take size values),
      length-permuted batches size perm (drop size values),
    )

batches_le : (batches n : ℕ) → 0 < n → batches ≤ batches * (n * 3)
batches_le zero n pos = omega arith
batches_le (suc batches) n pos = omega (arith, batches_le batches n pos)

-- On a number of full batches, and for indices below the batch size, `shuffle_triplets` returns the
-- triplets of every batch in the order of the permutation.
pub shuffle_triplets_lem :
    (n batches : ℕ) (perm values : List ℕ)
    → 0 < n
    → AreBelow n perm
    → length values ≡ batches * (n * 3)
    → shuffle_triplets perm values n ≡ some (permuted batches (n * 3) perm values)
unfolding shuffle_triplets
shuffle_triplets_lem n batches perm values pos h l =
    let fits = batches_le batches n pos in
    let full : (n * 3 == 0) ≡ false = ground arith in
    rw full (permute_chunks_lem n batches (suc (length values)) perm values pos h l (omega arith))

zip_with-append :
    (f : ℕ → ℕ → ℕ) (xs ys zs ws : List ℕ)
    → length xs ≡ length zs
    → zip_with f (xs ++ ys) (zs ++ ws) ≡ zip_with f xs zs ++ zip_with f ys ws
unfolding zip_with
zip_with-append f [] ys [] ws l = refl
zip_with-append f [] ys (z ∷ zs) ws l = absurd (omega arith)
zip_with-append f (x ∷ xs) ys [] ws l = absurd (omega arith)
zip_with-append f (x ∷ xs) ys (z ∷ zs) ws l =
    ap (λ t. f x z ∷ t) (zip_with-append f xs ys zs ws (omega arith))

permuted_batch-zip_with :
    (f : ℕ → ℕ → ℕ) (n : ℕ) (perm xs ys : List ℕ)
    → AreBelow n perm
    → length xs ≡ n * 3
    → length ys ≡ length xs
    → permuted_batch perm (zip_with f xs ys)
      ≡ zip_with f (permuted_batch perm xs) (permuted_batch perm ys)
unfolding zip_with
permuted_batch-zip_with f n [] xs ys h l l' = refl
permuted_batch-zip_with f n (i ∷ perm) xs ys h l l' =
    let below = h.0 in
    rw
      (
        at-zip_with f xs ys (i * 3) l' (omega arith),
        at-zip_with f xs ys (i * 3 + 1) l' (omega arith),
        at-zip_with f xs ys (i * 3 + 2) l' (omega arith),
        permuted_batch-zip_with f n perm xs ys h.1 l l',
      )
      refl

-- An operation on two vectors, place by place, may be done before or after the permutation.
pub permuted-zip_with :
    (f : ℕ → ℕ → ℕ) (n batches : ℕ) (perm xs ys : List ℕ)
    → AreBelow n perm
    → length xs ≡ batches * (n * 3)
    → length ys ≡ length xs
    → permuted batches (n * 3) perm (zip_with f xs ys)
      ≡ zip_with f (permuted batches (n * 3) perm xs) (permuted batches (n * 3) perm ys)
unfolding zip_with
permuted-zip_with f n zero perm xs ys h l l' = refl
permuted-zip_with f n (suc batches) perm xs ys h l l' =
    let size = n * 3 in
    let here = length-take size xs (omega arith) in
    let here' = length-take size ys (omega arith) in
    let there : length (drop size xs) ≡ batches * size = omega (arith, length-drop size xs, l) in
    let there' : length (drop size ys) ≡ length (drop size xs) =
      omega (arith, length-drop size xs, length-drop size ys, l') in
    rw
      (
        take-zip_with f size xs ys,
        drop-zip_with f size xs ys l',
        permuted_batch-zip_with f n perm (take size xs) (take size ys) h here (here' ∙ sym here),
        permuted-zip_with f n batches perm (drop size xs) (drop size ys) h there there',
      )
      (sym (
        zip_with-append f (permuted_batch perm (take size xs))
          (permuted batches size perm (drop size xs)) (permuted_batch perm (take size ys))
          (permuted batches size perm (drop size ys))
          (length-permuted_batch perm (take size xs)
            ∙ sym (length-permuted_batch perm (take size ys)))))
