-- ===== src/Shuffle/Shared.antt =====
-- The rounds of the shuffle permute the shared values.
use ampc_common.Base.{
  ℕ, ◌+◌, ◌*◌, ◌^◌, ◌<◌, ◌≡◌, refl, ap, ap₂, sym, ◌∙◌, arith, some, List, [], ◌∷◌, length,
}
use ampc_common.Base.Mod.{mod-eq_of_multiples, pow-eq-suc, minus_one}
use ampc_common.Ring
use ampc_common.Ring.{zip_with, vec_add, vec_sub}
use ampc_common.Ring.Laws.{one_mod}
use ampc_common.Ring.Vectors.{vec_add_lem, vec_sub_lem, length-zip_with}
use ampc_common.Shuffle.Triplets.{
  AreBelow, permuted, length-permuted, shuffle_triplets_lem, permuted-zip_with,
}
use ampc_common.Shuffle.Rounds.{compute_x1, compute_y0, compute_x2, compute_y2}

-- A mask that is added on one side and subtracted on the other cancels.
masks_cancel_mod : (k u v z : ℕ) → Ring.add k (Ring.add k u z) (Ring.sub k v z) ≡ Ring.add k u v
masks_cancel_mod k u v z = simp one_mod (
    mod-eq_of_multiples (2 ^ k) 0 z (u + z + (v + minus_one k * z)) (u + v)
      (omega (arith, ap (λ (t : ℕ). z * t) (pow-eq-suc k))))

masks_cancel :
    (k : ℕ) (us vs zs : List ℕ)
    → length vs ≡ length us
    → length zs ≡ length us
    → zip_with (Ring.add k) (zip_with (Ring.add k) us zs) (zip_with (Ring.sub k) vs zs)
      ≡ zip_with (Ring.add k) us vs
unfolding zip_with
masks_cancel k [] [] [] l l' = refl
masks_cancel k [] (v ∷ vs) zs l l' = absurd (omega arith)
masks_cancel k [] [] (z ∷ zs) l l' = absurd (omega arith)
masks_cancel k (u ∷ us) [] zs l l' = absurd (omega arith)
masks_cancel k (u ∷ us) (v ∷ vs) [] l l' = absurd (omega arith)
masks_cancel k (u ∷ us) (v ∷ vs) (z ∷ zs) l l' =
    ap₂ (λ t ts. t ∷ ts) (masks_cancel_mod k u v z)
      (masks_cancel k us vs zs (omega arith) (omega arith))

module _ (k n batches : ℕ) where
  -- A permutation of the indices below `n`, as a list.
  abbrev IsOrder : List ℕ → Type 0
  IsOrder perm = AreBelow n perm × (length perm ≡ n)

  abbrev IsFull : List ℕ → Type 0
  IsFull xs = length xs ≡ batches * (n * 3)

  abbrev permute_all : List ℕ → List ℕ → List ℕ
  permute_all perm xs = permuted batches (n * 3) perm xs

  IsFull-permute_all : (perm xs : List ℕ) → IsOrder perm → IsFull (permute_all perm xs)
  IsFull-permute_all perm xs h =
      length-permuted batches (n * 3) perm xs ∙ ap (λ t. batches * (t * 3)) h.1

  IsFull-zip_with :
      (f : ℕ → ℕ → ℕ) (xs ys : List ℕ) → IsFull xs → IsFull ys → IsFull (zip_with f xs ys)
  IsFull-zip_with f xs ys h h' = length-zip_with f xs ys (h ∙ sym h') ∙ h

  -- One round on the two parts of a sum, with the mask that the two sides share.
  round_lem :
      (perm us vs zs : List ℕ)
      → IsOrder perm
      → IsFull us
      → IsFull vs
      → IsFull zs
      → zip_with
          (Ring.add k)
          (permute_all perm (zip_with (Ring.add k) us zs))
          (permute_all perm (zip_with (Ring.sub k) vs zs))
        ≡ permute_all perm (zip_with (Ring.add k) us vs)
  round_lem perm us vs zs h hu hv hz =
      let left = zip_with (Ring.add k) us zs in
      let right = zip_with (Ring.sub k) vs zs in
      let hl = IsFull-zip_with (Ring.add k) us zs hu hz in
      let hr = IsFull-zip_with (Ring.sub k) vs zs hv hz in
      sym (permuted-zip_with (Ring.add k) n batches perm left right h.0 hl (hr ∙ sym hl))
      ∙ ap (λ t. permute_all perm t) (masks_cancel k us vs zs (hv ∙ sym hu) (hz ∙ sym hu))

  -- For full batches and three orders of a batch, the two sums that party 1 and party 2 end with
  -- add up to the shared values in the order of the three.
  pub compute_sum :
      (pi_01 pi_20 pi_12 a b c z01 z20 z12 : List ℕ)
      → 0 < n
      → IsOrder pi_01
      → IsOrder pi_20
      → IsOrder pi_12
      → IsFull a
      → IsFull b
      → IsFull c
      → IsFull z01
      → IsFull z20
      → IsFull z12
      → (x1 : List ℕ) × (y0 : List ℕ) × (x2 : List ℕ) × (y2 : List ℕ) × (compute_x1 k n pi_01 pi_20
            a b z01 z20
          ≡ some x1)
        × (compute_y0 k n pi_01 c z01 ≡ some y0)
        × (compute_x2 k n pi_12 x1 z12 ≡ some x2)
        × (compute_y2 k n pi_20 pi_12 y0 z20 z12 ≡ some y2)
        × IsFull x2
        × IsFull y2
        × (zip_with (Ring.add k) x2 y2
            ≡ permute_all pi_12 (
                permute_all pi_20
                  (permute_all pi_01 (zip_with (Ring.add k) (zip_with (Ring.add k) a b) c))))
  unfolding compute_x1 compute_y0 compute_x2 compute_y2
  compute_sum pi_01 pi_20 pi_12 a b c z01 z20 z12 pos h01 h20 h12 ha hb hc k01 k20 k12 =
      let ab = zip_with (Ring.add k) a b in
      let hab = IsFull-zip_with (Ring.add k) a b ha hb in
      let abz = zip_with (Ring.add k) ab z01 in
      let habz = IsFull-zip_with (Ring.add k) ab z01 hab k01 in
      let x0 = permute_all pi_01 abz in
      let hx0 = IsFull-permute_all pi_01 abz h01 in
      let x0z = zip_with (Ring.add k) x0 z20 in
      let hx0z = IsFull-zip_with (Ring.add k) x0 z20 hx0 k20 in
      let x1 = permute_all pi_20 x0z in
      let hx1 = IsFull-permute_all pi_20 x0z h20 in
      let cz = zip_with (Ring.sub k) c z01 in
      let hcz = IsFull-zip_with (Ring.sub k) c z01 hc k01 in
      let y0 = permute_all pi_01 cz in
      let hy0 = IsFull-permute_all pi_01 cz h01 in
      let x1z = zip_with (Ring.add k) x1 z12 in
      let hx1z = IsFull-zip_with (Ring.add k) x1 z12 hx1 k12 in
      let x2 = permute_all pi_12 x1z in
      let y0z = zip_with (Ring.sub k) y0 z20 in
      let hy0z = IsFull-zip_with (Ring.sub k) y0 z20 hy0 k20 in
      let y1 = permute_all pi_20 y0z in
      let hy1 = IsFull-permute_all pi_20 y0z h20 in
      let y1z = zip_with (Ring.sub k) y1 z12 in
      let hy1z = IsFull-zip_with (Ring.sub k) y1 z12 hy1 k12 in
      let y2 = permute_all pi_12 y1z in
      (
        x1,
        y0,
        x2,
        y2,
        rw
            (
              vec_add_lem k a b (ha ∙ sym hb),
              vec_add_lem k ab z01 (hab ∙ sym k01),
              shuffle_triplets_lem n batches pi_01 abz pos h01.0 habz,
              vec_add_lem k x0 z20 (hx0 ∙ sym k20),
              shuffle_triplets_lem n batches pi_20 x0z pos h20.0 hx0z,
            )
            refl,
        rw
            (
              vec_sub_lem k c z01 (hc ∙ sym k01),
              shuffle_triplets_lem n batches pi_01 cz pos h01.0 hcz,
            )
            refl,
        rw
            (
              vec_add_lem k x1 z12 (hx1 ∙ sym k12),
              shuffle_triplets_lem n batches pi_12 x1z pos h12.0 hx1z,
            )
            refl,
        rw
            (
              vec_sub_lem k y0 z20 (hy0 ∙ sym k20),
              shuffle_triplets_lem n batches pi_20 y0z pos h20.0 hy0z,
              vec_sub_lem k y1 z12 (hy1 ∙ sym k12),
              shuffle_triplets_lem n batches pi_12 y1z pos h12.0 hy1z,
            )
            refl,
        IsFull-permute_all pi_12 x1z h12,
        IsFull-permute_all pi_12 y1z h12,
        round_lem pi_12 x1 y1 z12 h12 hx1 hy1 k12
            ∙ ap (λ t. permute_all pi_12 t) (round_lem pi_20 x0 y0 z20 h20 hx0 hy0 k20)
            ∙ ap (λ t. permute_all pi_12 (permute_all pi_20 t))
                (round_lem pi_01 ab c z01 h01 hab hc k01),
      )
