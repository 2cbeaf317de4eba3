-- ===== src/Shuffle/Rounds.antt =====
-- ampc-actor-utils/src/protocol/shuffle.rs: the three parties of `random_shuffle_batch`, cut at the
-- network. `draw` is the generator of ring elements. `none` is an error or a panic of the code
-- called.
use ampc_common.Base.{ℕ, zero, suc, ◌*◌, ◌%◌, ◌^◌, Option, some, List, [], ◌∷◌, length}
use ampc_common.Base.Options.{◌>>=◌}
use ampc_common.Ring.{vec_add, vec_sub}
use ampc_common.Share.{Share, DistanceShare, reconstruct_id_distance_vector}
use ampc_common.Protocol.{Prf}
use ampc_common.Shuffle.{gen_permutation}
use ampc_common.Shuffle.Triplets.{shuffle_triplets}

unfoldable pub flatten_a : List (Share × DistanceShare) → List ℕ
flatten_a [] = []
flatten_a ((id, dist) ∷ distances) = id.a ∷ dist.code_dot.a ∷ dist.mask_dot.a ∷ flatten_a distances

unfoldable pub flatten_b : List (Share × DistanceShare) → List ℕ
flatten_b [] = []
flatten_b ((id, dist) ∷ distances) = id.b ∷ dist.code_dot.b ∷ dist.mask_dot.b ∷ flatten_b distances

-- X1 from X0 on, Y0, X2 and Y2, in the names of the source.
unfoldable pub compute_x1 :
    ℕ → ℕ → (pi_01 pi_20 : List ℕ) → (a b z01 z20 : List ℕ) → Option (List ℕ)
compute_x1 k batch_size pi_01 pi_20 a b z01 z20 = do
  ab ← vec_add k a b
  masked ← vec_add k ab z01
  x0 ← shuffle_triplets pi_01 masked batch_size
  masked0 ← vec_add k x0 z20
  shuffle_triplets pi_20 masked0 batch_size

unfoldable pub compute_y0 : ℕ → ℕ → (pi_01 : List ℕ) → (c z01 : List ℕ) → Option (List ℕ)
compute_y0 k batch_size pi_01 c z01 = do
  masked ← vec_sub k c z01
  shuffle_triplets pi_01 masked batch_size

unfoldable pub compute_x2 : ℕ → ℕ → (pi_12 : List ℕ) → (x1 z12 : List ℕ) → Option (List ℕ)
compute_x2 k batch_size pi_12 x1 z12 = do
  masked ← vec_add k x1 z12
  shuffle_triplets pi_12 masked batch_size

unfoldable pub compute_y2 : ℕ → ℕ → (pi_20 pi_12 : List ℕ) → (y0 z20 z12 : List ℕ) → Option (List ℕ)
compute_y2 k batch_size pi_20 pi_12 y0 z20 z12 = do
  masked ← vec_sub k y0 z20
  y1 ← shuffle_triplets pi_20 masked batch_size
  masked1 ← vec_sub k y1 z12
  shuffle_triplets pi_12 masked1 batch_size

module _ {Rng : Type 0} (draw : ℕ → Rng → ℕ × Rng) where
  -- `n` elements of one generator.
  unfoldable pub draw_all : ℕ → ℕ → Rng → List ℕ × Rng
  draw_all k zero rng = ([], rng)
  draw_all k (suc n) rng =
      let drawn = draw k rng in let rest = draw_all k n drawn.1 in (drawn.0 ∷ rest.0, rest.1)

  unfoldable pub gen_rands : ℕ → Prf Rng → (ℕ × ℕ) × Prf Rng
  gen_rands k prf =
      let a = draw k prf.my_prf in
      let b = draw k prf.prev_prf in ((a.0, b.0), record { my_prf = a.1; prev_prf = b.1 })

  unfoldable pub gen_rands_all : ℕ → ℕ → Prf Rng → (List ℕ × List ℕ) × Prf Rng
  gen_rands_all k zero prf = (([], []), prf)
  gen_rands_all k (suc n) prf =
      let pair = gen_rands k prf in
      let rest = gen_rands_all k n pair.1 in ((pair.0.0 ∷ rest.0.0, pair.0.1 ∷ rest.0.1), rest.1)

  module _ (gen : Rng → ℕ × Rng) (fuel : ℕ) where
    -- Party 0: the message to party 1, its shares, and the new generators.
    unfoldable pub shuffle_party_0 :
        ℕ
        → List (Share × DistanceShare)
        → ℕ
        → Prf Rng
        → Option (List ℕ × List (Share × DistanceShare) × Prf Rng)
    shuffle_party_0 k distances batch_size prf = do
      perms ← gen_permutation gen fuel (batch_size % 2 ^ 32) prf
      let z = gen_rands_all k (length (flatten_a distances)) perms.1 in
          let tilde = gen_rands_all k (3 * length distances) z.1 in
          do
            x1 ←
                compute_x1 k batch_size perms.0.0 perms.0.1 (flatten_a distances)
                  (flatten_b distances) z.0.0 z.0.1
            some (x1, reconstruct_id_distance_vector tilde.0.0 tilde.0.1, tilde.1)

    -- Party 1 up to its first send: the message to party 2, `pi_12`, the mask `z12`, and the new
    -- generators.
    unfoldable pub shuffle_party_1_send :
        ℕ
        → List (Share × DistanceShare)
        → ℕ
        → Prf Rng
        → Option (List ℕ × (List ℕ × List ℕ) × Prf Rng)
    shuffle_party_1_send k distances batch_size prf = do
      perms ← gen_permutation gen fuel (batch_size % 2 ^ 32) prf
      let z = gen_rands_all k (length (flatten_a distances)) perms.1 in
          do
            y0 ← compute_y0 k batch_size perms.0.1 (flatten_a distances) z.0.1
            some (y0, (perms.0.0, z.0.0), z.1)

    -- Party 2 up to its send: the message to party 1, its part of the shares, and the new
    -- generators.
    unfoldable pub shuffle_party_2_send :
        ℕ → List (Share × DistanceShare) → ℕ → Prf Rng → List ℕ → Option (List ℕ × List ℕ × Prf Rng)
    shuffle_party_2_send k distances batch_size prf y0 = do
      perms ← gen_permutation gen fuel (batch_size % 2 ^ 32) prf
      let z = gen_rands_all k (3 * length distances) perms.1 in
          do
            y2 ← compute_y2 k batch_size perms.0.0 perms.0.1 y0 z.0.0 z.0.1
            let tilde_a = draw_all k (length y2) z.1.my_prf in
                do
                  tilde_c2 ← vec_sub k y2 tilde_a.0
                  some (tilde_c2, tilde_a.0, record { my_prf = tilde_a.1; prev_prf = z.1.prev_prf })

  -- Party 1 from its first receipt to its second send: the message to party 2, its part of the
  -- shares, and the new generators.
  unfoldable pub shuffle_party_1_resend :
      ℕ → ℕ → (List ℕ × List ℕ) → Prf Rng → List ℕ → Option (List ℕ × List ℕ × Prf Rng)
  shuffle_party_1_resend k batch_size held prf x1 = do
    x2 ← compute_x2 k batch_size held.0 x1 held.1
    let tilde_b = draw_all k (length x2) prf.prev_prf in
        do
          tilde_c1 ← vec_sub k x2 tilde_b.0
          some (tilde_c1, tilde_b.0, record { my_prf = prf.my_prf; prev_prf = tilde_b.1 })

-- The ends of party 1 and of party 2.
unfoldable pub shuffle_party_1_receive :
    ℕ → (tilde_c1 tilde_b tilde_c2 : List ℕ) → Option (List (Share × DistanceShare))
shuffle_party_1_receive k tilde_c1 tilde_b tilde_c2 = do
  tilde_c ← vec_add k tilde_c1 tilde_c2
  some (reconstruct_id_distance_vector tilde_c tilde_b)

unfoldable pub shuffle_party_2_receive :
    ℕ → (tilde_c2 tilde_a tilde_c1 : List ℕ) → Option (List (Share × DistanceShare))
shuffle_party_2_receive k tilde_c2 tilde_a tilde_c1 = do
  tilde_c ← vec_add k tilde_c1 tilde_c2
  some (reconstruct_id_distance_vector tilde_a tilde_c)
