-- ===== src/Share/Vectors.antt =====
-- Vectors of shares are sent and rebuilt as flat vectors of ring elements.
use ampc_common.Base.{ℕ, ◌≡◌, refl, ap, List, [], ◌∷◌}
use ampc_common.Share.{
  Share, DistanceShare, iter_from_iter_ab, pair_up, triple_up, reconstruct_distance_vector,
  reconstruct_id_distance_vector,
}

-- The shares of a vector of distances, in order.
abbrev pub flatten_distances : List DistanceShare → List Share
flatten_distances [] = []
flatten_distances (d ∷ ds) = d.code_dot ∷ d.mask_dot ∷ flatten_distances ds

abbrev pub flatten_id_distances : List (Share × DistanceShare) → List Share
flatten_id_distances [] = []
flatten_id_distances ((id, d) ∷ ds) = id ∷ d.code_dot ∷ d.mask_dot ∷ flatten_id_distances ds

abbrev pub firsts : List Share → List ℕ
firsts [] = []
firsts (s ∷ ss) = s.a ∷ firsts ss

abbrev pub seconds : List Share → List ℕ
seconds [] = []
seconds (s ∷ ss) = s.b ∷ seconds ss

pub iter_from_iter_ab-parts : (ss : List Share) → iter_from_iter_ab (firsts ss) (seconds ss) ≡ ss
unfolding iter_from_iter_ab
iter_from_iter_ab-parts [] = refl
iter_from_iter_ab-parts (s ∷ ss) = ap (λ t. s ∷ t) (iter_from_iter_ab-parts ss)

pair_up-flatten : (ds : List DistanceShare) → pair_up (flatten_distances ds) ≡ ds
unfolding pair_up
pair_up-flatten [] = refl
pair_up-flatten (d ∷ ds) = ap (λ t. d ∷ t) (pair_up-flatten ds)

triple_up-flatten : (ds : List (Share × DistanceShare)) → triple_up (flatten_id_distances ds) ≡ ds
unfolding triple_up
triple_up-flatten [] = refl
triple_up-flatten ((id, d) ∷ ds) = ap (λ t. (id, d) ∷ t) (triple_up-flatten ds)

-- The two flat vectors of first and second parts give back the distances, and those with an
-- identifier in front.
pub reconstruct_vectors :
    (ds : List DistanceShare) (ids : List (Share × DistanceShare))
    → (reconstruct_distance_vector (firsts (flatten_distances ds)) (seconds (flatten_distances ds))
        ≡ ds)
      × (reconstruct_id_distance_vector
            (firsts (flatten_id_distances ids))
            (seconds (flatten_id_distances ids))
          ≡ ids)
reconstruct_vectors ds ids = (
  unfold reconstruct_distance_vector in
      rw (iter_from_iter_ab-parts (flatten_distances ds)) (pair_up-flatten ds),
  unfold reconstruct_id_distance_vector in
      rw (iter_from_iter_ab-parts (flatten_id_distances ids)) (triple_up-flatten ids),
)
