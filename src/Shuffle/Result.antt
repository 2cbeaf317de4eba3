-- ===== src/Shuffle/Result.antt =====
-- The three parties of the shuffle together.
use ampc_common.Base.{
  ℕ, zero, suc, ◌+◌, ◌*◌, ◌%◌, ◌^◌, ◌≡◌, refl, ap, ap₂, sym, ◌∙◌, arith, List, [], ◌∷◌, length,
}
use ampc_common.Base.Mod.{mod-eq_of_multiples, pow-eq-suc, minus_one}
use ampc_common.Ring
use ampc_common.Ring.{zip_with}
use ampc_common.Ring.Laws.{one_mod}
use ampc_common.Ring.Vectors.{length-zip_with}
use ampc_common.Share.{
  Share, DistanceShare, new, iter_from_iter_ab, triple_up, reconstruct_id_distance_vector,
}
use ampc_common.Share.Vectors.{flatten_id_distances, firsts, seconds}
use ampc_common.Protocol.{Prf}
use ampc_common.Protocol.Reshare.{AreSharesOf}
use ampc_common.Shuffle.Rounds.{flatten_a, flatten_b, draw_all, gen_rands, gen_rands_all}

pub length-draw_all :
    {Rng : Type 0} (draw : ℕ → Rng → ℕ × Rng) (k n : ℕ) (rng : Rng)
    → length (draw_all draw k n rng).0 ≡ n
unfolding draw_all
length-draw_all draw k zero rng = refl
length-draw_all draw k (suc n) rng = ap suc (length-draw_all draw k n (draw k rng).1)

-- Drawing from the two generators in turn is drawing from each.
pub gen_rands_all_lem :
    {Rng : Type 0} (draw : ℕ → Rng → ℕ × Rng) (k n : ℕ) (prf : Prf Rng)
    → gen_rands_all draw k n prf ≡ (
      ((draw_all draw k n prf.my_prf).0, (draw_all draw k n prf.prev_prf).0),
      record {
        my_prf = (draw_all draw k n prf.my_prf).1;
        prev_prf = (draw_all draw k n prf.prev_prf).1;
      },
    )
unfolding gen_rands_all gen_rands draw_all
gen_rands_all_lem draw k zero prf = refl
gen_rands_all_lem draw k (suc n) prf =
    let next : Prf _ = record {
      my_prf = (draw k prf.my_prf).1;
      prev_prf = (draw k prf.prev_prf).1;
    } in
    rw (gen_rands_all_lem draw k n next) refl

pub flatten_a_lem :
    (ds : List (Share × DistanceShare)) → flatten_a ds ≡ firsts (flatten_id_distances ds)
unfolding flatten_a
flatten_a_lem [] = refl
flatten_a_lem ((id, d) ∷ ds) = ap (λ t. id.a ∷ d.code_dot.a ∷ d.mask_dot.a ∷ t) (flatten_a_lem ds)

pub flatten_b_lem :
    (ds : List (Share × DistanceShare)) → flatten_b ds ≡ seconds (flatten_id_distances ds)
unfolding flatten_b
flatten_b_lem [] = refl
flatten_b_lem ((id, d) ∷ ds) = ap (λ t. id.b ∷ d.code_dot.b ∷ d.mask_dot.b ∷ t) (flatten_b_lem ds)

pub length-flatten_a : (ds : List (Share × DistanceShare)) → length (flatten_a ds) ≡ 3 * length ds
unfolding flatten_a
length-flatten_a [] = refl
length-flatten_a ((id, d) ∷ ds) = omega (arith, length-flatten_a ds)

-- The values are the sums of what party 0 and party 1 hold.
pub values_lem :
    (k : ℕ) (xs : List ℕ) (s0 s1 s2 : List Share)
    → AreSharesOf k xs s0 s1 s2
    → (zip_with (Ring.add k) (zip_with (Ring.add k) (firsts s0) (seconds s0)) (firsts s1) ≡ xs)
      × (length (firsts s0) ≡ length xs)
      × (length (seconds s0) ≡ length xs)
      × (length (firsts s1) ≡ length xs)
      × (length (firsts s2) ≡ length xs)
unfolding zip_with
values_lem k [] [] [] (u ∷ s2) h = absurd h
values_lem k [] [] (t ∷ s1) s2 h = absurd h
values_lem k [] (s ∷ s0) s1 s2 h = absurd h
values_lem k (x ∷ xs) [] s1 s2 h = absurd h
values_lem k (x ∷ xs) (s ∷ s0) [] s2 h = absurd h
values_lem k (x ∷ xs) (s ∷ s0) (t ∷ s1) [] h = absurd h
values_lem k [] [] [] [] h = (refl, refl, refl, refl, refl)
values_lem k (x ∷ xs) (s ∷ s0) (t ∷ s1) (u ∷ s2) (r, e, more) =
    let rest = values_lem k xs s0 s1 s2 more in
    (
      ap₂ (λ v vs. v ∷ vs)
          (ap (λ c. Ring.add k (Ring.add k s.a c) t.a) (r.holds0)
            ∙ simp one_mod (ap (λ (n : ℕ). n % 2 ^ k) (omega arith))
            ∙ e)
          rest.0,
      ap suc rest.1,
      ap suc rest.2,
      ap suc rest.3,
      ap suc rest.4,
    )

-- The last shares, when `x` and `y` are the sums of party 1 and party 2.
remasked_mod :
    (k x y ta tb : ℕ)
    → Ring.add k (Ring.add k tb (Ring.add k (Ring.sub k x tb) (Ring.sub k y ta))) ta
      ≡ Ring.add k x y
remasked_mod k x y ta tb = simp one_mod (
    mod-eq_of_multiples (2 ^ k) 0 (ta + tb)
      (tb + (x + minus_one k * tb + (y + minus_one k * ta)) + ta) (x + y)
      (omega (arith, ap (λ (t : ℕ). ta * t) (pow-eq-suc k), ap (λ (t : ℕ). tb * t) (pow-eq-suc k))))

pub remasked :
    (k n : ℕ) (xs ys ta tb : List ℕ)
    → length xs ≡ n
    → length ys ≡ n
    → length ta ≡ n
    → length tb ≡ n
    → let tc = zip_with (Ring.add k) (zip_with (Ring.sub k) xs tb) (zip_with (Ring.sub k) ys ta) in
      AreSharesOf k
        (zip_with (Ring.add k) xs ys)
        (zip_with new tb ta)
        (zip_with new tc tb)
        (zip_with new ta tc)
unfolding zip_with new
remasked k zero [] [] [] [] l0 l1 l2 l3 = tt
remasked k zero (x ∷ xs) ys ta tb l0 l1 l2 l3 = absurd (omega arith)
remasked k zero [] (y ∷ ys) ta tb l0 l1 l2 l3 = absurd (omega arith)
remasked k zero [] [] (a ∷ ta) tb l0 l1 l2 l3 = absurd (omega arith)
remasked k zero [] [] [] (b ∷ tb) l0 l1 l2 l3 = absurd (omega arith)
remasked k (suc n) [] ys ta tb l0 l1 l2 l3 = absurd (omega arith)
remasked k (suc n) (x ∷ xs) [] ta tb l0 l1 l2 l3 = absurd (omega arith)
remasked k (suc n) (x ∷ xs) (y ∷ ys) [] tb l0 l1 l2 l3 = absurd (omega arith)
remasked k (suc n) (x ∷ xs) (y ∷ ys) (a ∷ ta) [] l0 l1 l2 l3 = absurd (omega arith)
remasked k (suc n) (x ∷ xs) (y ∷ ys) (a ∷ ta) (b ∷ tb) l0 l1 l2 l3 = (
  record { holds0 = refl; holds1 = refl; holds2 = refl },
  remasked_mod k x y a b,
  remasked k n xs ys ta tb (omega arith) (omega arith) (omega arith) (omega arith),
)

flatten-triple_up :
    (n : ℕ) (ss : List Share) → length ss ≡ n * 3 → flatten_id_distances (triple_up ss) ≡ ss
unfolding triple_up
flatten-triple_up zero [] h = refl
flatten-triple_up zero (s ∷ ss) h = absurd (omega arith)
flatten-triple_up (suc n) [] h = absurd (omega arith)
flatten-triple_up (suc n) (s ∷ []) h = absurd (omega arith)
flatten-triple_up (suc n) (s ∷ t ∷ []) h = absurd (omega arith)
flatten-triple_up (suc n) (s ∷ t ∷ u ∷ ss) h =
    ap (λ r. s ∷ t ∷ u ∷ r) (flatten-triple_up n ss (omega arith))

pub flatten-reconstruct :
    (n : ℕ) (xs ys : List ℕ)
    → length xs ≡ n * 3
    → length ys ≡ n * 3
    → flatten_id_distances (reconstruct_id_distance_vector xs ys) ≡ zip_with new xs ys
unfolding reconstruct_id_distance_vector iter_from_iter_ab
flatten-reconstruct n xs ys h h' =
    flatten-triple_up n (zip_with new xs ys) (length-zip_with new xs ys (h ∙ sym h') ∙ h)
