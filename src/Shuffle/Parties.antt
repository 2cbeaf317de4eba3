-- ===== src/Shuffle/Parties.antt =====
-- The three parties of the shuffle together.
use ampc_common.Base.{
  ℕ, ◌*◌, ◌%◌, ◌^◌, ◌<◌, ◌≡◌, refl, ap, sym, ◌∙◌, subst, arith, some, List, length,
}
use native.Mathlib.Nat.{mod-eq_of_lt}
use ampc_common.Ring
use ampc_common.Ring.{zip_with}
use ampc_common.Ring.Vectors.{vec_add_lem, vec_sub_lem, length-zip_with}
use ampc_common.Share.{Share, DistanceShare, new, reconstruct_id_distance_vector}
use ampc_common.Share.Vectors.{flatten_id_distances}
use ampc_common.Protocol.{Prf}
use ampc_common.Protocol.Reshare.{AreSharesOf, IsInSync}
use ampc_common.Shuffle.Permutations.{
  AreAccepted, IsPermutation, IsPermutation-AreBelow, gen_permutation_shared,
}
use ampc_common.Shuffle.Triplets.{permuted}
use ampc_common.Shuffle.Rounds.{
  flatten_a, flatten_b, draw_all, shuffle_party_0, shuffle_party_1_send, shuffle_party_2_send,
  shuffle_party_1_resend, shuffle_party_1_receive, shuffle_party_2_receive,
}
use ampc_common.Shuffle.Shared.{compute_sum}
use ampc_common.Shuffle.Result.{
  length-draw_all, gen_rands_all_lem, flatten_a_lem, flatten_b_lem, length-flatten_a, values_lem,
  remasked, flatten-reconstruct,
}

-- For generators in step with an accepted draw among `fuel` for every modulus up to the batch size,
-- and for full batches of a size that is positive and below `2 ^ 32`: when the parties hold
-- replicated shares of the flat values, and each hands its messages on, no party has an error, and
-- all three end with replicated shares of the triplets of every batch in the order of three
-- permutations, with generators in step.
pub shuffle_shared :
    {Rng : Type 0} (draw : ℕ → Rng → ℕ × Rng) (gen : Rng → ℕ × Rng) (fuel k n batches : ℕ)
    (xs : List ℕ) (ds0 ds1 ds2 : List (Share × DistanceShare)) (p0 p1 p2 : Prf Rng)
    → 0 < n
    → n < 2 ^ 32
    → length xs ≡ batches * (n * 3)
    → AreSharesOf k xs
        (flatten_id_distances ds0)
        (flatten_id_distances ds1)
        (flatten_id_distances ds2)
    → AreAccepted gen fuel n
    → IsInSync p0 p1 p2
    → (pi_01 : List ℕ) × (pi_20 : List ℕ) × (pi_12 : List ℕ) × IsPermutation n pi_01
      × IsPermutation n pi_20
      × IsPermutation n pi_12
      × (done0 : List ℕ × List (Share × DistanceShare) × Prf Rng) × (sent1 : List ℕ
          × (List ℕ × List ℕ)
          × Prf Rng)
      × (sent2 : List ℕ × List ℕ × Prf Rng) × (resent1 : List ℕ × List ℕ × Prf Rng) × (out1 : List
          (Share × DistanceShare))
      × (out2 : List (Share × DistanceShare)) × (shuffle_party_0 draw gen fuel k ds0 n p0
          ≡ some done0)
      × (shuffle_party_1_send draw gen fuel k ds1 n p1 ≡ some sent1)
      × (shuffle_party_2_send draw gen fuel k ds2 n p2 sent1.0 ≡ some sent2)
      × (shuffle_party_1_resend draw k n sent1.1 sent1.2 done0.0 ≡ some resent1)
      × (shuffle_party_1_receive k resent1.0 resent1.1 sent2.0 ≡ some out1)
      × (shuffle_party_2_receive k sent2.0 sent2.1 resent1.0 ≡ some out2)
      × AreSharesOf k
          (permuted batches
            (n * 3)
            pi_12
            (permuted batches (n * 3) pi_20 (permuted batches (n * 3) pi_01 xs)))
          (flatten_id_distances done0.1)
          (flatten_id_distances out1)
          (flatten_id_distances out2)
      × IsInSync done0.2 resent1.2 sent2.2
unfolding shuffle_party_0 shuffle_party_1_send shuffle_party_2_send shuffle_party_1_resend
    shuffle_party_1_receive shuffle_party_2_receive
shuffle_shared draw gen fuel k n batches xs ds0 ds1 ds2 p0 p1 p2 pos fits l shares often sync =
    let (pi_01, pi_12, pi_20, q0, q1, q2, g0, g1, g2, h01, h12, h20, s) =
      gen_permutation_shared gen fuel n p0 p1 p2 often sync in
    let word : n % 2 ^ 32 ≡ n = mod-eq_of_lt fits in
    let size : ℕ = batches * (n * 3) in
    let a = flatten_a ds0 in
    let b = flatten_b ds0 in
    let c = flatten_a ds1 in
    let v =
      values_lem k xs (flatten_id_distances ds0) (flatten_id_distances ds1)
        (flatten_id_distances ds2) shares in
    let ha : length a ≡ size = ap length (flatten_a_lem ds0) ∙ v.1 ∙ l in
    let hb : length b ≡ size = ap length (flatten_b_lem ds0) ∙ v.2 ∙ l in
    let hc : length c ≡ size = ap length (flatten_a_lem ds1) ∙ v.3 ∙ l in
    let he : length (flatten_a ds2) ≡ size = ap length (flatten_a_lem ds2) ∙ v.4 ∙ l in
    let n0 : 3 * length ds0 ≡ size = sym (length-flatten_a ds0) ∙ ha in
    let n2 : 3 * length ds2 ≡ size = sym (length-flatten_a ds2) ∙ he in
    let z01 = draw_all draw k size q0.my_prf in
    let z12 = draw_all draw k size q1.my_prf in
    let z20 = draw_all draw k size q2.my_prf in
    let tb = draw_all draw k size z01.1 in
    let ta = draw_all draw k size z20.1 in
    let (x1, y0, x2, y2, e1, e2, e3, e4, hx2, hy2, total) =
      compute_sum k n batches pi_01 pi_20 pi_12 a b c z01.0 z20.0 z12.0 pos
        (IsPermutation-AreBelow n pi_01 h01, h01.0) (IsPermutation-AreBelow n pi_20 h20, h20.0)
        (IsPermutation-AreBelow n pi_12 h12, h12.0) ha hb hc (length-draw_all draw k size q0.my_prf)
        (length-draw_all draw k size q2.my_prf) (length-draw_all draw k size q1.my_prf) in
    let htb = length-draw_all draw k size z01.1 in
    let hta = length-draw_all draw k size z20.1 in
    let tc1 = zip_with (Ring.sub k) x2 tb.0 in
    let tc2 = zip_with (Ring.sub k) y2 ta.0 in
    let tc = zip_with (Ring.add k) tc1 tc2 in
    let values : zip_with (Ring.add k) (zip_with (Ring.add k) a b) c ≡ xs =
      rw (flatten_a_lem ds0, flatten_b_lem ds0, flatten_a_lem ds1) v.0 in
    let full : size ≡ batches * n * 3 = omega arith in
    let htc1 = length-zip_with (Ring.sub k) x2 tb.0 (hx2 ∙ sym htb) ∙ hx2 in
    let htc2 = length-zip_with (Ring.sub k) y2 ta.0 (hy2 ∙ sym hta) ∙ hy2 in
    let htc = length-zip_with (Ring.add k) tc1 tc2 (htc1 ∙ sym htc2) ∙ htc1 in
    let r0 = flatten-reconstruct (batches * n) tb.0 ta.0 (htb ∙ full) (hta ∙ full) in
    let r1 = flatten-reconstruct (batches * n) tc tb.0 (htc ∙ full) (htb ∙ full) in
    let r2 = flatten-reconstruct (batches * n) ta.0 tc (hta ∙ full) (htc ∙ full) in
    let order : List ℕ → List ℕ = λ d.
      permuted batches (n * 3) pi_12
        (permuted batches (n * 3) pi_20 (permuted batches (n * 3) pi_01 d)) in
    (
      pi_01,
      pi_20,
      pi_12,
      h01,
      h20,
      h12,
      (x1, reconstruct_id_distance_vector tb.0 ta.0, record { my_prf = tb.1; prev_prf = ta.1 }),
      (y0, (pi_12, z12.0), record { my_prf = z12.1; prev_prf = z01.1 }),
      (tc2, ta.0, record { my_prf = ta.1; prev_prf = z12.1 }),
      (tc1, tb.0, record { my_prf = z12.1; prev_prf = tb.1 }),
      reconstruct_id_distance_vector tc tb.0,
      reconstruct_id_distance_vector ta.0 tc,
      rw
          (
            word,
            g0,
            ha,
            n0,
            gen_rands_all_lem draw k size q0,
            s.shared0,
            gen_rands_all_lem draw k size (record { my_prf = z01.1; prev_prf = z20.1 }),
            e1,
          )
          refl,
      rw (word, g1, hc, gen_rands_all_lem draw k size q1, s.shared1, e2) refl,
      rw
          (
            word,
            g2,
            n2,
            gen_rands_all_lem draw k size q2,
            s.shared2,
            e4,
            hy2,
            vec_sub_lem k y2 ta.0 (hy2 ∙ sym hta),
          )
          refl,
      rw (e3, hx2, vec_sub_lem k x2 tb.0 (hx2 ∙ sym htb)) refl,
      rw (vec_add_lem k tc1 tc2 (htc1 ∙ sym htc2)) refl,
      rw (vec_add_lem k tc1 tc2 (htc1 ∙ sym htc2)) refl,
      rw (r0, r1, r2)
          (subst
            (λ d.
              AreSharesOf k d (zip_with new tb.0 ta.0) (zip_with new tc tb.0)
                (zip_with new ta.0 tc))
            (total ∙ ap order values) (remasked k size x2 y2 ta.0 tb.0 hx2 hy2 hta htb)),
      record { shared0 = refl; shared1 = refl; shared2 = refl },
    )
