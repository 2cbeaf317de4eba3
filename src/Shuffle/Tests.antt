-- ===== src/Shuffle/Tests.antt =====
-- Runs of the theorems on the permutations: a generator that counts up to a thousand.
use ampc_common.Base.{ℕ, ◌+◌, ◌*◌, ◌^◌, ◌%◌, ◌<◌, ◌≤◌, ◌≡◌, refl, arith, some, List, [], ◌∷◌, inl}
use native.Mathlib.Nat.{mod-lt}
use ampc_common.Protocol.{Prf}
use ampc_common.Protocol.Reshare.{IsInSync}
use ampc_common.Shuffle.{u64_max, rejection_bound, set, swap, gen_permutation}
use ampc_common.Share.{Share, DistanceShare}
use ampc_common.Share.Vectors.{flatten_id_distances}
use ampc_common.Protocol.Reshare.{AreSharesOf}
use ampc_common.Shuffle.Triplets.{permuted}
use ampc_common.Shuffle.Rounds.{
  shuffle_party_0, shuffle_party_1_send, shuffle_party_2_send, shuffle_party_1_resend,
  shuffle_party_1_receive, shuffle_party_2_receive,
}
use ampc_common.Shuffle.Parties.{shuffle_shared}
use ampc_common.Shuffle.Sampling.{rejection_bound_unbiased}
use ampc_common.Shuffle.Permutations.{AreAccepted, IsPermutation, gen_permutation_shared}

abbrev counter : ℕ → ℕ × ℕ
counter rng = (rng % 1000, rng + 1)

counter-AreAccepted : AreAccepted counter 1 4
counter-AreAccepted modulus rng pos le = inl (
    omega (
      arith,
      rejection_bound_unbiased modulus pos (omega arith),
      mod-lt rng {m = 1000} (omega arith),
    ))

swap_ends : swap (3 ∷ 4 ∷ 5 ∷ []) 2 0 ≡ some (5 ∷ 4 ∷ 3 ∷ [])
unfolding swap set
swap_ends = refl

rejection_bound_unbiased_example :
    ((rejection_bound 3 + 1) % 3 ≡ 0)
    × (rejection_bound 3 ≤ u64_max)
    × (u64_max < rejection_bound 3 + 3)
rejection_bound_unbiased_example = rejection_bound_unbiased 3 (omega arith) (omega arith)

abbrev prf0 : Prf ℕ
prf0 = record { my_prf = 15; prev_prf = 7 }

abbrev prf1 : Prf ℕ
prf1 = record { my_prf = 22; prev_prf = 15 }

abbrev prf2 : Prf ℕ
prf2 = record { my_prf = 7; prev_prf = 22 }

gen_permutation_shared_example :
    (pi_01 : List ℕ) × (pi_12 : List ℕ) × (pi_20 : List ℕ) × (q0 : Prf ℕ) × (q1 : Prf ℕ) × (q2 : Prf
      ℕ)
    × (gen_permutation counter 1 4 prf0 ≡ some ((pi_01, pi_20), q0))
    × (gen_permutation counter 1 4 prf1 ≡ some ((pi_12, pi_01), q1))
    × (gen_permutation counter 1 4 prf2 ≡ some ((pi_20, pi_12), q2))
    × IsPermutation 4 pi_01
    × IsPermutation 4 pi_12
    × IsPermutation 4 pi_20
    × IsInSync q0 q1 q2
gen_permutation_shared_example =
    gen_permutation_shared counter 1 4 prf0 prf1 prf2 counter-AreAccepted
      (record { shared0 = refl; shared1 = refl; shared2 = refl })

abbrev counting : ℕ → ℕ → ℕ × ℕ
counting k rng = (rng % 2 ^ k, rng + 1)

abbrev share : ℕ → ℕ → Share
share a b = record { a = a; b = b }

-- What a party holds of one item, by the two parts of its shares.
abbrev item : (a b c d e f : ℕ) → Share × DistanceShare
item a b c d e f = (share a b, record { code_dot = share c d; mask_dot = share e f })

abbrev held0 : List (Share × DistanceShare)
held0 = item 1 2 4 5 7 8 ∷ item 11 12 14 15 17 18 ∷ []

abbrev held1 : List (Share × DistanceShare)
held1 = item 3 1 6 4 9 7 ∷ item 13 11 16 14 19 17 ∷ []

abbrev held2 : List (Share × DistanceShare)
held2 = item 2 3 5 6 8 9 ∷ item 12 13 15 16 18 19 ∷ []

abbrev items : List ℕ
items = 6 ∷ 15 ∷ 24 ∷ 36 ∷ 45 ∷ 54 ∷ []

items-AreSharesOf :
    AreSharesOf 8 items
      (flatten_id_distances held0)
      (flatten_id_distances held1)
      (flatten_id_distances held2)
unfolding ampc_common.Ring.add
items-AreSharesOf = (
  record { holds0 = refl; holds1 = refl; holds2 = refl },
  refl,
  (
    record { holds0 = refl; holds1 = refl; holds2 = refl },
    refl,
    (
      record { holds0 = refl; holds1 = refl; holds2 = refl },
      refl,
      (
        record { holds0 = refl; holds1 = refl; holds2 = refl },
        refl,
        (
          record { holds0 = refl; holds1 = refl; holds2 = refl },
          refl,
          (record { holds0 = refl; holds1 = refl; holds2 = refl }, refl, tt),
        ),
      ),
    ),
  ),
)

counter-AreAccepted_2 : AreAccepted counter 1 2
counter-AreAccepted_2 modulus rng pos le = counter-AreAccepted modulus rng pos (omega arith)

shuffle_shared_example :
    (pi_01 : List ℕ) × (pi_20 : List ℕ) × (pi_12 : List ℕ) × IsPermutation 2 pi_01
    × IsPermutation 2 pi_20
    × IsPermutation 2 pi_12
    × (done0 : List ℕ × List (Share × DistanceShare) × Prf ℕ) × (sent1 : List ℕ
        × (List ℕ × List ℕ)
        × Prf ℕ)
    × (sent2 : List ℕ × List ℕ × Prf ℕ) × (resent1 : List ℕ × List ℕ × Prf ℕ) × (out1 : List
        (Share × DistanceShare))
    × (out2 : List (Share × DistanceShare)) × (shuffle_party_0 counting counter 1 8 held0 2 prf0
        ≡ some done0)
    × (shuffle_party_1_send counting counter 1 8 held1 2 prf1 ≡ some sent1)
    × (shuffle_party_2_send counting counter 1 8 held2 2 prf2 sent1.0 ≡ some sent2)
    × (shuffle_party_1_resend counting 8 2 sent1.1 sent1.2 done0.0 ≡ some resent1)
    × (shuffle_party_1_receive 8 resent1.0 resent1.1 sent2.0 ≡ some out1)
    × (shuffle_party_2_receive 8 sent2.0 sent2.1 resent1.0 ≡ some out2)
    × AreSharesOf 8
        (permuted 1 (2 * 3) pi_12 (permuted 1 (2 * 3) pi_20 (permuted 1 (2 * 3) pi_01 items)))
        (flatten_id_distances done0.1)
        (flatten_id_distances out1)
        (flatten_id_distances out2)
    × IsInSync done0.2 resent1.2 sent2.2
shuffle_shared_example =
    shuffle_shared counting counter 1 8 2 1 items held0 held1 held2 prf0 prf1 prf2 (omega arith)
      (omega arith) refl items-AreSharesOf counter-AreAccepted_2
      (record { shared0 = refl; shared1 = refl; shared2 = refl })
