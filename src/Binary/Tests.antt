-- ===== src/Binary/Tests.antt =====
-- Runs of the theorems on the binary protocol: a generator that counts, and the bits 1, 0 and 1.
use ampc_common.Base.{
  ℕ, zero, suc, ◌+◌, ◌%◌, ◌^◌, ◌≡◌, refl, ap, arith, some, List, [], ◌∷◌, length, bit_and,
}
use ampc_common.Base.Bytes.{ok}
use ampc_common.Ring.{zip_with}
use ampc_common.Share.{Share, new}
use ampc_common.Share.Local.{Shared, IsReplicated}
use ampc_common.Protocol.{Prf}
use ampc_common.Protocol.Reshare.{AreSharesOf, IsInSync}
use ampc_common.Binary.{
  bit_inject_party0_send, bit_inject_party1_send, bit_inject_party2, bit_inject_party1_receive,
  bit_inject_party0_receive, and_many_send, and_many_receive, open_bin, open_bin_send,
}
use ampc_common.Binary.Inject.{xors, bit_inject_shared}
use ampc_common.Binary.And.{at_0, at_1, at_2, values, AreXorSharesOf, and_many_shared}
use ampc_common.Binary.Open.{open_bin_shared}
use ampc_common.Binary.{a2b_pre}
use ampc_common.Share.Local.{reconstruct}
use ampc_common.Binary.Split.{a2b_pre_shared}
use ampc_common.Ring

abbrev counting : ℕ → ℕ → ℕ → List ℕ × ℕ
counting k zero rng = ([], rng)
counting k (suc n) rng = (rng % 2 ^ k ∷ (counting k n (rng + 1)).0, (counting k n (rng + 1)).1)

length-counting : (k n rng : ℕ) → length (counting k n rng).0 ≡ n
length-counting k zero rng = refl
length-counting k (suc n) rng = ap suc (length-counting k n (rng + 1))

abbrev prf0 : Prf ℕ
prf0 = record { my_prf = 513; prev_prf = 65285 }

abbrev prf1 : Prf ℕ
prf1 = record { my_prf = 1054; prev_prf = 513 }

abbrev prf2 : Prf ℕ
prf2 = record { my_prf = 65285; prev_prf = 1054 }

prfs-IsInSync : IsInSync prf0 prf1 prf2
prfs-IsInSync = record { shared0 = refl; shared1 = refl; shared2 = refl }

-- The parts of the parties of two bits.
abbrev part0 : List ℕ
part0 = 1 ∷ 0 ∷ []

abbrev part1 : List ℕ
part1 = 1 ∷ 1 ∷ []

abbrev part2 : List ℕ
part2 = 1 ∷ 0 ∷ []

bit_inject_shared_example :
    let s0 = zip_with new part0 part2 in
    let s1 = zip_with new part1 part0 in
    let s2 = zip_with new part2 part1 in
    let sent1 = bit_inject_party1_send counting 16 s1 prf1 in
    (sent0 : List ℕ × (List ℕ × List ℕ) × Prf ℕ) × (done2 : List ℕ × List Share × Prf ℕ)
    × (bit_inject_party0_send counting 16 s0 prf0 ≡ some sent0)
    × (bit_inject_party2 counting 16 s2 prf2 sent1.0 ≡ some done2)
    × AreSharesOf 16
        (xors part0 part1 part2)
        (bit_inject_party0_receive 16 s0 sent0.0 sent0.1 done2.0)
        (bit_inject_party1_receive counting 16 s1 sent1.0 sent1.1 sent1.2 sent0.0).0
        done2.1
    × IsInSync sent0.2
        (bit_inject_party1_receive counting 16 s1 sent1.0 sent1.1 sent1.2 sent0.0).1
        done2.2
bit_inject_shared_example =
    bit_inject_shared counting length-counting 16 part0 part1 part2 prf0 prf1 prf2 (omega arith)
      refl refl (omega arith, (omega arith, tt)) (omega arith, (omega arith, tt))
      (omega arith, (omega arith, tt)) prfs-IsInSync

-- The words 5 and 6 of four bits, shared by exclusive or.
abbrev five : Shared
five = record {
  p0 = record { a = 9; b = 15 };
  p1 = record { a = 3; b = 9 };
  p2 = record { a = 15; b = 3 };
}

abbrev six : Shared
six = record {
  p0 = record { a = 6; b = 1 };
  p1 = record { a = 1; b = 6 };
  p2 = record { a = 1; b = 1 };
}

five-IsReplicated : IsReplicated five
five-IsReplicated = record { holds0 = refl; holds1 = refl; holds2 = refl }

six-IsReplicated : IsReplicated six
six-IsReplicated = record { holds0 = refl; holds1 = refl; holds2 = refl }

and_many_shared_example :
    (sent0 sent1 sent2 : List ℕ × Prf ℕ) × (and_many_send counting 4
        (at_0 (five ∷ []))
        (at_0 (six ∷ []))
        prf0
      ≡ some sent0)
    × (and_many_send counting 4 (at_1 (five ∷ [])) (at_1 (six ∷ [])) prf1 ≡ some sent1)
    × (and_many_send counting 4 (at_2 (five ∷ [])) (at_2 (six ∷ [])) prf2 ≡ some sent2)
    × AreXorSharesOf
        (zip_with bit_and (values (five ∷ [])) (values (six ∷ [])))
        (and_many_receive sent0.0 sent2.0)
        (and_many_receive sent1.0 sent0.0)
        (and_many_receive sent2.0 sent1.0)
    × IsInSync sent0.1 sent1.1 sent2.1
and_many_shared_example =
    and_many_shared counting length-counting 4 (five ∷ []) (six ∷ []) prf0 prf1 prf2
      (five-IsReplicated, tt) (six-IsReplicated, tt) refl prfs-IsInSync

-- The bits 1 and 0.
abbrev bit_1 : Shared
bit_1 = record {
  p0 = record { a = 1; b = 0 };
  p1 = record { a = 0; b = 1 };
  p2 = record { a = 0; b = 0 };
}

abbrev bit_0 : Shared
bit_0 = record {
  p0 = record { a = 1; b = 0 };
  p1 = record { a = 1; b = 1 };
  p2 = record { a = 0; b = 1 };
}

open_bin_shared_example :
    (open_bin (at_0 (bit_1 ∷ bit_0 ∷ [])) (open_bin_send (at_2 (bit_1 ∷ bit_0 ∷ [])))
      ≡ ok (values (bit_1 ∷ bit_0 ∷ [])))
    × (open_bin (at_1 (bit_1 ∷ bit_0 ∷ [])) (open_bin_send (at_0 (bit_1 ∷ bit_0 ∷ [])))
        ≡ ok (values (bit_1 ∷ bit_0 ∷ [])))
    × (open_bin (at_2 (bit_1 ∷ bit_0 ∷ [])) (open_bin_send (at_1 (bit_1 ∷ bit_0 ∷ [])))
        ≡ ok (values (bit_1 ∷ bit_0 ∷ [])))
open_bin_shared_example =
    open_bin_shared (bit_1 ∷ bit_0 ∷ [])
      (
        record { holds0 = refl; holds1 = refl; holds2 = refl },
        (record { holds0 = refl; holds1 = refl; holds2 = refl }, tt),
      )
      (omega arith, omega arith, omega arith, (omega arith, omega arith, omega arith, tt))

abbrev split_shares : Shared
split_shares = record { p0 = new 200 31; p1 = new 90 200; p2 = new 31 90 }

a2b_pre_shared_example :
    (x1 : Shared) × (x2 : Shared) × (x3 : Shared) × (a2b_pre 0 split_shares.p0
      ≡ some (x1.p0, x2.p0, x3.p0))
    × (a2b_pre 1 split_shares.p1 ≡ some (x1.p1, x2.p1, x3.p1))
    × (a2b_pre 2 split_shares.p2 ≡ some (x1.p2, x2.p2, x3.p2))
    × IsReplicated x1
    × IsReplicated x2
    × IsReplicated x3
    × (reconstruct 8 x1 ≡ split_shares.p0.a % 2 ^ 8)
    × (reconstruct 8 x2 ≡ split_shares.p1.a % 2 ^ 8)
    × (reconstruct 8 x3 ≡ split_shares.p2.a % 2 ^ 8)
    × (Ring.add 8 (Ring.add 8 (reconstruct 8 x1) (reconstruct 8 x2)) (reconstruct 8 x3)
        ≡ reconstruct 8 split_shares)
unfolding new
a2b_pre_shared_example =
    a2b_pre_shared 8 split_shares (record { holds0 = refl; holds1 = refl; holds2 = refl })
