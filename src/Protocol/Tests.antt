-- ===== src/Protocol/Tests.antt =====
-- Runs of the theorems on the protocol: a generator that counts, and shares of 16 bits.
use ampc_common.Base.{
  ℕ, zero, suc, ◌+◌, ◌*◌, ◌%◌, ◌^◌, ◌≡◌, refl, ap, arith, some, Bool, true, false, List, [], ◌∷◌,
  length,
}
use ampc_common.Ring
use ampc_common.Ring.{zip_with}
use ampc_common.Share.{Share}
use ampc_common.Share.Local.{Shared, IsReplicated}
use ampc_common.Protocol.{
  Prf, setup_replicated_prf, reshare_send, reshare_receive, galois_ring_to_rep3_send,
  galois_ring_to_rep3_receive, open_ring, open_ring_send, reshare_mux_send,
}
use ampc_common.Protocol.Reshare.{
  AreSharesOf, IsInSync, product_sums, reshare_products_shared, galois_ring_to_rep3_shared,
}
use ampc_common.Protocol.Mux.{bit_values, selected, fields, reshare_mux_shared}
use ampc_common.Protocol.Open.{open_ring_shared}

-- A generator whose state is a number: it draws the successive numbers.
abbrev counting : ℕ → ℕ → ℕ → List ℕ × ℕ
counting k zero rng = ([], rng)
counting k (suc n) rng = (rng % 2 ^ k ∷ (counting k n (rng + 1)).0, (counting k n (rng + 1)).1)

length-counting : (k n rng : ℕ) → length (counting k n rng).0 ≡ n
length-counting k zero rng = refl
length-counting k (suc n) rng = ap suc (length-counting k n (rng + 1))

abbrev from_seed : List ℕ → ℕ
from_seed [] = 0
from_seed (b ∷ bs) = b + 256 * from_seed bs

abbrev seed0 : List ℕ
seed0 = 1 ∷ 2 ∷ []

abbrev seed1 : List ℕ
seed1 = 30 ∷ 4 ∷ []

abbrev seed2 : List ℕ
seed2 = 5 ∷ 255 ∷ []

abbrev prf0 : Prf ℕ
prf0 = record { my_prf = 513; prev_prf = 65285 }

abbrev prf1 : Prf ℕ
prf1 = record { my_prf = 1054; prev_prf = 513 }

abbrev prf2 : Prf ℕ
prf2 = record { my_prf = 65285; prev_prf = 1054 }

-- The generators that the set-up makes of the seeds of the party and of its predecessor.
set_up :
    (setup_replicated_prf from_seed seed0 seed2 ≡ prf0)
    × (setup_replicated_prf from_seed seed1 seed0 ≡ prf1)
    × (setup_replicated_prf from_seed seed2 seed1 ≡ prf2)
unfolding setup_replicated_prf
set_up = (refl, refl, refl)

prfs-IsInSync : IsInSync prf0 prf1 prf2
prfs-IsInSync = record { shared0 = refl; shared1 = refl; shared2 = refl }

abbrev products0 : ℕ → ℕ
products0 i = 100 + i

abbrev products1 : ℕ → ℕ
products1 i = 65535

abbrev products2 : ℕ → ℕ
products2 i = i * i

reshare_products_shared_example :
    AreSharesOf 16
      (product_sums 16 0 3 products0 products1 products2)
      (reshare_receive
        (reshare_send counting 16 3 products0 prf0).0
        (reshare_send counting 16 3 products2 prf2).0)
      (reshare_receive
        (reshare_send counting 16 3 products1 prf1).0
        (reshare_send counting 16 3 products0 prf0).0)
      (reshare_receive
        (reshare_send counting 16 3 products2 prf2).0
        (reshare_send counting 16 3 products1 prf1).0)
    × IsInSync
        (reshare_send counting 16 3 products0 prf0).1
        (reshare_send counting 16 3 products1 prf1).1
        (reshare_send counting 16 3 products2 prf2).1
reshare_products_shared_example =
    reshare_products_shared counting length-counting 16 3 products0 products1 products2 prf0 prf1
      prf2 prfs-IsInSync

galois_ring_to_rep3_shared_example :
    AreSharesOf 16
      (zip_with (Ring.add 16) (zip_with (Ring.add 16) seed0 seed1) seed2)
      (galois_ring_to_rep3_receive
        (galois_ring_to_rep3_send counting seed0 prf0).0
        (galois_ring_to_rep3_send counting seed2 prf2).0)
      (galois_ring_to_rep3_receive
        (galois_ring_to_rep3_send counting seed1 prf1).0
        (galois_ring_to_rep3_send counting seed0 prf0).0)
      (galois_ring_to_rep3_receive
        (galois_ring_to_rep3_send counting seed2 prf2).0
        (galois_ring_to_rep3_send counting seed1 prf1).0)
    × IsInSync
        (galois_ring_to_rep3_send counting seed0 prf0).1
        (galois_ring_to_rep3_send counting seed1 prf1).1
        (galois_ring_to_rep3_send counting seed2 prf2).1
galois_ring_to_rep3_shared_example =
    galois_ring_to_rep3_shared counting length-counting seed0 seed1 seed2 prf0 prf1 prf2 refl refl
      prfs-IsInSync

abbrev share : ℕ → ℕ → Share
share a b = record { a = a; b = b }

abbrev of_parts : ℕ → ℕ → ℕ → Shared
of_parts x0 x1 x2 = record { p0 = share x0 x2; p1 = share x1 x0; p2 = share x2 x1 }

of_parts-IsReplicated : (x0 x1 x2 : ℕ) → IsReplicated (of_parts x0 x1 x2)
of_parts-IsReplicated x0 x1 x2 = record { holds0 = refl; holds1 = refl; holds2 = refl }

-- Shares of the control bit 1, and of a value.
abbrev control : Shared
control = of_parts 65535 1 1

abbrev left : Shared
left = of_parts 10 20 30

-- Two elements of two fields each; the first control bit is 1, the second 0.
abbrev bits : List Bool
bits = true ∷ false ∷ []

abbrev control_off : Shared
control_off = of_parts 65535 0 1

abbrev lefts : ℕ → ℕ → Shared
lefts j f = of_parts (10 + j) 20 (30 + f)

abbrev rights : ℕ → ℕ → Shared
rights j f = of_parts 65000 (1 + f) (2 + j)

control_shares :
    AreSharesOf 16
      (bit_values bits)
      (control.p0 ∷ control_off.p0 ∷ [])
      (control.p1 ∷ control_off.p1 ∷ [])
      (control.p2 ∷ control_off.p2 ∷ [])
unfolding Ring.add
control_shares =
    (of_parts-IsReplicated 65535 1 1, refl, (of_parts-IsReplicated 65535 0 1, refl, tt))

reshare_mux_shared_example :
    (m0 : List ℕ × Prf ℕ) × (m1 : List ℕ × Prf ℕ) × (m2 : List ℕ × Prf ℕ) × (reshare_mux_send
        counting 16 2 2
        (control.p0 ∷ control_off.p0 ∷ [])
        (fields (λ s. s.p0) lefts rights)
        prf0
      ≡ some m0)
    × (reshare_mux_send counting 16 2 2
          (control.p1 ∷ control_off.p1 ∷ [])
          (fields (λ s. s.p1) lefts rights)
          prf1
        ≡ some m1)
    × (reshare_mux_send counting 16 2 2
          (control.p2 ∷ control_off.p2 ∷ [])
          (fields (λ s. s.p2) lefts rights)
          prf2
        ≡ some m2)
    × AreSharesOf 16
        (selected 16 2 bits lefts rights 0 (2 * 2))
        (reshare_receive m0.0 m2.0)
        (reshare_receive m1.0 m0.0)
        (reshare_receive m2.0 m1.0)
    × IsInSync m0.1 m1.1 m2.1
reshare_mux_shared_example =
    reshare_mux_shared counting length-counting 16 2 2 bits (control.p0 ∷ control_off.p0 ∷ [])
      (control.p1 ∷ control_off.p1 ∷ []) (control.p2 ∷ control_off.p2 ∷ []) lefts rights prf0 prf1
      prf2 (omega arith) (omega arith) control_shares
      (λ j f. of_parts-IsReplicated (10 + j) 20 (30 + f))
      (λ j f. of_parts-IsReplicated 65000 (1 + f) (2 + j)) prfs-IsInSync

are_shares :
    AreSharesOf 16
      (60 ∷ 1 ∷ [])
      (left.p0 ∷ control.p0 ∷ [])
      (left.p1 ∷ control.p1 ∷ [])
      (left.p2 ∷ control.p2 ∷ [])
unfolding Ring.add
are_shares = (of_parts-IsReplicated 10 20 30, refl, (of_parts-IsReplicated 65535 1 1, refl, tt))

open_ring_shared_example :
    (open_ring 16 (left.p0 ∷ control.p0 ∷ []) (open_ring_send (left.p2 ∷ control.p2 ∷ []))
      ≡ 60 ∷ 1 ∷ [])
    × (open_ring 16 (left.p1 ∷ control.p1 ∷ []) (open_ring_send (left.p0 ∷ control.p0 ∷ []))
        ≡ 60 ∷ 1 ∷ [])
    × (open_ring 16 (left.p2 ∷ control.p2 ∷ []) (open_ring_send (left.p1 ∷ control.p1 ∷ []))
        ≡ 60 ∷ 1 ∷ [])
open_ring_shared_example =
    open_ring_shared 16 (60 ∷ 1 ∷ []) (left.p0 ∷ control.p0 ∷ []) (left.p1 ∷ control.p1 ∷ [])
      (left.p2 ∷ control.p2 ∷ []) are_shares
