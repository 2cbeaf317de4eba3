-- ===== src/Binary/Split.antt =====
-- The split of a shared value into three parts that are shared themselves.
use ampc_common.Base.{ℕ, ◌%◌, ◌^◌, ◌≡◌, refl, ap, arith, some}
use ampc_common.Ring
use ampc_common.Ring.Laws.{one_mod}
use ampc_common.Share.{new, zero_share}
use ampc_common.Share.Local.{Shared, IsReplicated, reconstruct}
use ampc_common.Binary.{a2b_pre}

-- When the parties hold replicated shares of a value, `a2b_pre` gives them, without an error,
-- replicated shares of three values that add up to it, modulo `2 ^ k`; each of the three is one of
-- the summands of the value.
pub a2b_pre_shared :
    (k : ℕ) (s : Shared)
    → IsReplicated s
    → (x1 : Shared) × (x2 : Shared) × (x3 : Shared) × (a2b_pre 0 s.p0 ≡ some (x1.p0, x2.p0, x3.p0))
      × (a2b_pre 1 s.p1 ≡ some (x1.p1, x2.p1, x3.p1))
      × (a2b_pre 2 s.p2 ≡ some (x1.p2, x2.p2, x3.p2))
      × IsReplicated x1
      × IsReplicated x2
      × IsReplicated x3
      × (reconstruct k x1 ≡ s.p0.a % 2 ^ k)
      × (reconstruct k x2 ≡ s.p1.a % 2 ^ k)
      × (reconstruct k x3 ≡ s.p2.a % 2 ^ k)
      × (Ring.add k (Ring.add k (reconstruct k x1) (reconstruct k x2)) (reconstruct k x3)
          ≡ reconstruct k s)
unfolding a2b_pre new zero_share
a2b_pre_shared k s r = (
  record { p0 = new s.p0.a 0; p1 = new 0 s.p1.b; p2 = zero_share },
  record { p0 = zero_share; p1 = new s.p1.a 0; p2 = new 0 s.p2.b },
  record { p0 = new 0 s.p0.b; p1 = zero_share; p2 = new s.p2.a 0 },
  refl,
  refl,
  refl,
  record { holds0 = refl; holds1 = r.holds1; holds2 = refl },
  record { holds0 = refl; holds1 = refl; holds2 = r.holds2 },
  record { holds0 = r.holds0; holds1 = refl; holds2 = refl },
  simp one_mod (ap (λ (t : ℕ). t % 2 ^ k) (omega arith)),
  simp one_mod (ap (λ (t : ℕ). t % 2 ^ k) (omega arith)),
  simp one_mod (ap (λ (t : ℕ). t % 2 ^ k) (omega arith)),
  simp one_mod (ap (λ (t : ℕ). t % 2 ^ k) (omega arith)),
)
