-- ===== src/Share/Local.antt =====
-- What the local operations on replicated shares do to the shared value.
use ampc_common.Base.{ℕ, suc, ◌%◌, ◌^◌, ◌≡◌, refl, ap, arith, none, some}
use ampc_common.Ring
use ampc_common.Ring.Laws.{one_mod}
use ampc_common.Share.{Share, add_assign_const_role, from_const, add, sub, neg, scale, mul}

-- The shares of the three parties, party 0 first.
pub record Shared : Type 0 where
  pub p0 : Share
  pub p1 : Share
  pub p2 : Share

-- Each party's second part is its predecessor's first.
pub record IsReplicated (s : Shared) : Type 0 where
  pub holds0 : s.p0.b ≡ s.p2.a
  pub holds1 : s.p1.b ≡ s.p0.a
  pub holds2 : s.p2.b ≡ s.p1.a

-- The shared value, the sum of the three first parts.
abbrev pub reconstruct : ℕ → Shared → ℕ
reconstruct k s = Ring.add k (Ring.add k s.p0.a s.p1.a) s.p2.a

-- One operation at every party.
abbrev pub each : (Share → Share) → Shared → Shared
each f s = record { p0 = f s.p0; p1 = f s.p1; p2 = f s.p2 }

abbrev pub each₂ : (Share → Share → Share) → Shared → Shared → Shared
each₂ f s t = record { p0 = f s.p0 t.p0; p1 = f s.p1 t.p1; p2 = f s.p2 t.p2 }

add_shared :
    (k : ℕ) (s t : Shared)
    → IsReplicated s
    → IsReplicated t
    → IsReplicated (each₂ (add k) s t)
      × (reconstruct k (each₂ (add k) s t) ≡ Ring.add k (reconstruct k s) (reconstruct k t))
unfolding add
add_shared k s t r q = (
  record { holds0 = cc; holds1 = cc; holds2 = cc },
  simp one_mod (ap (λ (t : ℕ). t % 2 ^ k) (omega arith)),
)

sub_shared :
    (k : ℕ) (s t : Shared)
    → IsReplicated s
    → IsReplicated t
    → IsReplicated (each₂ (sub k) s t)
      × (reconstruct k (each₂ (sub k) s t) ≡ Ring.sub k (reconstruct k s) (reconstruct k t))
unfolding sub
sub_shared k s t r q = (
  record { holds0 = cc; holds1 = cc; holds2 = cc },
  simp one_mod (ap (λ (t : ℕ). t % 2 ^ k) (omega arith)),
)

scale_shared :
    (k c : ℕ) (s : Shared)
    → IsReplicated s
    → IsReplicated (each (λ x. scale k x c) s)
      × (reconstruct k (each (λ x. scale k x c) s) ≡ Ring.mul k (reconstruct k s) c)
unfolding scale
scale_shared k c s r = (
  record { holds0 = cc; holds1 = cc; holds2 = cc },
  simp one_mod (ap (λ (t : ℕ). t % 2 ^ k) (omega arith)),
)

neg_shared :
    (k : ℕ) (s : Shared)
    → IsReplicated s
    → IsReplicated (each (neg k) s)
      × (reconstruct k (each (neg k) s) ≡ Ring.neg k (reconstruct k s))
unfolding neg
neg_shared k s r = (
  record { holds0 = cc; holds1 = cc; holds2 = cc },
  simp one_mod (ap (λ (t : ℕ). t % 2 ^ k) (omega arith)),
)

-- On replicated shares each party's own addition, subtraction, negation and multiplication by a
-- public value keep the shares replicated and do the same to the shared value, modulo `2 ^ k`.
pub linear_shared :
    (k c : ℕ) (s t : Shared)
    → IsReplicated s
    → IsReplicated t
    → IsReplicated (each₂ (add k) s t)
      × (reconstruct k (each₂ (add k) s t) ≡ Ring.add k (reconstruct k s) (reconstruct k t))
      × IsReplicated (each₂ (sub k) s t)
      × (reconstruct k (each₂ (sub k) s t) ≡ Ring.sub k (reconstruct k s) (reconstruct k t))
      × IsReplicated (each (neg k) s)
      × (reconstruct k (each (neg k) s) ≡ Ring.neg k (reconstruct k s))
      × IsReplicated (each (λ x. scale k x c) s)
      × (reconstruct k (each (λ x. scale k x c) s) ≡ Ring.mul k (reconstruct k s) c)
linear_shared k c s t r q = (
  (add_shared k s t r q).0,
  (add_shared k s t r q).1,
  (sub_shared k s t r q).0,
  (sub_shared k s t r q).1,
  (neg_shared k s r).0,
  (neg_shared k s r).1,
  (scale_shared k c s r).0,
  (scale_shared k c s r).1,
)

-- A public constant that every party adds to its replicated share under its role, 0, 1 or 2, keeps
-- the shares replicated and is added once to the value; a role above 2 is refused.
pub add_const_shared :
    (k c n : ℕ) (x : Share) (s : Shared)
    → IsReplicated s
    → (add_assign_const_role k x c (suc (suc (suc n))) ≡ none)
      × ((t : Shared) × (add_assign_const_role k s.p0 c 0 ≡ some t.p0)
          × (add_assign_const_role k s.p1 c 1 ≡ some t.p1)
          × (add_assign_const_role k s.p2 c 2 ≡ some t.p2)
          × IsReplicated t
          × (reconstruct k t ≡ Ring.add k (reconstruct k s) c))
unfolding add_assign_const_role
add_const_shared k c n x s r = (
  refl,
  (
    record {
      p0 = record s.p0 { a = Ring.add k s.p0.a c };
      p1 = record s.p1 { b = Ring.add k s.p1.b c };
      p2 = s.p2;
    },
    refl,
    refl,
    refl,
    record {
      holds0 = r.holds0;
      holds1 = ap (λ (u : ℕ). Ring.add k u c) r.holds1;
      holds2 = r.holds2;
    },
    simp one_mod (ap (λ (t : ℕ). t % 2 ^ k) (omega arith)),
  ),
)

-- The shares that `from_const` makes for the three roles are a sharing of the constant.
pub from_const_shared :
    (k c : ℕ)
    → (t : Shared) × (from_const k c 0 ≡ some t.p0)
      × (from_const k c 1 ≡ some t.p1)
      × (from_const k c 2 ≡ some t.p2)
      × IsReplicated t
      × (reconstruct k t ≡ c % 2 ^ k)
unfolding from_const
from_const_shared k c = (
  record {
    p0 = record { a = Ring.add k 0 c; b = 0 };
    p1 = record { a = 0; b = Ring.add k 0 c };
    p2 = record { a = 0; b = 0 };
  },
  refl,
  refl,
  refl,
  record { holds0 = refl; holds1 = refl; holds2 = refl },
  simp one_mod (ap (λ (t : ℕ). t % 2 ^ k) (omega arith)),
)

-- For replicated shares of two values, the three local products add up to the product of the
-- values, modulo `2 ^ k`.
pub mul_shared :
    (k : ℕ) (s t : Shared)
    → IsReplicated s
    → IsReplicated t
    → Ring.add k (Ring.add k (mul k s.p0 t.p0) (mul k s.p1 t.p1)) (mul k s.p2 t.p2)
      ≡ Ring.mul k (reconstruct k s) (reconstruct k t)
unfolding mul
mul_shared k s t r q =
    rw (r.holds0, r.holds1, r.holds2, q.holds0, q.holds1, q.holds2)
      (simp one_mod (ap (λ (t : ℕ). t % 2 ^ k) (omega arith)))
