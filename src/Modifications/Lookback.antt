-- ===== src/Modifications/Lookback.antt =====
-- The frontiers of the parties when a recovery plan is made.
use ampc_common.Base.{
  ℕ, ◌+◌, ◌-◌, ◌≤◌, ◌≡◌, refl, sym, arith, List, [], ◌∷◌, leb, Bool-cases, inl, inr, some,
  Option-cases,
}
use ampc_common.Base.Bytes.{ok, bind-ok}
use ampc_common.Modifications.{Modification}
use ampc_common.Modifications.Consistent.{IsPart, ensure_ok}
use ampc_common.Modifications.Recovery.{
  max_id, min_id, completed_max, max_of, min_of, within, ensure_modification_lookback,
  ModificationRecoveryPlan, recovery_plan,
}

max_above :
    (states : List (List Modification)) (state : List Modification) (a : ℕ)
    → IsPart state states
    → completed_max state ≡ some a
    → (greatest : ℕ) × (max_of states ≡ some greatest) × (a ≤ greatest)
unfolding max_of max_id
max_above [] state a part e = absurd part
max_above (x ∷ xs) state a (inl same) e = elim (Option-cases (max_of xs)) [
  | inl missing ↦ rw (sym same, e, missing) (a, refl, omega arith)
  | inr (b, found) ↦
      rw (sym same, e, found)
        elim (Bool-cases (leb a b)) [
          | inl le ↦ rw le (b, refl, ground arith)
          | inr gt ↦ rw gt (a, refl, omega arith)
        ]
]
max_above (x ∷ xs) state a (inr part) e =
    let ih = max_above xs state a part e in
    elim (Option-cases (completed_max x)) [
      | inl missing ↦ rw missing ih
      | inr (b, found) ↦
          rw (found, ih.1)
            elim (Bool-cases (leb b ih.0)) [
              | inl le ↦ rw le (ih.0, refl, ih.2)
              | inr gt ↦ rw gt (b, refl, ground (arith, ih.2))
            ]
    ]

min_below :
    (states : List (List Modification)) (state : List Modification) (a : ℕ)
    → IsPart state states
    → completed_max state ≡ some a
    → (least : ℕ) × (min_of states ≡ some least) × (least ≤ a)
unfolding min_of min_id
min_below [] state a part e = absurd part
min_below (x ∷ xs) state a (inl same) e = elim (Option-cases (min_of xs)) [
  | inl missing ↦ rw (sym same, e, missing) (a, refl, omega arith)
  | inr (b, found) ↦
      rw (sym same, e, found)
        elim (Bool-cases (leb a b)) [
          | inl le ↦ rw le (a, refl, omega arith)
          | inr gt ↦ rw gt (b, refl, ground arith)
        ]
]
min_below (x ∷ xs) state a (inr part) e =
    let ih = min_below xs state a part e in
    elim (Option-cases (completed_max x)) [
      | inl missing ↦ rw missing ih
      | inr (b, found) ↦
          rw (found, ih.1)
            elim (Bool-cases (leb b ih.0)) [
              | inl le ↦ rw le (b, refl, ground (arith, ih.2))
              | inr gt ↦ rw gt (ih.0, refl, ih.2)
            ]
    ]

-- When a recovery plan is made, no party's last completed modification is more than the lookback
-- ahead of another party's.
pub recovery_plan-lookback :
    (my : List Modification) (states : List (List Modification)) (max_lookback : ℕ)
    (plan : ModificationRecoveryPlan) (state state' : List Modification) (a b : ℕ)
    → recovery_plan my states max_lookback ≡ ok plan
    → IsPart state states
    → IsPart state' states
    → completed_max state ≡ some a
    → completed_max state' ≡ some b
    → b ≤ a + max_lookback
unfolding recovery_plan ensure_modification_lookback within
recovery_plan-lookback my states max_lookback plan state state' a b e part part' ea eb =
    let checked = bind-ok (ensure_modification_lookback states max_lookback) _ plan e in
    let low = min_below states state a part ea in
    let high = max_above states state' b part' eb in
    let inside = ensure_ok (leb (high.0 - low.0) max_lookback) (rw (low.1, high.1) at checked.1) in
    ground (arith, low.2, high.2, inside)
