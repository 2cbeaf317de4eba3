-- ===== src/Modifications/Recovery.antt =====
-- `ensure_modification_lookback`, `requires_modification_apply` and `recovery_plan`.
use ampc_common.Base.{
  ℕ, ◌-◌, List, [], ◌∷◌, Bool, false, ◌==◌, leb, ◌&&◌, not, if◌then◌else◌, Option, none, some,
}
use ampc_common.Base.Bytes.{Read, ok, ensure, ◌>>=◌, ◌>>◌}
use ampc_common.Base.Equality.{string_eq}
use ampc_common.Modifications.{Modification, compare_modifications, find, is_completed}

-- The greater and the lesser of two identifiers, where one or both may be missing.
unfoldable pub max_id : Option ℕ → Option ℕ → Option ℕ
max_id none b = b
max_id (some a) none = some a
max_id (some a) (some b) = if leb a b then some b else some a

unfoldable pub min_id : Option ℕ → Option ℕ → Option ℕ
min_id none b = b
min_id (some a) none = some a
min_id (some a) (some b) = if leb a b then some a else some b

-- The greatest identifier of a completed modification.
unfoldable pub completed_max : List Modification → Option ℕ
completed_max [] = none
completed_max (m ∷ ms) =
    if is_completed m then max_id (some m.id) (completed_max ms) else completed_max ms

unfoldable pub max_of : List (List Modification) → Option ℕ
max_of [] = none
max_of (state ∷ states) = max_id (completed_max state) (max_of states)

unfoldable pub min_of : List (List Modification) → Option ℕ
min_of [] = none
min_of (state ∷ states) = min_id (completed_max state) (min_of states)

unfoldable pub within : Option ℕ → Option ℕ → ℕ → Read (Unit {0})
within (some least) (some greatest) max_lookback = ensure (leb (greatest - least) max_lookback)
within _ _ max_lookback = ok tt

unfoldable pub ensure_modification_lookback : List (List Modification) → ℕ → Read (Unit {0})
ensure_modification_lookback states max_lookback =
    within (min_of states) (max_of states) max_lookback

unfoldable pub is_applied : Option Modification → Bool
is_applied none = false
is_applied (some m) = is_completed m && m.persisted

unfoldable pub requires_modification_apply : Modification → Option Modification → Bool
requires_modification_apply m local_copy = m.persisted && not (is_applied local_copy)

pub record RollForwardModification : Type 0 where
  pub modification : Modification
  pub apply_mutation : Bool

pub record ModificationRecoveryPlan : Type 0 where
  pub updates : List RollForwardModification
  pub deletes : List Modification

unfoldable pub roll_forwards : List Modification → List Modification → List RollForwardModification
roll_forwards my [] = []
roll_forwards my (m ∷ ms) =
    record {
      modification = m;
      apply_mutation = requires_modification_apply m (find (λ x. x.id == m.id) my);
    }
    ∷ roll_forwards my ms

unfoldable pub recovery_plan :
    List Modification → List (List Modification) → ℕ → Read ModificationRecoveryPlan
recovery_plan my states max_lookback = do
  ensure_modification_lookback states max_lookback
  plan ← compare_modifications my states
  ok (record { updates = roll_forwards my plan.to_update; deletes = plan.to_delete })
