-- ===== src/Modifications/Tests.antt =====
-- Runs of the theorems on modifications: the first party has completed 1, the second has not, and 2
-- is in progress at both.

use ampc_common.Base.{ℕ, ◌+◌, ◌≤◌, ◌≡◌, ◌≢◌, refl, List, [], ◌∷◌, true, false, none, some, inl, inr}
use ampc_common.Base.Bytes.{ok, panic}
use ampc_common.Base.Equality.{option_test, option_eq, nat_eq, string_eq, bool_eq}
use ampc_common.Modifications.{
  Modification, ModificationPlan, compare_modifications, eq, plan_groups, group_all, push_group,
  flatten, decide, decide_deleted, decide_completed, roll_forward, first_completed, find, any, all,
  or_else, find_serial, is_completed, is_in_progress, add_decision, check_modifications_consistency,
  check_loop, next_serial, input_eq,
}
use ampc_common.Modifications.Plan.{resolved}
use ampc_common.Modifications.Recovery.{
  recovery_plan, ensure_modification_lookback, within, min_of, max_of, min_id, max_id,
  completed_max, roll_forwards, ModificationRecoveryPlan,
}
use ampc_common.Modifications.Agreement.{parties_agree}
use ampc_common.Modifications.Lookback.{recovery_plan-lookback}
use ampc_common.Modifications.Outcome.{outcome, outcome-compare_modifications}

abbrev started : ℕ → Modification
started i = record {
  id = i;
  serial_id = none;
  request_type = "uniqueness";
  input = none;
  status = "IN_PROGRESS";
  persisted = false;
  result_message_body = none;
}

abbrev finished : ℕ → Modification
finished i = record {
  id = i;
  serial_id = some 7;
  request_type = "uniqueness";
  input = none;
  status = "COMPLETED";
  persisted = true;
  result_message_body = some "done";
}

abbrev ahead : List Modification
ahead = finished 1 ∷ started 2 ∷ []

abbrev behind : List Modification
behind = started 2 ∷ started 1 ∷ []

abbrev plan_ahead : ModificationPlan
plan_ahead = record { to_update = []; to_delete = started 2 ∷ [] }

abbrev plan_behind : ModificationPlan
plan_behind = record { to_update = finished 1 ∷ []; to_delete = started 2 ∷ [] }

compare_ahead : compare_modifications ahead (ahead ∷ behind ∷ []) ≡ ok plan_ahead
unfolding compare_modifications plan_groups group_all push_group flatten decide decide_deleted
    decide_completed roll_forward first_completed find any all or_else find_serial is_completed
    is_in_progress add_decision check_modifications_consistency check_loop next_serial option_test
    option_eq nat_eq string_eq input_eq bool_eq
compare_ahead = refl

compare_behind : compare_modifications behind (ahead ∷ behind ∷ []) ≡ ok plan_behind
unfolding compare_modifications plan_groups group_all push_group flatten decide decide_deleted
    decide_completed roll_forward first_completed find any all or_else find_serial is_completed
    is_in_progress add_decision check_modifications_consistency check_loop next_serial option_test
    option_eq nat_eq string_eq input_eq bool_eq
compare_behind = refl

runs_ahead : resolved plan_ahead ahead 1 ≡ some (finished 1)
unfolding resolved find any or_else
runs_ahead = refl

runs_behind : resolved plan_behind behind 1 ≡ some (finished 1)
unfolding resolved find any or_else
runs_behind = refl

parties_agree_example : eq (finished 1) (finished 1) ≡ true
parties_agree_example =
    parties_agree (ahead ∷ behind ∷ []) ahead behind plan_ahead plan_behind 1 (finished 1)
      (finished 1) (inl refl) (inr (inl refl)) compare_ahead compare_behind runs_ahead runs_behind

outcome-compare_modifications_example :
    (outcome (compare_modifications ahead (ahead ∷ behind ∷ []))
      ≡ outcome (compare_modifications [] (ahead ∷ behind ∷ [])))
    × (compare_modifications ahead (ahead ∷ behind ∷ []) ≢ panic)
outcome-compare_modifications_example = outcome-compare_modifications ahead [] (ahead ∷ behind ∷ [])

abbrev states : List (List Modification)
states = (finished 3 ∷ finished 1 ∷ []) ∷ (finished 2 ∷ []) ∷ []

abbrev recovery : ModificationRecoveryPlan
recovery = record { updates = []; deletes = [] }

recovered : recovery_plan [] states 1 ≡ ok recovery
unfolding recovery_plan ensure_modification_lookback within min_of max_of min_id max_id
    completed_max roll_forwards compare_modifications plan_groups group_all push_group flatten
    decide decide_deleted decide_completed roll_forward first_completed find any all or_else
    find_serial is_completed is_in_progress add_decision check_modifications_consistency check_loop
    next_serial option_test option_eq nat_eq string_eq input_eq bool_eq
recovered = refl

frontier_ahead : completed_max (finished 3 ∷ finished 1 ∷ []) ≡ some 3
unfolding completed_max max_id is_completed string_eq
frontier_ahead = refl

frontier_behind : completed_max (finished 2 ∷ []) ≡ some 2
unfolding completed_max max_id is_completed string_eq
frontier_behind = refl

recovery_plan-lookback_example : 3 ≤ 2 + 1
recovery_plan-lookback_example =
    recovery_plan-lookback [] states 1 recovery (finished 2 ∷ []) (finished 3 ∷ finished 1 ∷ []) 2 3
      recovered (inr (inl refl)) (inl refl) frontier_behind frontier_ahead
