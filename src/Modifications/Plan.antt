-- ===== src/Modifications/Plan.antt =====
-- What a plan says of one identifier.
use ampc_common.Base.{
  ℕ, ◌≡◌, ap, sym, ◌∙◌, subst, arith, List, [], ◌∷◌, Bool, true, false, ◌==◌, ◌&&◌, if◌then◌else◌,
  Bool-cases, inl, inr, Option, none, some, Option-cases, some_inj,
}
use ampc_common.Base.Bytes.{ok, bind-ok, ok_inj, panic-neq-ok, bail-neq-ok}
use ampc_common.Base.Equality.{◌=?◌, string_eq, bool_eq, option_eq, nat_eq}
use ampc_common.Modifications.{
  Modification, ModificationPlan, Decision, keep, update, delete, decide, decide_deleted,
  decide_completed, roll_forward, first_completed, find, any, all, or_else, is_completed,
  is_in_progress, find_serial, mod_status_completed,
}
use ampc_common.Modifications.Groups.{HasId}

-- Whether a modification has the identifier.
abbrev pub has_id : ℕ → Modification → Bool
has_id i m = m.id == i

-- What a party has under an identifier after it has carried out its plan.
unfoldable pub resolved : ModificationPlan → List Modification → ℕ → Option Modification
resolved plan my i =
    if any (has_id i) plan.to_delete
    then none
    else or_else (find (has_id i) plan.to_update) (find (has_id i) my)

unfoldable pub apply_decision : Decision → Option Modification → Option Modification
apply_decision keep local_copy = local_copy
apply_decision (update m) local_copy = some m
apply_decision (delete m) local_copy = none

abbrev DecidesFor : ℕ → Decision → Type 0
DecidesFor i keep = Unit {0}
DecidesFor i (update m) = m.id ≡ i
DecidesFor i (delete m) = m.id ≡ i

pub find_id :
    (i : ℕ) (m : Modification) (ms : List Modification) → find (has_id i) ms ≡ some m → m.id ≡ i
unfolding find
find_id i m [] h = cc
find_id i m (x ∷ xs) h = elim (Bool-cases (x.id == i)) [
  | inl same ↦ ap (λ y. y.id) (sym (some_inj x m (rw same at h))) ∙ ground arith
  | inr differ ↦ find_id i m xs (rw differ at h)
]

pub find-HasId :
    (i : ℕ) (test : Modification → Bool) (m : Modification) (ms : List Modification)
    → HasId i ms
    → find test ms ≡ some m
    → m.id ≡ i
unfolding find
find-HasId i test m [] h e = cc
find-HasId i test m (x ∷ xs) h e = elim (Bool-cases (test x)) [
  | inl passes ↦ ap (λ y. y.id) (sym (some_inj x m (rw passes at e))) ∙ h.0
  | inr fails ↦ find-HasId i test m xs h.1 (rw fails at e)
]

-- A decision for a group is about its identifier.
pub first_completed_id :
    (i : ℕ) (m : Modification) (group : List Modification)
    → HasId i group
    → first_completed group ≡ some m
    → m.id ≡ i
unfolding first_completed or_else
first_completed_id i m group h e =
    elim (Option-cases (find (λ x. is_completed x && x.serial_id =? find_serial group) group)) [
      | inl missing ↦ find-HasId i is_completed m group h (rw missing at e)
      | inr (x, found) ↦
          find-HasId i (λ y. is_completed y && y.serial_id =? find_serial group) m group h
            (found ∙ (rw found at e))
    ]

-- The rolled forward modification is a completed one but for three fields.
abbrev pub forward_of : List Modification → Modification → Modification
forward_of group m = record m {
  status = mod_status_completed;
  persisted = any (λ m'. m'.persisted) group;
  serial_id = find_serial group;
}

pub roll_forward_lem :
    (m : Modification) (group : List Modification)
    → roll_forward group ≡ ok m
    → (x : Modification) × (first_completed group ≡ some x) × (m ≡ forward_of group x)
unfolding roll_forward
roll_forward_lem m group e = elim (Option-cases (first_completed group)) [
  | inl missing ↦ absurd (panic-neq-ok m (rw (roll_forward, missing) at e))
  | inr (x, found) ↦ (x, found, sym (ok_inj _ m (rw (roll_forward, found) at e)))
]

-- The three cases of a decision that was made.
pub data Decided (my_copy : Option Modification) (group : List Modification)
    : Decision → Type 0 where
  unfinished : all is_in_progress group ≡ true → Decided my_copy group (decide_deleted my_copy)
  finished :
      (x : Modification)
      → all is_in_progress group ≡ false
      → first_completed group ≡ some x
      → Decided my_copy group (decide_completed group (forward_of group x) my_copy)

pub decide_lem :
    (my_copy : Option Modification) (group : List Modification) (d : Decision)
    → decide my_copy group ≡ ok d
    → Decided my_copy group d
unfolding decide
decide_lem my_copy group d e = elim (Bool-cases (all is_in_progress group)) [
  | inl none_done ↦
      subst (Decided my_copy group) (ok_inj _ d (rw none_done at e)) (unfinished none_done)
  | inr some_done ↦ elim (Bool-cases (any is_completed group)) [
    | inl completed ↦
        let made = bind-ok (roll_forward group) _ d (rw (some_done, completed) at e) in
        let forward = roll_forward_lem made.0 group made.1 in
        subst (Decided my_copy group)
          (ap (λ f. decide_completed group f my_copy) (sym forward.2) ∙ ok_inj _ d made.2)
          (finished forward.0 some_done forward.1)
    | inr stuck ↦ absurd (bail-neq-ok d (rw (some_done, stuck) at e))
  ]
]
