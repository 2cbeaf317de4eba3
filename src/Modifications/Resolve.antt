-- ===== src/Modifications/Resolve.antt =====
-- A plan does for every identifier what was decided for its group, and nothing for the others.
use ampc_common.Base.{
  ℕ, ◌≡◌, refl, ◌∙◌, subst, arith, List, [], ◌∷◌, true, false, ◌==◌, ◌||◌, not, Bool-cases, ◌⊎◌,
  inl, inr, none, Option-cases,
}
use ampc_common.Base.Bytes.{ok, bind-ok, ok_inj}
use ampc_common.Base.Equality.{◌=?◌, string_eq, bool_eq, option_eq, nat_eq}
use ampc_common.Modifications.{
  Modification, ModificationPlan, Decision, keep, update, delete, add_decision, plan_groups, decide,
  decide_deleted, decide_completed, find, any, or_else, check_modifications_consistency,
  find_serial, mod_status_completed,
}
use ampc_common.Modifications.Groups.{HasId, IsNonEmpty, IsGrouped, group_at, Above-missing}
use ampc_common.Modifications.Plan.{
  has_id, resolved, apply_decision, find_id, Decided, unfinished, finished, decide_lem,
  first_completed_id,
}

abbrev DecidesFor : ℕ → Decision → Type 0
DecidesFor i keep = Unit {0}
DecidesFor i (update m) = m.id ≡ i
DecidesFor i (delete m) = m.id ≡ i

decides_for :
    (i : ℕ) (my group : List Modification) (d : Decision)
    → HasId i group
    → Decided (find (has_id i) my) group d
    → DecidesFor i d
unfolding decide_deleted decide_completed
decides_for i my group _ h (unfinished done) = elim (Option-cases (find (has_id i) my)) [
  | inl missing ↦ rw missing tt
  | inr (m, found) ↦ rw found (find_id i m my found)
]
decides_for i my group _ h (finished x open_ first) = elim (Option-cases (find (has_id i) my)) [
  | inl missing ↦ rw missing tt
  | inr (m, found) ↦
      rw found
        (elim (Bool-cases (
          not (m.status =? mod_status_completed)
          || not (m.persisted =? any (λ m'. m'.persisted) group)
          || not (m.serial_id =? find_serial group))) [
            | inl differs ↦ rw differs (first_completed_id i x group h first)
            | inr same ↦ rw same tt
          ])
]

-- The plan has nothing for an identifier.
record IsQuiet (plan : ModificationPlan) (i : ℕ) : Type 0 where
  no_update : find (has_id i) plan.to_update ≡ none
  no_delete : any (has_id i) plan.to_delete ≡ false

record IsSameFor (i : ℕ) (p q : ModificationPlan) : Type 0 where
  updates : find (has_id i) p.to_update ≡ find (has_id i) q.to_update
  deletes : any (has_id i) p.to_delete ≡ any (has_id i) q.to_delete

add_other :
    (i j : ℕ) (d : Decision) (plan : ModificationPlan)
    → DecidesFor j d
    → (j == i) ≡ false
    → IsSameFor i (add_decision d plan) plan
unfolding add_decision find any
add_other i j keep plan h differ = record { updates = refl; deletes = refl }
add_other i j (update m) plan h differ =
    let other : (m.id == i) ≡ false = ground arith in
    record { updates = rw other refl; deletes = refl }
add_other i j (delete m) plan h differ =
    let other : (m.id == i) ≡ false = ground arith in
    record { updates = refl; deletes = rw other refl }

-- The steps of a plan that was made.
plan_steps :
    (my : List Modification) (i : ℕ) (group : List Modification) (gs : List (ℕ × List Modification))
    (plan : ModificationPlan)
    → plan_groups my ((i, group) ∷ gs) ≡ ok plan
    → (d : Decision) × (rest : ModificationPlan) × (check_modifications_consistency group ≡ ok tt)
      × (decide (find (has_id i) my) group ≡ ok d)
      × (plan_groups my gs ≡ ok rest)
      × (add_decision d rest ≡ plan)
unfolding plan_groups
plan_steps my i group gs plan e =
    let checked = bind-ok (check_modifications_consistency group) _ plan e in
    let decided = bind-ok (decide (find (has_id i) my) group) _ plan checked.2 in
    let planned = bind-ok (plan_groups my gs) _ plan decided.2 in
    (decided.0, planned.0, checked.1, decided.1, planned.1, ok_inj _ plan planned.2)

plan-IsQuiet :
    (my : List Modification) (gs : List (ℕ × List Modification)) (plan : ModificationPlan) (i : ℕ)
    → IsGrouped gs
    → plan_groups my gs ≡ ok plan
    → group_at i gs ≡ []
    → IsQuiet plan i
unfolding plan_groups find any
plan-IsQuiet my [] plan i h e missing =
    subst (λ p. IsQuiet p i) (ok_inj _ plan e) (record { no_update = refl; no_delete = refl })
plan-IsQuiet my ((j, group) ∷ gs) plan i h e missing = elim (Bool-cases (j == i)) [
  | inl here ↦ absurd (subst IsNonEmpty (rw here at missing) h.2)
  | inr there ↦
      let s = plan_steps my j group gs plan e in
      let decided =
        decides_for j my group s.0 h.1 (decide_lem (find (has_id j) my) group s.0 s.3) in
      let ih = plan-IsQuiet my gs s.1 i h.3 s.4 (rw there at missing) in
      let same = add_other i j s.0 s.1 decided there in
      subst (λ p. IsQuiet p i) s.5
        (record {
          no_update = same.updates ∙ ih.no_update;
          no_delete = same.deletes ∙ ih.no_delete;
        })
]

add_own :
    (i : ℕ) (d : Decision) (plan : ModificationPlan) (my : List Modification)
    → DecidesFor i d
    → IsQuiet plan i
    → resolved (add_decision d plan) my i ≡ apply_decision d (find (has_id i) my)
unfolding add_decision find any resolved apply_decision or_else
add_own i keep plan my h quiet = rw (quiet.no_delete, quiet.no_update) refl
add_own i (update m) plan my h quiet =
    let own : (m.id == i) ≡ true = ground arith in rw (quiet.no_delete, own) refl
add_own i (delete m) plan my h quiet = let own : (m.id == i) ≡ true = ground arith in rw own refl

-- What a plan does for an identifier that has a group.
pub record IsPlanned (my group : List Modification) (plan : ModificationPlan) (i : ℕ) : Type 0 where
  pub decision : Decision
  pub consistent : check_modifications_consistency group ≡ ok tt
  pub decided : Decided (find (has_id i) my) group decision
  pub applied : resolved plan my i ≡ apply_decision decision (find (has_id i) my)

pub plan_resolves :
    (my : List Modification) (gs : List (ℕ × List Modification)) (plan : ModificationPlan) (i : ℕ)
    → IsGrouped gs
    → plan_groups my gs ≡ ok plan
    → ((group_at i gs ≡ []) × (resolved plan my i ≡ find (has_id i) my))
      ⊎ IsPlanned my (group_at i gs) plan i
unfolding resolved or_else
plan_resolves my [] plan i h e =
    let quiet = plan-IsQuiet my [] plan i h e refl in
    inl (refl, rw (quiet.no_delete, quiet.no_update) refl)
plan_resolves my ((j, group) ∷ gs) plan i h e =
    let s = plan_steps my j group gs plan e in
    let decided = decide_lem (find (has_id j) my) group s.0 s.3 in
    let own = decides_for j my group s.0 h.1 decided in
    elim (Bool-cases (j == i)) [
      | inl here ↦
          let quiet = plan-IsQuiet my gs s.1 j h.3 s.4 (Above-missing j j gs (omega arith) h.0) in
          let planned : IsPlanned my group plan j = record {
            decision = s.0;
            consistent = s.2;
            decided = decided;
            applied =
                subst (λ p. resolved p my j ≡ apply_decision s.0 (find (has_id j) my)) s.5
                  (add_own j s.0 s.1 my own quiet);
          } in
          rw here (inr (subst (IsPlanned my group plan) (ground arith) planned))
      | inr there ↦
          let same = add_other i j s.0 s.1 own there in
          let moved : resolved plan my i ≡ resolved s.1 my i =
            subst (λ p. resolved p my i ≡ resolved s.1 my i) s.5
              (rw (same.updates, same.deletes) refl) in
          rw there elim (plan_resolves my gs s.1 i h.3 s.4) [
            | inl (missing, kept) ↦ inl (missing, moved ∙ kept)
            | inr p ↦ inr (record {
              decision = p.decision;
              consistent = p.consistent;
              decided = p.decided;
              applied = moved ∙ p.applied;
            })
          ]
    ]
