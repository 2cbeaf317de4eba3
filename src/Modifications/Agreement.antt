-- ===== src/Modifications/Agreement.antt =====
-- The parties agree after they have carried out their plans.
use ampc_common.Base.{
  ℕ, ◌≡◌, refl, sym, ◌∙◌, subst, arith, List, [], ◌∷◌, true, ◌==◌, ◌||◌, not, Bool-cases, ◌⊎◌, inl,
  inr, ==_iff, none, some, Option-cases, some_inj,
}
use ampc_common.Base.Bytes.{ok, panic-neq-ok}
use ampc_common.Base.Equality.{◌=?◌, same_refl, string_eq, bool_eq, option_eq, nat_eq}
use ampc_common.Modifications.{
  Modification, ModificationPlan, Decision, decide_deleted, decide_completed, find, any,
  check_modifications_consistency, find_serial, mod_status_completed,
}
use ampc_common.Modifications.Groups.{HasId}
use ampc_common.Modifications.Plan.{
  has_id, resolved, apply_decision, find_id, forward_of, Decided, unfinished, finished,
  first_completed_id,
}
use ampc_common.Modifications.Resolve.{IsPlanned, plan_resolves}
use ampc_common.Modifications.Groups.{group_of, group_all-IsGrouped, group_at-group_all}
use ampc_common.Modifications.{compare_modifications, flatten, group_all, eq, input_eq}
use ampc_common.Modifications.Consistent.{
  In, IsPart, find-In, In-flatten, In-group, IsAgreed, consistent-IsLike, first_completed-In,
  unchanged,
}

cons-neq-nil : (m : Modification) (ms : List Modification) → m ∷ ms ≡ [] → ⊥
cons-neq-nil m ms h = cc

none-neq-some : (m : Modification) → none ≡ some m → ⊥
none-neq-some m h = cc

decided-IsAgreed :
    (i : ℕ) (first m : Modification) (rest my : List Modification) (d : Decision)
    → ((l : Modification) → find (has_id i) my ≡ some l → In l (first ∷ rest))
    → HasId i (first ∷ rest)
    → check_modifications_consistency (first ∷ rest) ≡ ok tt
    → Decided (find (has_id i) my) (first ∷ rest) d
    → apply_decision d (find (has_id i) my) ≡ some m
    → IsAgreed i first (first ∷ rest) m
unfolding decide_deleted decide_completed apply_decision
decided-IsAgreed i first m rest my _ own ids e (unfinished done) h =
    elim (Option-cases (find (has_id i) my)) [
      | inl missing ↦ absurd (none-neq-some m (rw missing at h))
      | inr (l, found) ↦ absurd (none-neq-some m (rw found at h))
    ]
decided-IsAgreed i first m rest my _ own ids e (finished x open_ chosen) h =
    elim (Option-cases (find (has_id i) my)) [
      | inl missing ↦ absurd (none-neq-some m (rw missing at h))
      | inr (l, found) ↦
          let group : List Modification = first ∷ rest in
          elim (Bool-cases (
            not (l.status =? mod_status_completed)
            || not (l.persisted =? any (λ m'. m'.persisted) group)
            || not (l.serial_id =? find_serial group))) [
              | inl differs ↦
                  let shared =
                    consistent-IsLike first x rest e (first_completed-In x group chosen) in
                  subst (IsAgreed i first group)
                    (some_inj (forward_of group x) m (rw (found, differs) at h))
                    (record {
                      agreed_id = first_completed_id i x group ids chosen;
                      like = record {
                        same_request = shared.same_request;
                        same_input = shared.same_input;
                      };
                      completed = refl;
                      agreed_persisted = refl;
                      agreed_serial = refl;
                    })
              | inr same ↦
                  let fields = unchanged l group same in
                  subst (IsAgreed i first group) (some_inj l m (rw (found, same) at h)) (record {
                    agreed_id = find_id i l my found;
                    like = consistent-IsLike first l rest e (own l found);
                    completed = fields.0;
                    agreed_persisted = fields.1;
                    agreed_serial = fields.2;
                  })
            ]
    ]

group_of_ids : (i : ℕ) (ms : List Modification) → HasId i (group_of i ms)
group_of_ids i [] = tt
group_of_ids i (m ∷ ms) = elim (Bool-cases (m.id == i)) [
  | inl same ↦ rw same (ground arith, group_of_ids i ms)
  | inr differ ↦ rw differ (group_of_ids i ms)
]

-- A party's own copy is in the group of its identifier.
own-In :
    (states : List (List Modification)) (my : List Modification) (i : ℕ) (l : Modification)
    → IsPart my states
    → find (has_id i) my ≡ some l
    → In l (group_of i (flatten states))
own-In states my i l part found =
    subst (λ k. In l (group_of k (flatten states))) (find_id i l my found)
      (In-group l (flatten states) (In-flatten l my states part (find-In (has_id i) l my found)))

-- What a plan that was made says of an identifier, with the group taken from the snapshots.
compare_modifications-IsPlanned :
    (states : List (List Modification)) (my : List Modification) (plan : ModificationPlan) (i : ℕ)
    → compare_modifications my states ≡ ok plan
    → ((group_of i (flatten states) ≡ []) × (resolved plan my i ≡ find (has_id i) my))
      ⊎ IsPlanned my (group_of i (flatten states)) plan i
unfolding compare_modifications
compare_modifications-IsPlanned states my plan i e =
    subst (λ gr. ((gr ≡ []) × (resolved plan my i ≡ find (has_id i) my)) ⊎ IsPlanned my gr plan i)
      (group_at-group_all i (flatten states) [] tt)
      (plan_resolves my (group_all (flatten states) []) plan i
        (group_all-IsGrouped (flatten states) [] tt) e)

List-cases :
    (ms : List Modification)
    → (ms ≡ []) ⊎ ((first : Modification) × (rest : List Modification) × (ms ≡ first ∷ rest))
List-cases [] = inl refl
List-cases (m ∷ ms) = inr (m, ms, refl)

-- A record that a party has in the end has a group, and is the agreed one.
resolved-IsAgreed :
    (states : List (List Modification)) (my : List Modification) (plan : ModificationPlan) (i : ℕ)
    (m first : Modification) (rest : List Modification)
    → group_of i (flatten states) ≡ first ∷ rest
    → IsPart my states
    → compare_modifications my states ≡ ok plan
    → resolved plan my i ≡ some m
    → IsAgreed i first (first ∷ rest) m
resolved-IsAgreed states my plan i m first rest g part e h =
    elim (compare_modifications-IsPlanned states my plan i e) [
      | inl (missing, kept) ↦ absurd (cons-neq-nil first rest (sym g ∙ missing))
      | inr p ↦
          let q = subst (λ gr. IsPlanned my gr plan i) g p in
          decided-IsAgreed i first m rest my q.decision
            (λ l found. subst (In l) g (own-In states my i l part found))
            (subst (HasId i) g (group_of_ids i (flatten states))) q.consistent q.decided
            (sym q.applied ∙ h)
    ]

party_has_group :
    (states : List (List Modification)) (my : List Modification) (plan : ModificationPlan) (i : ℕ)
    (m : Modification)
    → IsPart my states
    → compare_modifications my states ≡ ok plan
    → resolved plan my i ≡ some m
    → group_of i (flatten states) ≡ []
    → ⊥
unfolding check_modifications_consistency
party_has_group states my plan i m part e h none_ =
    elim (compare_modifications-IsPlanned states my plan i e) [
      | inl (missing, kept) ↦ subst (In m) none_ (own-In states my i m part (sym kept ∙ h))
      | inr p ↦
          panic-neq-ok tt
            (subst (λ gr. check_modifications_consistency gr ≡ ok tt) none_ p.consistent)
    ]

agreed_eq :
    (i : ℕ) (first m m' : Modification) (group : List Modification)
    → IsAgreed i first group m
    → IsAgreed i first group m'
    → eq m m' ≡ true
unfolding eq string_eq
agreed_eq i first m m' group a b =
    rw
      (
        a.agreed_id, b.agreed_id, a.agreed_serial, b.agreed_serial, a.like.same_request,
        b.like.same_request, a.like.same_input, b.like.same_input, a.completed, b.completed,
        a.agreed_persisted, b.agreed_persisted,
      )
      (rw
        (
          (==_iff i i).1 refl,
          same_refl (find_serial group),
          same_refl first.request_type,
          same_refl first.input,
          same_refl (any (λ x. x.persisted) group),
        )
        refl)

-- When two parties compare their records with the same snapshots of all parties, and each of them
-- carries out its plan, then whatever both have under an identifier is equal but for the bodies of
-- the results.
pub parties_agree :
    (states : List (List Modification)) (my my' : List Modification) (plan plan' : ModificationPlan)
    (i : ℕ) (m m' : Modification)
    → IsPart my states
    → IsPart my' states
    → compare_modifications my states ≡ ok plan
    → compare_modifications my' states ≡ ok plan'
    → resolved plan my i ≡ some m
    → resolved plan' my' i ≡ some m'
    → eq m m' ≡ true
parties_agree states my my' plan plan' i m m' part part' e e' h h' =
    elim (List-cases (group_of i (flatten states))) [
      | inl missing ↦ absurd (party_has_group states my plan i m part e h missing)
      | inr (first, rest, g) ↦
          agreed_eq i first m m' (first ∷ rest)
            (resolved-IsAgreed states my plan i m first rest g part e h)
            (resolved-IsAgreed states my' plan' i m' first rest g part' e' h')
    ]
