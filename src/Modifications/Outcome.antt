-- ===== src/Modifications/Outcome.antt =====
-- That a plan can be made does not depend on the party, and making it does not panic.
use ampc_common.Base.{
  ℕ, ◌≡◌, ◌≢◌, refl, sym, ◌∙◌, subst, List, [], ◌∷◌, Bool, true, false, ◌==◌, ◌&&◌, ◌||◌,
  Bool-cases, inl, inr, Option, none, some, Option-cases,
}
use ampc_common.Base.Bytes.{Read, ok, bail, panic, ensure, ◌>>=◌}
use ampc_common.Base.Equality.{◌=?◌, string_eq, option_eq, nat_eq}
use ampc_common.Modifications.{
  Modification, decide, roll_forward, first_completed, find, any, all, or_else, plan_groups,
  compare_modifications, check_modifications_consistency, check_loop, next_serial, group_all,
  flatten, is_completed, is_in_progress, find_serial, input_eq, mod_status_in_progress,
  mod_status_completed,
}
use ampc_common.Modifications.Groups.{IsGrouped, IsNonEmpty, group_all-IsGrouped}

-- Whether there is a result, an error or a panic.
abbrev pub outcome {ℓ} : {A : Type ℓ} → Read A → Read (Unit {0})
outcome (ok a) = ok tt
outcome bail = bail
outcome panic = panic

bind_outcome {ℓ κ} :
    {A : Type ℓ} {B : Type κ} (m m' : Read A) (f f' : A → Read B)
    → outcome m ≡ outcome m'
    → ((a a' : A) → outcome (f a) ≡ outcome (f' a'))
    → outcome (m >>= f) ≡ outcome (m' >>= f')
bind_outcome (ok a) (ok a') f f' e h = h a a'
bind_outcome (ok a) bail f f' e h = cc
bind_outcome (ok a) panic f f' e h = cc
bind_outcome bail (ok a) f f' e h = cc
bind_outcome bail bail f f' e h = refl
bind_outcome bail panic f f' e h = cc
bind_outcome panic (ok a) f f' e h = cc
bind_outcome panic bail f f' e h = cc
bind_outcome panic panic f f' e h = refl

outcome-decide :
    (copy copy' : Option Modification) (group : List Modification)
    → outcome (decide copy group) ≡ outcome (decide copy' group)
unfolding decide
outcome-decide copy copy' group = elim (Bool-cases (all is_in_progress group)) [
  | inl a ↦ rw a refl
  | inr a ↦ elim (Bool-cases (any is_completed group)) [
    | inl c ↦
        rw (a, c) (bind_outcome (roll_forward group) (roll_forward group) _ _ refl (λ _ _. refl))
    | inr c ↦ rw (a, c) refl
  ]
]

plan_outcome :
    (my my' : List Modification) (gs : List (ℕ × List Modification))
    → outcome (plan_groups my gs) ≡ outcome (plan_groups my' gs)
unfolding plan_groups
plan_outcome my my' [] = refl
plan_outcome my my' ((i, group) ∷ gs) =
    bind_outcome (check_modifications_consistency group) (check_modifications_consistency group) _ _
      refl
      λ _ _.
        bind_outcome (decide (find (λ m. m.id == i) my) group)
          (decide (find (λ m. m.id == i) my') group) _ _ (outcome-decide _ _ group)
          λ _ _.
            bind_outcome (plan_groups my gs) (plan_groups my' gs) _ _ (plan_outcome my my' gs)
              (λ _ _. refl)

-- No panic.
abbrev IsCalm {ℓ} : {A : Type ℓ} → Read A → Type 0
IsCalm (ok a) = Unit {0}
IsCalm bail = Unit {0}
IsCalm panic = ⊥

bind-IsCalm {ℓ κ} :
    {A : Type ℓ} {B : Type κ} (m : Read A) (f : A → Read B)
    → IsCalm m
    → ((a : A) → IsCalm (f a))
    → IsCalm (m >>= f)
bind-IsCalm (ok a) f h k = k a
bind-IsCalm bail f h k = tt
bind-IsCalm panic f h k = h

ensure-IsCalm : (b : Bool) → IsCalm (ensure b)
ensure-IsCalm true = tt
ensure-IsCalm false = tt

next_serial-IsCalm : (a b : Option ℕ) → IsCalm (next_serial a b)
unfolding next_serial
next_serial-IsCalm a none = tt
next_serial-IsCalm none (some b) = tt
next_serial-IsCalm (some a) (some b) = elim (Bool-cases (a =? b)) [
  | inl e ↦ rw e tt
  | inr e ↦ rw e tt
]

check_loop-IsCalm :
    (first : Modification) (serial : Option ℕ) (ms : List Modification)
    → IsCalm (check_loop first serial ms)
unfolding check_loop
check_loop-IsCalm first serial [] = tt
check_loop-IsCalm first serial (m ∷ ms) =
    bind-IsCalm (ensure (first.id == m.id)) _ (ensure-IsCalm _) λ _.
      bind-IsCalm (ensure (first.request_type =? m.request_type)) _ (ensure-IsCalm _) λ _.
        bind-IsCalm (ensure (first.input =? m.input)) _ (ensure-IsCalm _) λ _.
          bind-IsCalm
            (ensure (m.status =? mod_status_in_progress || m.status =? mod_status_completed)) _
            (ensure-IsCalm _)
            λ _.
              bind-IsCalm (next_serial serial m.serial_id) _ (next_serial-IsCalm serial m.serial_id)
                λ s. check_loop-IsCalm first s ms

some-neq-none : (m : Modification) → some m ≡ none → ⊥
some-neq-none m h = cc

true-neq-false : true ≡ false → ⊥
true-neq-false h = cc

any-find :
    (test : Modification → Bool) (ms : List Modification)
    → find test ms ≡ none
    → any test ms ≡ false
unfolding find any
any-find test [] e = refl
any-find test (m ∷ ms) e = elim (Bool-cases (test m)) [
  | inl passes ↦ absurd (some-neq-none m (rw passes at e))
  | inr fails ↦ rw fails (any-find test ms (rw fails at e))
]

none_found :
    (group : List Modification) → first_completed group ≡ none → find is_completed group ≡ none
unfolding first_completed or_else
none_found group e =
    elim (Option-cases (find (λ x. is_completed x && x.serial_id =? find_serial group) group)) [
      | inl missing ↦ rw missing at e
      | inr (m, found) ↦ absurd (some-neq-none m (rw found at e))
    ]

roll_forward-IsCalm :
    (group : List Modification) → any is_completed group ≡ true → IsCalm (roll_forward group)
unfolding roll_forward
roll_forward-IsCalm group h = elim (Option-cases (first_completed group)) [
  | inl missing ↦
      absurd (true-neq-false (sym h ∙ any-find is_completed group (none_found group missing)))
  | inr (m, found) ↦ rw (roll_forward, found) tt
]

decide-IsCalm :
    (copy : Option Modification) (group : List Modification) → IsCalm (decide copy group)
unfolding decide
decide-IsCalm copy group = elim (Bool-cases (all is_in_progress group)) [
  | inl a ↦ rw a tt
  | inr a ↦ elim (Bool-cases (any is_completed group)) [
    | inl c ↦ rw (a, c) (bind-IsCalm (roll_forward group) _ (roll_forward-IsCalm group c) (λ _. tt))
    | inr c ↦ rw (a, c) tt
  ]
]

check-IsCalm :
    (group : List Modification) → IsNonEmpty group → IsCalm (check_modifications_consistency group)
unfolding check_modifications_consistency
check-IsCalm [] h = h
check-IsCalm (m ∷ ms) h = check_loop-IsCalm m none (m ∷ ms)

plan-IsCalm :
    (my : List Modification) (gs : List (ℕ × List Modification))
    → IsGrouped gs
    → IsCalm (plan_groups my gs)
unfolding plan_groups
plan-IsCalm my [] h = tt
plan-IsCalm my ((i, group) ∷ gs) h =
    bind-IsCalm (check_modifications_consistency group) _ (check-IsCalm group h.2) λ _.
      bind-IsCalm (decide (find (λ m. m.id == i) my) group) _ (decide-IsCalm _ group)
        λ d. bind-IsCalm (plan_groups my gs) _ (plan-IsCalm my gs h.3) λ _. tt

calm-neq-panic {ℓ} : {A : Type ℓ} (m : Read A) → IsCalm m → m ≡ panic → ⊥
calm-neq-panic m h e = subst IsCalm e h

-- On the same snapshots every party gets a plan or every party gets an error, whatever its own
-- records are, and no party panics.
pub outcome-compare_modifications :
    (my my' : List Modification) (states : List (List Modification))
    → (outcome (compare_modifications my states) ≡ outcome (compare_modifications my' states))
      × (compare_modifications my states ≢ panic)
unfolding compare_modifications
outcome-compare_modifications my my' states =
    let grouped = group_all-IsGrouped (flatten states) [] tt in
    (
      plan_outcome my my' (group_all (flatten states) []),
      calm-neq-panic _ (plan-IsCalm my (group_all (flatten states) []) grouped),
    )
