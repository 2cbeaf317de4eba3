-- ===== src/Modifications/Consistent.antt =====
-- The modifications of a group that was found consistent.
use ampc_common.Base.{
  ℕ, ◌≡◌, refl, ap, sym, ◌∙◌, subst, List, [], ◌∷◌, ◌++◌, Bool, true, false, ◌==◌, ◌&&◌, ◌||◌, not,
  Bool-cases, ◌⊎◌, inl, inr, ==_iff, Option, none, some, Option-cases, some_inj,
}
use ampc_common.Base.Bytes.{ok, ensure, bind-ok, bail-neq-ok}
use ampc_common.Base.Equality.{◌=?◌, same_equal, string_eq, bool_eq, option_eq, nat_eq}
use ampc_common.Modifications.{
  Modification, first_completed, find, any, or_else, check_modifications_consistency, is_completed,
  find_serial, mod_status_completed, mod_status_in_progress,
}
use ampc_common.Modifications.Groups.{group_of}
use ampc_common.Modifications.{flatten, check_loop, next_serial, input_eq}

abbrev pub In : Modification → List Modification → Type 0
In m [] = ⊥
In m (x ∷ xs) = (m ≡ x) ⊎ In m xs

-- The records of a party are one of the snapshots.
abbrev pub IsPart : List Modification → List (List Modification) → Type 0
IsPart my [] = ⊥
IsPart my (state ∷ states) = (my ≡ state) ⊎ IsPart my states

pub find-In :
    (test : Modification → Bool) (m : Modification) (ms : List Modification)
    → find test ms ≡ some m
    → In m ms
unfolding find
find-In test m [] e = cc
find-In test m (x ∷ xs) e = elim (Bool-cases (test x)) [
  | inl passes ↦ inl (sym (some_inj x m (rw passes at e)))
  | inr fails ↦ inr (find-In test m xs (rw fails at e))
]

pub In-append_left : (m : Modification) (xs ys : List Modification) → In m xs → In m (xs ++ ys)
In-append_left m [] ys h = absurd h
In-append_left m (x ∷ xs) ys (inl e) = inl e
In-append_left m (x ∷ xs) ys (inr h) = inr (In-append_left m xs ys h)

pub In-append_right : (m : Modification) (xs ys : List Modification) → In m ys → In m (xs ++ ys)
In-append_right m [] ys h = h
In-append_right m (x ∷ xs) ys h = inr (In-append_right m xs ys h)

pub In-flatten :
    (m : Modification) (my : List Modification) (states : List (List Modification))
    → IsPart my states
    → In m my
    → In m (flatten states)
unfolding flatten
In-flatten m my [] p h = absurd p
In-flatten m my (state ∷ states) (inl e) h =
    In-append_left m state (flatten states) (subst (In m) e h)
In-flatten m my (state ∷ states) (inr p) h =
    In-append_right m state (flatten states) (In-flatten m my states p h)

pub In-group : (m : Modification) (ms : List Modification) → In m ms → In m (group_of m.id ms)
In-group m [] h = absurd h
In-group m (x ∷ xs) (inl e) =
    let own : (x.id == m.id) ≡ true = (==_iff x.id m.id).1 (ap (λ y. y.id) (sym e)) in
    rw own (inl e)
In-group m (x ∷ xs) (inr h) = elim (Bool-cases (x.id == m.id)) [
  | inl same ↦ rw same (inr (In-group m xs h))
  | inr differ ↦ rw differ (In-group m xs h)
]

-- What all modifications of a consistent group share with the first of them.
pub record IsLike (first m : Modification) : Type 0 where
  pub same_request : m.request_type ≡ first.request_type
  pub same_input : m.input ≡ first.input

pub ensure_ok : (b : Bool) → ensure b ≡ ok tt → b ≡ true
ensure_ok true h = refl
ensure_ok false h = absurd (bail-neq-ok tt h)

pub loop-IsLike :
    (first m : Modification) (serial_id : Option ℕ) (ms : List Modification)
    → check_loop first serial_id ms ≡ ok tt
    → In m ms
    → IsLike first m
unfolding check_loop
loop-IsLike first m serial_id [] e h = absurd h
loop-IsLike first m serial_id (x ∷ xs) e h =
    let s1 = bind-ok (ensure (first.id == x.id)) _ tt e in
    let s2 = bind-ok (ensure (first.request_type =? x.request_type)) _ tt s1.2 in
    let s3 = bind-ok (ensure (first.input =? x.input)) _ tt s2.2 in
    let s4 =
      bind-ok (ensure (x.status =? mod_status_in_progress || x.status =? mod_status_completed)) _ tt
        s3.2 in
    let s5 = bind-ok (next_serial serial_id x.serial_id) _ tt s4.2 in
    elim h [
      | inl same ↦ subst (IsLike first) (sym same) (record {
        same_request = sym (same_equal _ _ (ensure_ok _ s2.1));
        same_input = sym (same_equal _ _ (ensure_ok _ s3.1));
      })
      | inr later ↦ loop-IsLike first m s5.0 xs s5.2 later
    ]

-- What a party has in the end under an identifier that some party completed.
pub record IsAgreed (i : ℕ) (first : Modification) (group : List Modification) (m : Modification)
    : Type 0 where
  pub agreed_id : m.id ≡ i
  pub like : IsLike first m
  pub completed : m.status ≡ mod_status_completed
  pub agreed_persisted : m.persisted ≡ any (λ m'. m'.persisted) group
  pub agreed_serial : m.serial_id ≡ find_serial group

pub consistent-IsLike :
    (first m : Modification) (ms : List Modification)
    → check_modifications_consistency (first ∷ ms) ≡ ok tt
    → In m (first ∷ ms)
    → IsLike first m
unfolding check_modifications_consistency
consistent-IsLike first m ms e h = loop-IsLike first m none (first ∷ ms) e h

pub first_completed-In :
    (m : Modification) (group : List Modification) → first_completed group ≡ some m → In m group
unfolding first_completed or_else
first_completed-In m group e =
    elim (Option-cases (find (λ x. is_completed x && x.serial_id =? find_serial group) group)) [
      | inl missing ↦ find-In is_completed m group (rw missing at e)
      | inr (x, found) ↦
          find-In (λ y. is_completed y && y.serial_id =? find_serial group) m group
            (found ∙ (rw found at e))
    ]

pub none_differ :
    (a b c : Bool) → (not a || not b || not c) ≡ false → (a ≡ true) × (b ≡ true) × (c ≡ true)
none_differ true true true h = (refl, refl, refl)
none_differ true true false h = cc
none_differ true false c h = cc
none_differ false b c h = cc

-- A copy that is kept as it is has the agreed fields.
pub unchanged :
    (l : Modification) (group : List Modification)
    → (not (l.status =? mod_status_completed)
        || not (l.persisted =? any (λ m'. m'.persisted) group)
        || not (l.serial_id =? find_serial group))
      ≡ false
    → (l.status ≡ mod_status_completed)
      × (l.persisted ≡ any (λ m'. m'.persisted) group)
      × (l.serial_id ≡ find_serial group)
unchanged l group h =
    let same = none_differ _ _ _ h in
    (same_equal _ _ same.0, same_equal _ _ same.1, same_equal _ _ same.2)
