-- ===== src/Modifications/Groups.antt =====
-- The groups of `compare_modifications`: for every identifier the modifications that have it, in
-- the order of the snapshots, under ascending identifiers.
use ampc_common.Base.{
  ℕ, ◌<◌, ◌≤◌, ◌≡◌, refl, ap, sym, ◌∙◌, arith, List, [], ◌∷◌, ◌++◌, false, ◌==◌, ltb, if◌then◌else◌,
  append-nil, append_assoc, Bool-cases, inl, inr,
}
use ampc_common.Modifications.{Modification, push_group, group_all}

-- All keys are above a bound.
abbrev pub Above : ℕ → List (ℕ × List Modification) → Type 0
Above b [] = Unit {0}
Above b ((i, group) ∷ groups) = (b < i) × Above b groups

abbrev pub HasId : ℕ → List Modification → Type 0
HasId i [] = Unit {0}
HasId i (m ∷ ms) = (m.id ≡ i) × HasId i ms

abbrev pub IsNonEmpty : List Modification → Type 0
IsNonEmpty [] = ⊥
IsNonEmpty (m ∷ ms) = Unit {0}

abbrev pub IsGrouped : List (ℕ × List Modification) → Type 0
IsGrouped [] = Unit {0}
IsGrouped ((i, group) ∷ groups) =
    Above i groups × HasId i group × IsNonEmpty group × IsGrouped groups

-- The modifications of one identifier.
abbrev pub group_of : ℕ → List Modification → List Modification
group_of i [] = []
group_of i (m ∷ ms) = if m.id == i then m ∷ group_of i ms else group_of i ms

abbrev pub group_at : ℕ → List (ℕ × List Modification) → List Modification
group_at i [] = []
group_at i ((j, group) ∷ groups) = if j == i then group else group_at i groups

pub Above-less : (a b : ℕ) (gs : List (ℕ × List Modification)) → a < b → Above b gs → Above a gs
Above-less a b [] lt h = tt
Above-less a b ((i, g) ∷ gs) lt h = (omega (arith, h.0), Above-less a b gs lt h.1)

pub Above-missing :
    (a b : ℕ) (gs : List (ℕ × List Modification)) → a ≤ b → Above b gs → group_at a gs ≡ []
Above-missing a b [] le h = refl
Above-missing a b ((i, g) ∷ gs) le h =
    let differ : (i == a) ≡ false = ground (arith, h.0) in rw differ (Above-missing a b gs le h.1)

HasId-append : (i : ℕ) (xs ys : List Modification) → HasId i xs → HasId i ys → HasId i (xs ++ ys)
HasId-append i [] ys hx hy = hy
HasId-append i (x ∷ xs) ys hx hy = (hx.0, HasId-append i xs ys hx.1 hy)

nonempty_append : (xs ys : List Modification) → IsNonEmpty xs → IsNonEmpty (xs ++ ys)
nonempty_append [] ys h = absurd h
nonempty_append (x ∷ xs) ys h = tt

Above-push :
    (b : ℕ) (m : Modification) (gs : List (ℕ × List Modification))
    → b < m.id
    → Above b gs
    → Above b (push_group m gs)
unfolding push_group
Above-push b m [] lt h = (lt, tt)
Above-push b m ((i, g) ∷ gs) lt h = elim (Bool-cases (m.id == i)) [
  | inl same ↦ rw same h
  | inr differ ↦ elim (Bool-cases (ltb m.id i)) [
    | inl before ↦ rw (differ, before) (lt, h)
    | inr after ↦ rw (differ, after) (h.0, Above-push b m gs lt h.1)
  ]
]

push_group-IsGrouped :
    (m : Modification) (gs : List (ℕ × List Modification))
    → IsGrouped gs
    → IsGrouped (push_group m gs)
unfolding push_group
push_group-IsGrouped m [] h = (tt, (refl, tt), tt, tt)
push_group-IsGrouped m ((i, g) ∷ gs) h = elim (Bool-cases (m.id == i)) [
  | inl same ↦
      rw same
        (h.0, HasId-append i g (m ∷ []) h.1 (ground arith, tt), nonempty_append g (m ∷ []) h.2, h.3)
  | inr differ ↦ elim (Bool-cases (ltb m.id i)) [
    | inl before ↦
        rw (differ, before)
          ((ground arith, Above-less m.id i gs (ground arith) h.0), (refl, tt), tt, h)
    | inr after ↦
        rw (differ, after)
          (Above-push i m gs (ground arith) h.0, h.1, h.2, push_group-IsGrouped m gs h.3)
  ]
]

group_at-push_group :
    (i : ℕ) (m : Modification) (gs : List (ℕ × List Modification))
    → IsGrouped gs
    → group_at i (push_group m gs) ≡ group_at i gs ++ group_of i (m ∷ [])
unfolding push_group
group_at-push_group i m [] h = refl
group_at-push_group i m ((j, g) ∷ gs) h = elim (Bool-cases (m.id == j)) [
  | inl same ↦
      let key : m.id ≡ j = ground arith in
      rw (same, key)
        elim (Bool-cases (j == i)) [
          | inl here ↦ rw here refl
          | inr there ↦ rw there (sym (append-nil (group_at i gs)))
        ]
  | inr differ ↦ elim (Bool-cases (ltb m.id j)) [
    | inl before ↦
        rw (differ, before)
          elim (Bool-cases (m.id == i)) [
            | inl here ↦
                let other : (j == i) ≡ false = ground arith in
                rw (here, other, Above-missing i j gs (ground arith) h.0) refl
            | inr there ↦ rw there (sym (append-nil (if j == i then g else group_at i gs)))
          ]
    | inr after ↦
        rw (differ, after)
          elim (Bool-cases (j == i)) [
            | inl here ↦
                let other : (m.id == i) ≡ false = ground arith in
                rw (here, other) (sym (append-nil g))
            | inr there ↦ rw there (group_at-push_group i m gs h.3)
          ]
  ]
]

group_of-append :
    (i : ℕ) (xs ys : List Modification) → group_of i (xs ++ ys) ≡ group_of i xs ++ group_of i ys
group_of-append i [] ys = refl
group_of-append i (x ∷ xs) ys = elim (Bool-cases (x.id == i)) [
  | inl same ↦ rw same (ap (λ t. x ∷ t) (group_of-append i xs ys))
  | inr differ ↦ rw differ (group_of-append i xs ys)
]

pub group_all-IsGrouped :
    (ms : List Modification) (gs : List (ℕ × List Modification))
    → IsGrouped gs
    → IsGrouped (group_all ms gs)
unfolding group_all
group_all-IsGrouped [] gs h = h
group_all-IsGrouped (m ∷ ms) gs h =
    group_all-IsGrouped ms (push_group m gs) (push_group-IsGrouped m gs h)

pub group_at-group_all :
    (i : ℕ) (ms : List Modification) (gs : List (ℕ × List Modification))
    → IsGrouped gs
    → group_at i (group_all ms gs) ≡ group_at i gs ++ group_of i ms
unfolding group_all
group_at-group_all i [] gs h = sym (append-nil (group_at i gs))
group_at-group_all i (m ∷ ms) gs h =
    group_at-group_all i ms (push_group m gs) (push_group-IsGrouped m gs h)
    ∙ ap (λ t. t ++ group_of i ms) (group_at-push_group i m gs h)
    ∙ append_assoc (group_at i gs) (group_of i (m ∷ [])) (group_of i ms)
    ∙ ap (λ t. group_at i gs ++ t) (sym (group_of-append i (m ∷ []) ms))
