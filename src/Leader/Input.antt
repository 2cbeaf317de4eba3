-- ===== src/Leader/Input.antt =====
-- The checks of the leader's handle establish what the job tracker takes for granted.
use ampc_common.Base.{
  ℕ, ◌+◌, ◌≤◌, ◌<◌, ◌≡◌, ◌↔◌, ◌≢◌, subst, refl, arith, List, [], ◌∷◌, none, Bool-cases, inl, inr,
  true, false, leb, ◌==◌,
}
use ampc_common.Base.Sets.{contains, insert, count, count-contains, count-contains-not}
use ampc_common.Leader.{WorkerJob, check_msgs, check_scatter_gather}

-- The workers of the messages.
abbrev pub ids : List WorkerJob → List ℕ
ids [] = []
ids (msg ∷ msgs) = msg.worker_id ∷ ids msgs

abbrev pub AllBelow : ℕ → List WorkerJob → Type 0
AllBelow n [] = Unit {0}
AllBelow n (msg ∷ msgs) = (msg.worker_id < n) × AllBelow n msgs

-- The messages are fit to follow those of the workers seen.
check_msgs_sound :
    (n : ℕ) (seen : List ℕ) (msgs : List WorkerJob)
    → ((a : ℕ) → count a seen ≤ 1)
    → check_msgs n seen msgs ≡ none
    → AllBelow n msgs × ((a : ℕ) → count a (ids msgs) + count a seen ≤ 1)
unfolding check_msgs count insert
check_msgs_sound n seen [] once h = (tt, λ a. omega (arith, once a))
check_msgs_sound n seen (msg ∷ msgs) once h = elim (Bool-cases (leb n msg.worker_id)) [
  | inl e ↦ absurd (ground arith)
  | inr e ↦ elim (Bool-cases (contains msg.worker_id seen)) [
    | inl c ↦ absurd (ground arith)
    | inr c ↦
        let w : ℕ = msg.worker_id in
        let none_seen : count w seen ≡ 0 = count-contains w seen c in
        let added : (a : ℕ) → count a (w ∷ seen) ≤ 1 = (λ a. elim (Bool-cases (w == a)) [
          | inl s ↦
              let key : w ≡ a = ground arith in
              let zero_a : count a seen ≡ 0 = subst (λ (t : ℕ). count t seen ≡ 0) key none_seen in
              ground arith
          | inr s ↦ ground (arith, once a)
        ]) in
        let rest = check_msgs_sound n (w ∷ seen) msgs added (rw (e, c) at h) in
        ((ground arith, rest.0), λ a. omega (arith, rest.1 a))
  ]
]

check_msgs_complete :
    (n : ℕ) (seen : List ℕ) (msgs : List WorkerJob)
    → AllBelow n msgs
    → ((a : ℕ) → count a (ids msgs) + count a seen ≤ 1)
    → check_msgs n seen msgs ≡ none
unfolding check_msgs count insert
check_msgs_complete n seen [] b once = refl
check_msgs_complete n seen (msg ∷ msgs) b once =
    let w : ℕ = msg.worker_id in
    let below : leb n w ≡ false = ground (arith, b.0) in
    let self : (w == w) ≡ true = ground arith in
    let one : 1 + count w (ids msgs) + count w seen ≤ 1 = rw self at (once w) in
    let fresh : contains w seen ≡ false = count-contains-not w seen (omega arith) in
    rw (below, fresh) (check_msgs_complete n (w ∷ seen) msgs b.1 (λ a. omega (arith, once a)))

-- `scatter_gather` accepts its input exactly when there is a message, every worker is one of the
-- pool, and no worker has two messages.
pub check_scatter_gather_lem :
    (num_workers : ℕ) (msgs : List WorkerJob)
    → (check_scatter_gather num_workers msgs ≡ none)
      ↔ ((msgs ≢ []) × AllBelow num_workers msgs × ((a : ℕ) → count a (ids msgs) ≤ 1))
unfolding check_scatter_gather count
check_scatter_gather_lem n [] = (λ h. absurd (cc), λ p. absurd (p.0 refl))
check_scatter_gather_lem n (msg ∷ msgs) = (
  λ h.
      let r = check_msgs_sound n [] (msg ∷ msgs) (λ a. omega arith) h in
      ((λ e. absurd (cc)), r.0, λ a. omega (arith, r.1 a)),
  λ p. check_msgs_complete n [] (msg ∷ msgs) p.1 (λ a. omega (arith, p.2 a)),
)
