-- ===== src/Jobs/Lost.antt =====
-- What a reconnected worker's report and a cancellation do to the jobs.
use ampc_common.Base.{
  ℕ, ◌≤◌, ◌≡◌, ◌⊎◌, refl, arith, List, [], ◌∷◌, Option, none, some, Option-cases, Bool, Bool-cases,
  inl, inr, true, false, sym, subst, ap, ◌∙◌, ◌==◌, ◌&&◌, not, leb, if◌then◌else◌,
}
use ampc_common.Base.Sets.{
  contains, count, lookup, put, delete, lookup-put, lookup-delete, lookup-put-same,
  lookup-delete-same, contains-remove,
}
use ampc_common.Jobs.{
  PendingJob, JobTracker, WorkerRsp, done, failed, finish, record_response, record_entry,
  store_response, complete_job, complete_entry, is_complete, validate_pending_jobs, record_lost,
  or_else, lost, dropped_jobs, cancel_job, cancel_entry, sort, insert_sorted, job_not_found,
}

-- Does the job wait for the worker? A job that is not there does not.
abbrev pub waits : ℕ → Option PendingJob → Bool
waits w none = false
waits w (some j) = contains w j.pending

complete_other :
    (t : JobTracker) (i k : ℕ)
    → (i == k) ≡ false
    → lookup k (complete_job t i).jobs ≡ lookup k t.jobs
unfolding complete_job complete_entry
complete_other t i k e = elim (Option-cases (lookup i t.jobs)) [
  | inl a ↦ rw a
  | inr (j, a) ↦ rw a (ground (arith, lookup-delete i k t.jobs))
]

store_other :
    (t : JobTracker) (i k : ℕ) (j : PendingJob)
    → (i == k) ≡ false
    → lookup k (store_response t i j).jobs ≡ lookup k t.jobs
unfolding store_response
store_other t i k j e =
    let put_other : lookup k (put i j t.jobs) ≡ lookup k t.jobs =
      ground (arith, lookup-put i k j t.jobs) in
    elim (Bool-cases (is_complete j)) [
      | inl c ↦ rw c (complete_other (record t { jobs = put i j t.jobs }) i k e ∙ put_other)
      | inr c ↦ rw c put_other
    ]

stored_waits :
    (t : JobTracker) (i w : ℕ) (j : PendingJob)
    → contains w j.pending ≡ false
    → waits w (lookup i (store_response t i j).jobs) ≡ false
unfolding store_response complete_job complete_entry
stored_waits t i w j e = elim (Bool-cases (is_complete j)) [
  | inl c ↦ rw (c, lookup-put-same i j t.jobs, lookup-delete-same i (put i j t.jobs))
  | inr c ↦ rw (c, lookup-put-same i j t.jobs) e
]

-- One response leaves the other jobs, and its own no longer waits for the worker.
settle : JobTracker → WorkerRsp → JobTracker
settle t rsp = or_else (record_response t rsp) t

settle_other :
    (t : JobTracker) (rsp : WorkerRsp) (k : ℕ)
    → (rsp.job_id == k) ≡ false
    → lookup k (settle t rsp).jobs ≡ lookup k t.jobs
unfolding settle or_else record_response record_entry
settle_other t rsp k e = elim (Option-cases (lookup rsp.job_id t.jobs)) [
  | inl a ↦ rw a
  | inr (j, a) ↦ elim (Bool-cases (contains rsp.worker_id j.pending)) [
    | inl c ↦ rw (a, c) (store_other t rsp.job_id k (finish j rsp) e)
    | inr c ↦ rw (a, c)
  ]
]

settle-waits :
    (t : JobTracker) (rsp : WorkerRsp)
    → waits rsp.worker_id (lookup rsp.job_id (settle t rsp).jobs) ≡ false
unfolding settle or_else record_response record_entry finish
settle-waits t rsp = elim (Option-cases (lookup rsp.job_id t.jobs)) [
  | inl a ↦ rw (a, a)
  | inr (j, a) ↦ elim (Bool-cases (contains rsp.worker_id j.pending)) [
    | inl c ↦
        rw (a, c)
          (stored_waits t rsp.job_id rsp.worker_id (finish j rsp)
            (contains-remove rsp.worker_id j.pending))
    | inr c ↦ rw (a, c, a) c
  ]
]

waits-record_lost :
    (w k : ℕ) (ids : List ℕ) (t : JobTracker)
    → waits w (lookup k (record_lost w ids t).jobs)
      ≡ (if contains k ids then false else waits w (lookup k t.jobs))
unfolding record_lost settle
waits-record_lost w k [] t = refl
waits-record_lost w k (i ∷ ids) t = elim (Bool-cases (i == k)) [
  | inl e ↦
      let t1 : JobTracker = settle t (lost w i) in
      let key : i ≡ k = ground arith in
      let clear : waits w (lookup k t1.jobs) ≡ false =
        subst (λ (n : ℕ). waits w (lookup n t1.jobs) ≡ false) key (settle-waits t (lost w i)) in
      rw e (waits-record_lost w k ids t1 ∙ rw clear (ground arith))
  | inr e ↦ rw e (
      waits-record_lost w k ids (settle t (lost w i))
      ∙ ap (λ o. if contains k ids then false else waits w o) (settle_other t (lost w i) k e))
]

record_lost_other :
    (w k : ℕ) (ids : List ℕ) (t : JobTracker)
    → contains k ids ≡ false
    → lookup k (record_lost w ids t).jobs ≡ lookup k t.jobs
unfolding record_lost settle
record_lost_other w k [] t h = refl
record_lost_other w k (i ∷ ids) t h =
    record_lost_other w k ids (or_else (record_response t (lost w i)) t) (ground arith)
    ∙ settle_other t (lost w i) k (ground arith)

dropped-reported :
    (w k : ℕ) (got : List ℕ) (m : List (ℕ × PendingJob))
    → contains k got ≡ true
    → contains k (dropped_jobs w got m) ≡ false
unfolding dropped_jobs
dropped-reported w k got [] h = refl
dropped-reported w k got ((i, j) ∷ m) h =
    elim (Bool-cases (contains w j.pending && not (contains i got))) [
      | inl c ↦
          let other : (i == k) ≡ false = elim (Bool-cases (i == k)) [
            | inl e ↦
                let key : i ≡ k = ground arith in
                let has : contains i got ≡ true =
                  subst (λ (n : ℕ). contains n got ≡ true) (sym key) h in
                absurd (ground arith)
            | inr e ↦ e
          ] in
          rw (c, other) (dropped-reported w k got m h)
      | inr c ↦ rw c (dropped-reported w k got m h)
    ]

dropped-waits :
    (w k : ℕ) (got : List ℕ) (m : List (ℕ × PendingJob))
    → contains k got ≡ false
    → contains k (dropped_jobs w got m) ≡ false
    → waits w (lookup k m) ≡ false
unfolding dropped_jobs lookup
dropped-waits w k got [] h d = refl
dropped-waits w k got ((i, j) ∷ m) h d = elim (Bool-cases (i == k)) [
  | inl e ↦
      let key : i ≡ k = ground arith in
      let missing : contains i got ≡ false =
        subst (λ (n : ℕ). contains n got ≡ false) (sym key) h in
      rw e (elim (Bool-cases (contains w j.pending)) [
        | inl c ↦ let bad : true ≡ false = rw (c, missing, e) at d in absurd (cc)
        | inr c ↦ c
      ])
  | inr e ↦ rw e (dropped-waits w k got m h (ground arith))
]

-- After a worker's report every job waits for that worker exactly when it did before and the
-- worker reports it, and a job that is reported is as it was.
pub validate_pending_jobs-waits :
    (t : JobTracker) (w k : ℕ) (reported : List ℕ)
    → (waits w (lookup k (validate_pending_jobs t w reported).jobs)
        ≡ (waits w (lookup k t.jobs) && contains k reported))
      × ((contains k reported ≡ false)
          ⊎ (lookup k (validate_pending_jobs t w reported).jobs ≡ lookup k t.jobs))
unfolding validate_pending_jobs
validate_pending_jobs-waits t w k reported = elim (Bool-cases (contains k reported)) [
  | inl h ↦ rw h (
      let kept = record_lost_other w k _ t (dropped-reported w k reported t.jobs h) in
      (ap (waits w) kept ∙ ground arith, inr kept))
  | inr h ↦ rw h (
    waits-record_lost w k (dropped_jobs w reported t.jobs) t
        ∙ elim (Bool-cases (contains k (dropped_jobs w reported t.jobs))) [
          | inl d ↦ rw d (ground arith)
          | inr d ↦ rw d (dropped-waits w k reported t.jobs h d ∙ ground arith)
        ],
    inl refl,
  )
]

count-insert_sorted : (a x : ℕ) (xs : List ℕ) → count a (insert_sorted x xs) ≡ count a (x ∷ xs)
unfolding insert_sorted count
count-insert_sorted a x [] = refl
count-insert_sorted a x (y ∷ ys) = ground (arith, count-insert_sorted a x ys)

count-sort : (a : ℕ) (xs : List ℕ) → count a (sort xs) ≡ count a xs
unfolding sort count
count-sort a [] = refl
count-sort a (x ∷ xs) = ground (arith, count-insert_sorted a x (sort xs), count-sort a xs)

-- Ascending, all elements at least the bound.
abbrev pub IsAscending : ℕ → List ℕ → Type 0
IsAscending low [] = Unit {0}
IsAscending low (x ∷ xs) = (low ≤ x) × IsAscending x xs

insert_sorted-IsAscending :
    (low x : ℕ) (xs : List ℕ) → low ≤ x → IsAscending low xs → IsAscending low (insert_sorted x xs)
unfolding insert_sorted
insert_sorted-IsAscending low x [] h s = (h, tt)
insert_sorted-IsAscending low x (y ∷ ys) h s = elim (Bool-cases (leb x y)) [
  | inl e ↦ rw e (h, (ground arith, s.1))
  | inr e ↦ rw e (s.0, insert_sorted-IsAscending y x ys (ground arith) s.1)
]

sort-IsAscending : (xs : List ℕ) → IsAscending 0 (sort xs)
unfolding sort
sort-IsAscending [] = tt
sort-IsAscending (x ∷ xs) =
    insert_sorted-IsAscending 0 x (sort xs) (omega arith) (sort-IsAscending xs)

-- Cancelling a job that is there succeeds: the job is gone, every other job and what has been
-- delivered are as before, and the result is the workers pending in it, in ascending order. A
-- second cancellation is an error.
pub cancel_job_removes :
    (t : JobTracker) (job_id : ℕ) (j : PendingJob)
    → lookup job_id t.jobs ≡ some j
    → (t' : JobTracker) × (ws : List ℕ) × (cancel_job t job_id ≡ done (t', ws))
      × (t'.delivered ≡ t.delivered)
      × ((k : ℕ) → lookup k t'.jobs ≡ (if job_id == k then none else lookup k t.jobs))
      × ((a : ℕ) → count a ws ≡ count a j.pending)
      × IsAscending 0 ws
      × (cancel_job t' job_id ≡ failed (job_not_found job_id))
unfolding cancel_job cancel_entry
cancel_job_removes t job_id j h = (
  record t { jobs = delete job_id t.jobs },
  sort j.pending,
  rw h,
  refl,
  λ k. lookup-delete job_id k t.jobs,
  λ a. count-sort a j.pending,
  sort-IsAscending j.pending,
  rw (lookup-delete-same job_id t.jobs),
)
