-- ===== src/Jobs/Reachable.antt =====
-- The states that the operations of the tracker reach.
use ampc_common.Base.{
  ℕ, ◌≤◌, ◌≡◌, refl, arith, List, [], ◌∷◌, Option-cases, Bool-cases, inl, inr, true, ◌≢◌, subst, ap,
  ◌==◌, if◌then◌else◌,
}
use ampc_common.Base.Sets.{contains, count, count-range, keys, lookup, put}
use ampc_common.Jobs.{
  PendingJob, JobTracker, WorkerRsp, JobType, scatter_gather, broadcast, Outcome, done, failed,
  TrackerError, start, finish, set_to_pending, set_entry, record_response, record_entry,
  store_response, complete_job, complete_entry, register_job, workers_of, is_complete, cancel_job,
  cancel_entry, validate_pending_jobs, record_lost, or_else, lost, new,
}
use ampc_common.Jobs.Invariant.{
  IsValid, IsValidJob, AreValid, members-start, members-finish, put-AreValid, delete-AreValid,
  put-AreKeyed, lookup-IsValidJob,
}

-- The workers of a scatter-gather job are a set.
abbrev pub IsWorkerSet : JobType → Type 0
IsWorkerSet (scatter_gather worker_ids) = (a : ℕ) → count a worker_ids ≤ 1
IsWorkerSet (broadcast num_workers) = Unit {0}

-- The operations on jobs that are registered.
pub data Step : JobTracker → JobTracker → Type 0 where
  sends :
      (t t' : JobTracker) (job_id worker_id : ℕ)
      → set_to_pending t job_id worker_id ≡ done t'
      → Step t t'
  responds : (t t' : JobTracker) (rsp : WorkerRsp) → record_response t rsp ≡ done t' → Step t t'
  validates :
      (t : JobTracker) (worker_id : ℕ) (reported : List ℕ)
      → Step t (validate_pending_jobs t worker_id reported)
  cancels :
      (t t' : JobTracker) (job_id : ℕ) (ws : List ℕ)
      → cancel_job t job_id ≡ done (t', ws)
      → Step t t'

-- The workers that each job was last registered for, with one job more.
abbrev pub assigned : (ℕ → List ℕ) → ℕ → List ℕ → ℕ → List ℕ
assigned workers job_id worker_ids k = if job_id == k then worker_ids else workers k

-- The states that registrations and operations, one after another, lead to from the empty tracker,
-- with the workers that each job was last registered for.
pub data Reachable : JobTracker → (ℕ → List ℕ) → Type 0 where
  initial : Reachable new (λ k. [])
  registers :
      (t : JobTracker) (workers : ℕ → List ℕ) (job_id tx : ℕ) (ty : JobType)
      → Reachable t workers
      → IsWorkerSet ty
      → Reachable (register_job t job_id ty tx) (assigned workers job_id (workers_of ty))
  next :
      (t t' : JobTracker) (workers : ℕ → List ℕ)
      → Reachable t workers
      → Step t t'
      → Reachable t' workers

pub done_inj {ℓ} : {A : Type ℓ} (x y : A) → done x ≡ done y → x ≡ y
done_inj x y p = cc

pub failed-neq-done {ℓ} : {A : Type ℓ} (e : TrackerError) (x : A) → failed e ≢ done x
failed-neq-done e x p = cc

pub count-workers_of : (ty : JobType) → IsWorkerSet ty → (a : ℕ) → count a (workers_of ty) ≤ 1
unfolding workers_of
count-workers_of (scatter_gather worker_ids) once a = once a
count-workers_of (broadcast num_workers) once a = count-range a num_workers

pub register_job-IsValid :
    (t : JobTracker) (job_id tx : ℕ) (ty : JobType)
    → IsWorkerSet ty
    → IsValid t
    → IsValid (register_job t job_id ty tx)
unfolding register_job count keys
register_job-IsValid t job_id tx ty w v =
    put-AreValid job_id _ t.jobs (λ a. omega (arith, count-workers_of ty w a), tt) v

pub start-IsValidJob :
    (job_id w : ℕ) (j : PendingJob)
    → IsValidJob job_id j
    → contains w j.registered ≡ true
    → IsValidJob job_id (start j w)
unfolding start
start-IsValidJob job_id w j v h = (λ a. omega (arith, v.0 a, members-start a w j v.0 h), v.1)

pub finish-IsValidJob :
    (rsp : WorkerRsp) (j : PendingJob)
    → IsValidJob rsp.job_id j
    → contains rsp.worker_id j.pending ≡ true
    → IsValidJob rsp.job_id (finish j rsp)
unfolding finish
finish-IsValidJob rsp j v h = (
  λ a. omega (arith, v.0 a, members-finish a j rsp v.0 h),
  put-AreKeyed rsp.job_id rsp j.results refl v.1,
)

set_to_pending-IsValid :
    (t t' : JobTracker) (job_id w : ℕ)
    → IsValid t
    → set_to_pending t job_id w ≡ done t'
    → IsValid t'
unfolding set_to_pending set_entry
set_to_pending-IsValid t t' job_id w v h = elim (Option-cases (lookup job_id t.jobs)) [
  | inl e ↦ absurd (failed-neq-done _ t' (rw e at h))
  | inr (j, e) ↦ elim (Bool-cases (contains w j.registered)) [
    | inl c ↦ subst IsValid (done_inj _ t' (rw (e, c) at h)) (
        put-AreValid job_id (start j w) t.jobs
          (start-IsValidJob job_id w j (lookup-IsValidJob job_id j t.jobs v e) c) v)
    | inr c ↦ absurd (failed-neq-done _ t' (rw (e, c) at h))
  ]
]

complete_job-IsValid : (t : JobTracker) (job_id : ℕ) → IsValid t → IsValid (complete_job t job_id)
unfolding complete_job complete_entry
complete_job-IsValid t job_id v = elim (Option-cases (lookup job_id t.jobs)) [
  | inl e ↦ rw e v
  | inr (j, e) ↦ rw e (delete-AreValid job_id t.jobs v)
]

store_response-IsValid :
    (t : JobTracker) (job_id : ℕ) (j : PendingJob)
    → IsValid t
    → IsValidJob job_id j
    → IsValid (store_response t job_id j)
unfolding store_response
store_response-IsValid t job_id j v h =
    let stored : AreValid (put job_id j t.jobs) = put-AreValid job_id j t.jobs h v in
    elim (Bool-cases (is_complete j)) [
      | inl c ↦ rw c (complete_job-IsValid _ job_id stored)
      | inr c ↦ rw c stored
    ]

pub record_response-IsValid :
    (t t' : JobTracker) (rsp : WorkerRsp) → IsValid t → record_response t rsp ≡ done t' → IsValid t'
unfolding record_response record_entry
record_response-IsValid t t' rsp v h = elim (Option-cases (lookup rsp.job_id t.jobs)) [
  | inl e ↦ absurd (failed-neq-done _ t' (rw e at h))
  | inr (j, e) ↦ elim (Bool-cases (contains rsp.worker_id j.pending)) [
    | inl c ↦ subst IsValid (done_inj _ t' (rw (e, c) at h)) (
        store_response-IsValid t rsp.job_id (finish j rsp) v
          (finish-IsValidJob rsp j (lookup-IsValidJob rsp.job_id j t.jobs v e) c))
    | inr c ↦ absurd (failed-neq-done _ t' (rw (e, c) at h))
  ]
]

pub or_else-IsValid :
    (t : JobTracker) (rsp : WorkerRsp) → IsValid t → IsValid (or_else (record_response t rsp) t)
unfolding or_else
or_else-IsValid t rsp v = by_outcome (record_response t rsp) refl
  where
    by_outcome : (o : Outcome JobTracker) → record_response t rsp ≡ o → IsValid (or_else o t)
    by_outcome (done t') h = record_response-IsValid t t' rsp v h
    by_outcome (failed e) h = v

record_lost-IsValid :
    (t : JobTracker) (w : ℕ) (ids : List ℕ) → IsValid t → IsValid (record_lost w ids t)
unfolding record_lost
record_lost-IsValid t w [] v = v
record_lost-IsValid t w (i ∷ ids) v =
    record_lost-IsValid (or_else (record_response t (lost w i)) t) w ids
      (or_else-IsValid t (lost w i) v)

cancel_job-IsValid :
    (t t' : JobTracker) (job_id : ℕ) (ws : List ℕ)
    → IsValid t
    → cancel_job t job_id ≡ done (t', ws)
    → IsValid t'
unfolding cancel_job cancel_entry
cancel_job-IsValid t t' job_id ws v h = elim (Option-cases (lookup job_id t.jobs)) [
  | inl e ↦ absurd (failed-neq-done _ (t', ws) (rw e at h))
  | inr (j, e) ↦
      subst IsValid (ap (λ p. p.0) (done_inj _ (t', ws) (rw e at h)))
        (delete-AreValid job_id t.jobs v)
]

pub Step-IsValid : (t t' : JobTracker) → IsValid t → Step t t' → IsValid t'
unfolding validate_pending_jobs
Step-IsValid t t' v (sends _ _ job_id w h) = set_to_pending-IsValid t t' job_id w v h
Step-IsValid t t' v (responds _ _ rsp h) = record_response-IsValid t t' rsp v h
Step-IsValid t t' v (validates _ w reported) = record_lost-IsValid t w _ v
Step-IsValid t t' v (cancels _ _ job_id ws h) = cancel_job-IsValid t t' job_id ws v h
