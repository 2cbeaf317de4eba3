-- ===== src/Jobs/Delivery.antt =====
-- What a response does to its job, and that a complete job delivers every worker's response once.
use ampc_common.Base.{
  ℕ, ◌+◌, ◌≤◌, ◌≡◌, ◌⊎◌, refl, arith, List, [], ◌∷◌, none, some, Option-cases, Bool-cases, inl, inr,
  true, false, sym, subst, ap, ◌∙◌, ◌==◌, if◌then◌else◌,
}
use ampc_common.Base.Sets.{
  contains, count, keys, values, lookup, put, delete, is_empty, lookup-put-same, lookup-delete-same,
  contains-remove, count-contains-not, contains-count, insert, range,
}
use ampc_common.Jobs.{
  PendingJob, JobTracker, WorkerRsp, Reply, done, failed, TrackerError, not_pending, finish, start,
  register_job, workers_of, broadcast, record_response, record_entry, store_response, complete_job,
  complete_entry, is_complete, set_to_pending, set_entry, not_registered, job_not_found,
}
use ampc_common.Jobs.Invariant.{
  IsValid, IsValidJob, AreKeyed, members, members-start, members-finish, lookup-IsValidJob,
}
use ampc_common.Jobs.Reachable.{finish-IsValidJob, done_inj, failed-neq-done}

-- How many of the responses are from the worker.
abbrev pub responses_of : ℕ → List WorkerRsp → ℕ
responses_of a [] = 0
responses_of a (r ∷ rs) = (if r.worker_id == a then 1 else 0) + responses_of a rs

responses_of-values :
    (a job_id : ℕ) (m : List (ℕ × WorkerRsp))
    → AreKeyed job_id m
    → responses_of a (values m) ≡ count a (keys m)
unfolding values keys count
responses_of-values a job_id [] k = refl
responses_of-values a job_id ((w, r) ∷ m) k = rw (k.0, responses_of-values a job_id m k.2)

is_empty-count : (a : ℕ) (xs : List ℕ) → is_empty xs ≡ true → count a xs ≡ 0
unfolding is_empty count
is_empty-count a [] h = refl
is_empty-count a (x ∷ xs) h = absurd (cc)

-- A complete job has an answer from every member.
complete_members :
    (a : ℕ) (j : PendingJob) → is_complete j ≡ true → count a (keys j.results) ≡ members a j
unfolding is_complete
complete_members a j h =
    omega (
      arith,
      is_empty-count a j.registered (ground arith),
      is_empty-count a j.pending (ground arith),
    )

store_response_goes_on :
    (t : JobTracker) (job_id : ℕ) (j : PendingJob)
    → is_complete j ≡ false
    → store_response t job_id j ≡ record t { jobs = put job_id j t.jobs }
unfolding store_response
store_response_goes_on t job_id j c = rw c

store_response_ends :
    (t : JobTracker) (job_id : ℕ) (j : PendingJob)
    → is_complete j ≡ true
    → store_response t job_id j ≡ record {
      jobs = delete job_id (put job_id j t.jobs);
      delivered = (j.response_tx, values j.results) ∷ t.delivered;
    }
unfolding store_response complete_job complete_entry
store_response_ends t job_id j c = rw (c, lookup-put-same job_id j t.jobs)

record_response_stores :
    (t : JobTracker) (rsp : WorkerRsp) (j : PendingJob)
    → lookup rsp.job_id t.jobs ≡ some j
    → contains rsp.worker_id j.pending ≡ true
    → record_response t rsp ≡ done (store_response t rsp.job_id (finish j rsp))
unfolding record_response record_entry
record_response_stores t rsp j h p = rw (h, p)

-- In a valid tracker a response from a worker that is pending in its job is accepted. Either the
-- job goes on, with every worker a member as often as before, this one no longer pending, and
-- nothing delivered; or the job is removed and its channel is sent, for every worker, as many
-- responses of that worker as it was a member of the job.
pub record_response_accepts :
    (t : JobTracker) (rsp : WorkerRsp) (j : PendingJob)
    → IsValid t
    → lookup rsp.job_id t.jobs ≡ some j
    → contains rsp.worker_id j.pending ≡ true
    → (t' : JobTracker) × (record_response t rsp ≡ done t')
      × (((j' : PendingJob) × (lookup rsp.job_id t'.jobs ≡ some j')
            × (t'.delivered ≡ t.delivered)
            × (contains rsp.worker_id j'.pending ≡ false)
            × ((a : ℕ) → members a j' ≡ members a j))
          ⊎ ((lookup rsp.job_id t'.jobs ≡ none)
              × ((rs : List WorkerRsp) × (t'.delivered ≡ (j.response_tx, rs) ∷ t.delivered)
                  × ((a : ℕ) → responses_of a rs ≡ members a j))))
unfolding finish
record_response_accepts t rsp j v h p =
    let job_v : IsValidJob rsp.job_id j = lookup-IsValidJob rsp.job_id j t.jobs v h in
    let stored : record_response t rsp ≡ done (store_response t rsp.job_id (finish j rsp)) =
      record_response_stores t rsp j h p in
    elim (Bool-cases (is_complete (finish j rsp))) [
      | inl c ↦ (
        _,
        stored ∙ ap done (store_response_ends t rsp.job_id (finish j rsp) c),
        inr (
          lookup-delete-same rsp.job_id (put rsp.job_id (finish j rsp) t.jobs),
          (
            values (finish j rsp).results,
            refl,
            λ a.
                responses_of-values a rsp.job_id (finish j rsp).results
                  (finish-IsValidJob rsp j job_v p).1
                ∙ complete_members a (finish j rsp) c
                ∙ members-finish a j rsp job_v.0 p,
          ),
        ),
      )
      | inr c ↦ (
        _,
        stored ∙ ap done (store_response_goes_on t rsp.job_id (finish j rsp) c),
        inl (
          finish j rsp,
          lookup-put-same rsp.job_id (finish j rsp) t.jobs,
          refl,
          contains-remove rsp.worker_id j.pending,
          λ a. members-finish a j rsp job_v.0 p,
        ),
      )
    ]

-- A response that has been accepted was from a worker pending in its job.
accepted_pending :
    (t t' : JobTracker) (rsp : WorkerRsp)
    → record_response t rsp ≡ done t'
    → (j : PendingJob) × (lookup rsp.job_id t.jobs ≡ some j)
      × (contains rsp.worker_id j.pending ≡ true)
unfolding record_response record_entry
accepted_pending t t' rsp h = elim (Option-cases (lookup rsp.job_id t.jobs)) [
  | inl e ↦ absurd (failed-neq-done _ t' (rw e at h))
  | inr (j, e) ↦ elim (Bool-cases (contains rsp.worker_id j.pending)) [
    | inl c ↦ (j, e, c)
    | inr c ↦ absurd (failed-neq-done _ t' (rw (e, c) at h))
  ]
]

record_response_absent :
    (t : JobTracker) (rsp : WorkerRsp)
    → lookup rsp.job_id t.jobs ≡ none
    → record_response t rsp ≡ failed (job_not_found rsp.job_id)
unfolding record_response record_entry
record_response_absent t rsp e = rw e

record_response_idle :
    (t : JobTracker) (rsp : WorkerRsp) (j : PendingJob)
    → lookup rsp.job_id t.jobs ≡ some j
    → contains rsp.worker_id j.pending ≡ false
    → record_response t rsp ≡ failed (not_pending rsp.worker_id rsp.job_id)
unfolding record_response record_entry
record_response_idle t rsp j e c = rw (e, c)

-- In a valid tracker, after a response has been accepted, no other response of the same worker to
-- the same job is, whatever its payload: recording it next is an error.
pub record_response_once :
    (t t' : JobTracker) (rsp : WorkerRsp) (payload : Reply)
    → IsValid t
    → record_response t rsp ≡ done t'
    → (e : TrackerError) × (record_response t' (record rsp { payload = payload }) ≡ failed e)
record_response_once t t' rsp payload v h =
    let found = accepted_pending t t' rsp h in
    let again : WorkerRsp = record rsp { payload = payload } in
    let after = record_response_accepts t rsp found.0 v found.1 found.2 in
    let same : after.0 ≡ t' = done_inj after.0 t' (sym after.1 ∙ h) in
    subst (λ u. (e : TrackerError) × (record_response u again ≡ failed e)) same
      (elim after.2 [
        | inl (j', l, d, c, m) ↦ (_, record_response_idle after.0 again j' l c)
        | inr (l, rest) ↦ (_, record_response_absent after.0 again l)
      ])

-- In a valid tracker, for a worker that is registered in a job: its response, whatever the payload,
-- is refused; the send succeeds, makes it pending, leaves every worker's membership in the job, and
-- a second send is an error.
pub set_to_pending_accepts :
    (t : JobTracker) (rsp : WorkerRsp) (j : PendingJob)
    → IsValid t
    → lookup rsp.job_id t.jobs ≡ some j
    → contains rsp.worker_id j.registered ≡ true
    → (record_response t rsp ≡ failed (not_pending rsp.worker_id rsp.job_id))
      × ((t' : JobTracker) × (j' : PendingJob) × (set_to_pending t rsp.job_id rsp.worker_id
            ≡ done t')
          × (lookup rsp.job_id t'.jobs ≡ some j')
          × (contains rsp.worker_id j'.pending ≡ true)
          × ((a : ℕ) → members a j' ≡ members a j)
          × (set_to_pending t' rsp.job_id rsp.worker_id
              ≡ failed (not_registered rsp.worker_id rsp.job_id)))
unfolding set_to_pending set_entry start insert
set_to_pending_accepts t rsp j v h c =
    let job_v : IsValidJob rsp.job_id j = lookup-IsValidJob rsp.job_id j t.jobs v h in
    let one : 1 ≤ count rsp.worker_id j.registered = contains-count rsp.worker_id j.registered c in
    let idle : contains rsp.worker_id j.pending ≡ false =
      count-contains-not rsp.worker_id j.pending (omega (arith, job_v.0 rsp.worker_id)) in
    let placed = lookup-put-same rsp.job_id (start j rsp.worker_id) t.jobs in
    (
      record_response_idle t rsp j h idle,
      (
        record t { jobs = put rsp.job_id (start j rsp.worker_id) t.jobs },
        start j rsp.worker_id,
        rw (h, c),
        placed,
        rw idle (ground arith),
        λ a. members-start a rsp.worker_id j job_v.0 c,
        rw (placed, contains-remove rsp.worker_id j.registered),
      ),
    )

-- A broadcast to no workers is registered as a job that accepts no send and no response, so that
-- its channel is never sent to by them.
pub no_workers_stuck :
    (t : JobTracker) (rsp : WorkerRsp) (tx : ℕ)
    → (set_to_pending (register_job t rsp.job_id (broadcast 0) tx) rsp.job_id rsp.worker_id
        ≡ failed (not_registered rsp.worker_id rsp.job_id))
      × (record_response (register_job t rsp.job_id (broadcast 0) tx) rsp
          ≡ failed (not_pending rsp.worker_id rsp.job_id))
unfolding register_job set_to_pending set_entry record_response record_entry workers_of range
no_workers_stuck t rsp tx =
    (rw (lookup-put-same rsp.job_id _ t.jobs), rw (lookup-put-same rsp.job_id _ t.jobs))
