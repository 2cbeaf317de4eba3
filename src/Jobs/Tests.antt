-- ===== src/Jobs/Tests.antt =====
-- Runs of the theorems on the job tracker: two workers, one job.
use ampc_common.Base.{
  ℕ, ◌≡◌, ◌⊎◌, refl, List, [], ◌∷◌, none, some, true, false, ◌==◌, ◌&&◌, if◌then◌else◌,
}
use ampc_common.Base.Sets.{contains, count, lookup, put, remove, insert, is_empty, range}
use ampc_common.Jobs.{
  PendingJob, JobTracker, WorkerRsp, payload_bytes, broadcast, done, failed, not_pending,
  not_registered, job_not_found, new, register_job, workers_of, set_to_pending, set_entry, start,
  record_response, record_entry, store_response, finish, is_complete, validate_pending_jobs,
  cancel_job,
}
use ampc_common.Jobs.Invariant.{IsValid, members}
use ampc_common.Jobs.Reachable.{Reachable, initial, next, registers, sends, responds, assigned}
use ampc_common.Jobs.Assigned.{AreAssigned, Reachable-IsValid}
use ampc_common.Jobs.Delivery.{
  responses_of, record_response_accepts, set_to_pending_accepts, no_workers_stuck,
}
use ampc_common.Jobs.Lost.{waits, validate_pending_jobs-waits, IsAscending, cancel_job_removes}

abbrev answer : WorkerRsp
answer = record { payload = payload_bytes (7 ∷ []); job_id = 5; worker_id = 1 }

abbrev early_answer : WorkerRsp
early_answer = record { payload = payload_bytes (8 ∷ []); job_id = 5; worker_id = 0 }

-- The job 5 of both workers on the channel 9, as registered, sent to worker 1, and answered by it.
abbrev registered_job : PendingJob
registered_job = record { registered = 1 ∷ 0 ∷ []; pending = []; results = []; response_tx = 9 }

abbrev sent_job : PendingJob
sent_job = record { registered = 0 ∷ []; pending = 1 ∷ []; results = []; response_tx = 9 }

abbrev answered_job : PendingJob
answered_job = record {
  registered = 0 ∷ [];
  pending = [];
  results = (1, answer) ∷ [];
  response_tx = 9;
}

abbrev tracker : PendingJob → JobTracker
tracker j = record { jobs = (5, j) ∷ []; delivered = [] }

registration : register_job new 5 (broadcast 2) 9 ≡ tracker registered_job
unfolding register_job new workers_of range put
registration = refl

send : set_to_pending (register_job new 5 (broadcast 2) 9) 5 1 ≡ done (tracker sent_job)
unfolding register_job new workers_of range put set_to_pending set_entry lookup start remove insert
send = refl

response : record_response (tracker sent_job) answer ≡ done (tracker answered_job)
unfolding record_response record_entry store_response finish is_complete is_empty lookup put remove
response = refl

-- The job 5 is the only one, for the workers of the broadcast.
abbrev only_job : ℕ → List ℕ
only_job = assigned (λ k. []) 5 (workers_of (broadcast 2))

registered-Reachable : Reachable (register_job new 5 (broadcast 2) 9) only_job
registered-Reachable = registers new (λ k. []) 5 9 (broadcast 2) initial tt

sent-Reachable : Reachable (tracker sent_job) only_job
sent-Reachable = next _ _ only_job registered-Reachable (sends _ (tracker sent_job) 5 1 send)

answered-Reachable : Reachable (tracker answered_job) only_job
answered-Reachable =
    next _ _ only_job sent-Reachable
      (responds (tracker sent_job) (tracker answered_job) answer response)

found_sent : lookup 5 (tracker sent_job).jobs ≡ some sent_job
unfolding lookup
found_sent = refl

Reachable-IsValid_example :
    IsValid (tracker answered_job) × AreAssigned only_job (tracker answered_job).jobs
Reachable-IsValid_example = Reachable-IsValid (tracker answered_job) only_job answered-Reachable

record_response_accepts_example :
    (t' : JobTracker) × (record_response (tracker sent_job) answer ≡ done t')
    × (((j' : PendingJob) × (lookup 5 t'.jobs ≡ some j')
          × (t'.delivered ≡ [])
          × (contains 1 j'.pending ≡ false)
          × ((a : ℕ) → members a j' ≡ members a sent_job))
        ⊎ ((lookup 5 t'.jobs ≡ none)
            × ((rs : List WorkerRsp) × (t'.delivered ≡ (9, rs) ∷ [])
                × ((a : ℕ) → responses_of a rs ≡ members a sent_job))))
record_response_accepts_example =
    record_response_accepts (tracker sent_job) answer sent_job
      (Reachable-IsValid (tracker sent_job) only_job sent-Reachable).0 found_sent refl

set_to_pending_accepts_example :
    (record_response (tracker sent_job) early_answer ≡ failed (not_pending 0 5))
    × ((t' : JobTracker) × (j' : PendingJob) × (set_to_pending (tracker sent_job) 5 0 ≡ done t')
        × (lookup 5 t'.jobs ≡ some j')
        × (contains 0 j'.pending ≡ true)
        × ((a : ℕ) → members a j' ≡ members a sent_job)
        × (set_to_pending t' 5 0 ≡ failed (not_registered 0 5)))
set_to_pending_accepts_example =
    set_to_pending_accepts (tracker sent_job) early_answer sent_job
      (Reachable-IsValid (tracker sent_job) only_job sent-Reachable).0 found_sent refl

no_workers_stuck_example :
    (set_to_pending (register_job new 5 (broadcast 0) 9) 5 1 ≡ failed (not_registered 1 5))
    × (record_response (register_job new 5 (broadcast 0) 9) answer ≡ failed (not_pending 1 5))
no_workers_stuck_example = no_workers_stuck new answer 9

validate_pending_jobs-waits_example :
    (waits 1 (lookup 5 (validate_pending_jobs (tracker sent_job) 1 (6 ∷ [])).jobs)
      ≡ (waits 1 (lookup 5 (tracker sent_job).jobs) && contains 5 (6 ∷ [])))
    × ((contains 5 (6 ∷ []) ≡ false)
        ⊎ (lookup 5 (validate_pending_jobs (tracker sent_job) 1 (6 ∷ [])).jobs
            ≡ lookup 5 (tracker sent_job).jobs))
validate_pending_jobs-waits_example = validate_pending_jobs-waits (tracker sent_job) 1 5 (6 ∷ [])

cancel_job_removes_example :
    (t' : JobTracker) × (ws : List ℕ) × (cancel_job (tracker sent_job) 5 ≡ done (t', ws))
    × (t'.delivered ≡ [])
    × ((k : ℕ) → lookup k t'.jobs ≡ (if 5 == k then none else lookup k (tracker sent_job).jobs))
    × ((a : ℕ) → count a ws ≡ count a (1 ∷ []))
    × IsAscending 0 ws
    × (cancel_job t' 5 ≡ failed (job_not_found 5))
cancel_job_removes_example = cancel_job_removes (tracker sent_job) 5 sent_job found_sent
