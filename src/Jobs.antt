-- ===== src/Jobs.antt =====
-- ampc-actor-utils/src/network/workpool/leader/job_tracker.rs: the jobs that the leader of a work
-- pool waits for. The concurrent map is a list of job identifiers and jobs, on which one operation
-- runs after another; a set of workers is a list that is read through `count`. `response_tx` is the
-- number of a channel, and `delivered` records what has been sent on the channels, the latest
-- first.
pub mod Invariant
pub mod Reachable
pub mod Assigned
pub mod Delivery
pub mod Lost
mod Tests
use ampc_common.Base.{
  ℕ, zero, suc, Option, none, some, List, [], ◌∷◌, Bool, true, false, ◌&&◌, not, leb, length,
  if◌then◌else◌,
}
use ampc_common.Base.Sets.{contains, remove, insert, is_empty, range, lookup, put, delete, values}

-- The text of an invalid input is left out.
pub data WorkpoolError : Type 0 where
  jobs_lost : ℕ → ℕ → WorkpoolError
  response_lost : ℕ → ℕ → WorkpoolError
  send_failed : WorkpoolError
  invalid_input : WorkpoolError
  cancelled : WorkpoolError
  timeout : WorkpoolError

-- The payload of a response: the bytes, or the error of the worker.
pub data Reply : Type 0 where
  payload_bytes : List ℕ → Reply
  worker_error : WorkpoolError → Reply

pub record WorkerRsp : Type 0 where
  pub payload : Reply
  pub job_id : ℕ
  pub worker_id : ℕ

pub data JobType : Type 0 where
  scatter_gather : List ℕ → JobType
  broadcast : ℕ → JobType

pub record PendingJob : Type 0 where
  pub registered : List ℕ
  pub pending : List ℕ
  pub results : List (ℕ × WorkerRsp)
  pub response_tx : ℕ

pub record JobTracker : Type 0 where
  pub jobs : List (ℕ × PendingJob)
  pub delivered : List (ℕ × List WorkerRsp)

pub data TrackerError : Type 0 where
  job_not_found : ℕ → TrackerError
  not_registered : ℕ → ℕ → TrackerError
  not_pending : ℕ → ℕ → TrackerError

pub data Outcome {ℓ} (A : Type ℓ) : Type ℓ where
  done : A → Outcome A
  failed : TrackerError → Outcome A

unfoldable pub new : JobTracker
new = record { jobs = []; delivered = [] }

unfoldable pub workers_of : JobType → List ℕ
workers_of (scatter_gather worker_ids) = worker_ids
workers_of (broadcast num_workers) = range num_workers

-- A job under the same identifier is replaced, and its channel dropped.
unfoldable pub register_job : JobTracker → ℕ → JobType → ℕ → JobTracker
register_job t job_id job_type tx = record t {
  jobs =
      put job_id
        (record { registered = workers_of job_type; pending = []; results = []; response_tx = tx })
        t.jobs;
}

unfoldable pub start : PendingJob → ℕ → PendingJob
start j worker_id = record j {
  registered = remove worker_id j.registered;
  pending = insert worker_id j.pending;
}

-- `set_to_pending` once the job has been looked up.
unfoldable pub set_entry : JobTracker → ℕ → ℕ → Option PendingJob → Outcome JobTracker
set_entry t job_id worker_id none = failed (job_not_found job_id)
set_entry t job_id worker_id (some j) =
    if contains worker_id j.registered
    then done (record t { jobs = put job_id (start j worker_id) t.jobs })
    else failed (not_registered worker_id job_id)

unfoldable pub set_to_pending : JobTracker → ℕ → ℕ → Outcome JobTracker
set_to_pending t job_id worker_id = set_entry t job_id worker_id (lookup job_id t.jobs)

-- `complete_job` once the job has been removed; `send_results` sends the values of its results.
unfoldable pub complete_entry : JobTracker → ℕ → Option PendingJob → JobTracker
complete_entry t job_id none = t
complete_entry t job_id (some j) = record {
  jobs = delete job_id t.jobs;
  delivered = (j.response_tx, values j.results) ∷ t.delivered;
}

unfoldable pub complete_job : JobTracker → ℕ → JobTracker
complete_job t job_id = complete_entry t job_id (lookup job_id t.jobs)

unfoldable pub finish : PendingJob → WorkerRsp → PendingJob
finish j rsp = record j {
  pending = remove rsp.worker_id j.pending;
  results = put rsp.worker_id rsp j.results;
}

unfoldable pub is_complete : PendingJob → Bool
is_complete j = is_empty j.pending && is_empty j.registered

unfoldable pub store_response : JobTracker → ℕ → PendingJob → JobTracker
store_response t job_id j =
    let t' : JobTracker = record t { jobs = put job_id j t.jobs } in
    if is_complete j then complete_job t' job_id else t'

-- `record_response` once the job has been looked up.
unfoldable pub record_entry : JobTracker → WorkerRsp → Option PendingJob → Outcome JobTracker
record_entry t rsp none = failed (job_not_found rsp.job_id)
record_entry t rsp (some j) =
    if contains rsp.worker_id j.pending
    then done (store_response t rsp.job_id (finish j rsp))
    else failed (not_pending rsp.worker_id rsp.job_id)

unfoldable pub record_response : JobTracker → WorkerRsp → Outcome JobTracker
record_response t rsp = record_entry t rsp (lookup rsp.job_id t.jobs)

-- The jobs that were sent to the worker and that it does not report.
unfoldable pub dropped_jobs : ℕ → List ℕ → List (ℕ × PendingJob) → List ℕ
dropped_jobs worker_id got [] = []
dropped_jobs worker_id got ((job_id, j) ∷ m) =
    if contains worker_id j.pending && not (contains job_id got)
    then job_id ∷ dropped_jobs worker_id got m
    else dropped_jobs worker_id got m

-- An error of `record_response` is logged and the tracker stays as it is.
unfoldable pub or_else : Outcome JobTracker → JobTracker → JobTracker
or_else (done t') t = t'
or_else (failed e) t = t

abbrev pub lost : ℕ → ℕ → WorkerRsp
lost worker_id job_id = record {
  payload = worker_error (jobs_lost worker_id job_id);
  job_id = job_id;
  worker_id = worker_id;
}

unfoldable pub record_lost : ℕ → List ℕ → JobTracker → JobTracker
record_lost worker_id [] t = t
record_lost worker_id (job_id ∷ ids) t =
    record_lost worker_id ids (or_else (record_response t (lost worker_id job_id)) t)

unfoldable pub validate_pending_jobs : JobTracker → ℕ → List ℕ → JobTracker
validate_pending_jobs t worker_id pending_jobs =
    record_lost worker_id (dropped_jobs worker_id pending_jobs t.jobs) t

-- `sort` of the worker identifiers.
unfoldable pub insert_sorted : ℕ → List ℕ → List ℕ
insert_sorted a [] = a ∷ []
insert_sorted a (x ∷ xs) = if leb a x then a ∷ x ∷ xs else x ∷ insert_sorted a xs

unfoldable pub sort : List ℕ → List ℕ
sort [] = []
sort (x ∷ xs) = insert_sorted x (sort xs)

-- `cancel_job` once the job has been looked up: the job goes and its channel is dropped.
unfoldable pub cancel_entry : JobTracker → ℕ → Option PendingJob → Outcome (JobTracker × List ℕ)
cancel_entry t job_id none = failed (job_not_found job_id)
cancel_entry t job_id (some j) = done (record t { jobs = delete job_id t.jobs }, sort j.pending)

unfoldable pub cancel_job : JobTracker → ℕ → Outcome (JobTracker × List ℕ)
cancel_job t job_id = cancel_entry t job_id (lookup job_id t.jobs)

unfoldable pub pending_count : JobTracker → ℕ
pending_count t = length t.jobs
