-- ===== src/Messages/Held.antt =====
-- The jobs that a worker reports when it reconnects.
use ampc_common.Base.{ℕ, ◌+◌, ◌≤◌, ◌≡◌, List, [], ◌∷◌, ◌++◌, true, false}
use ampc_common.Base.Sets.{contains, count}
use ampc_common.Messages.{Payload, NetworkValue, job, pending_jobs_request, cancel}
use ampc_common.Messages.Worker.{
  Msg, Worker, new, worker_handle_inbound_msg, send_result, pre_send_hook,
}

-- The jobs of the messages of a channel.
abbrev answered : List NetworkValue → List ℕ
answered [] = []
answered (job job_id worker_id payload ∷ vs) = job_id ∷ answered vs
answered (_ ∷ vs) = answered vs

abbrev handed : List Msg → List ℕ
handed [] = []
handed (msg ∷ msgs) = msg.job_id ∷ handed msgs

-- The jobs that the worker has received and whose response it has not taken to write.
abbrev pub unanswered : Worker → List ℕ
unanswered w = handed w.jobs ++ answered w.responses

-- What happens at a worker while its application takes jobs: a message arrives, where a job is none
-- that the worker still has; the application sends the result of a job; the first response is taken
-- to be written, whether or not the connection then takes it.
pub data Step : Worker → Worker → Type 0 where
  receives_job :
      (w : Worker) (job_id worker_id : ℕ) (payload : Payload)
      → contains job_id w.pending_jobs ≡ false
      → Step w (worker_handle_inbound_msg (job job_id worker_id payload) w).1
  receives_request :
      (w : Worker) (worker_id : ℕ)
      → Step w (worker_handle_inbound_msg (pending_jobs_request worker_id) w).1
  receives_cancel :
      (w : Worker) (job_id worker_id : ℕ)
      → Step w (worker_handle_inbound_msg (cancel job_id worker_id) w).1
  sends_result :
      (w : Worker) (before after : List Msg) (msg : Msg) (payload : Payload)
      → w.jobs ≡ before ++ msg ∷ after
      → Step w (record w {
        jobs = before ++ after;
        responses = w.responses ++ send_result msg payload ∷ [];
      })
  writes :
      (w : Worker) (v : NetworkValue) (rest : List NetworkValue)
      → w.responses ≡ v ∷ rest
      → Step w (record w { responses = rest; pending_jobs = pre_send_hook v w.pending_jobs })

pub data Reachable : Worker → Type 0 where
  initial : Reachable new
  next : (w w' : Worker) → Reachable w → Step w w' → Reachable w'

-- The set of pending jobs has exactly the unanswered ones, each once.
record IsHolding (w : Worker) : Type 0 where
  open_ : w.receiving ≡ true
  same : (k : ℕ) → count k w.pending_jobs ≡ count k (handed w.jobs) + count k (answered w.responses)
  once : (k : ℕ) → count k w.pending_jobs ≤ 1
