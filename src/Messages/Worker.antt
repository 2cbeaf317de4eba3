-- ===== src/Messages/Worker.antt =====
-- ampc-actor-utils/src/network/workpool/worker/worker_task.rs and mod.rs, and the leader's side of
-- a connection in leader/leader_task.rs. A channel is the list of what has been sent on it and not
-- yet been received; a job in the channel of the worker and one that the application works on are
-- kept in one list.
use ampc_common.Base.{ℕ, List, [], ◌∷◌, ◌++◌, Bool, true, if◌then◌else◌, Option, none, some}
use ampc_common.Base.Bytes.{Read, ok, bail, ◌>>=◌}
use ampc_common.Base.Sets.{insert, remove}
use ampc_common.Messages.{
  Payload, NetworkValue, job, pending_jobs_request, pending_jobs_reply, cancel, to_bytes, serialize,
}
use ampc_common.Messages.Stream.{read_single_message}
use ampc_common.Jobs
use ampc_common.Jobs.{JobTracker, WorkerRsp, validate_pending_jobs}

pub data Error : Type 0 where
  send_failed invalid_input : Error

pub record Msg : Type 0 where
  pub job_id : ℕ
  pub worker_id : ℕ
  pub payload : Payload

-- The worker task: `receiving` says that the application still holds the receiver of the jobs. The
-- receiver of the responses is the task itself.
pub record Worker : Type 0 where
  pub pending_jobs : List ℕ
  pub receiving : Bool
  pub jobs : List Msg
  pub responses : List NetworkValue

unfoldable pub new : Worker
new = record { pending_jobs = []; receiving = true; jobs = []; responses = [] }

-- An error is returned next to what has been done before it.
unfoldable pub worker_handle_inbound_msg : NetworkValue → Worker → Option Error × Worker
worker_handle_inbound_msg (job job_id worker_id payload) w =
    let held : Worker = record w { pending_jobs = insert job_id w.pending_jobs } in
    let msg : Msg = record { job_id = job_id; worker_id = worker_id; payload = payload } in
    if w.receiving
    then (none, record held { jobs = w.jobs ++ msg ∷ [] })
    else (some send_failed, held)
worker_handle_inbound_msg (pending_jobs_request worker_id) w =
    (none, record w { responses = w.responses ++ pending_jobs_reply worker_id w.pending_jobs ∷ [] })
worker_handle_inbound_msg (cancel job_id worker_id) w = (none, w)
worker_handle_inbound_msg (pending_jobs_reply worker_id job_ids) w = (some invalid_input, w)

-- `Job::send_result`.
unfoldable pub send_result : Msg → Payload → NetworkValue
send_result msg payload = job msg.job_id msg.worker_id payload

-- What the worker does before it writes a message.
unfoldable pub pre_send_hook : NetworkValue → List ℕ → List ℕ
pre_send_hook (job job_id worker_id payload) pending = remove job_id pending
pre_send_hook _ pending = pending

-- The answer of the worker to the first message on a connection.
unfoldable pub worker_handshake : NetworkValue → List ℕ → Read NetworkValue
worker_handshake (pending_jobs_request worker_id) pending_job_ids =
    ok (pending_jobs_reply worker_id pending_job_ids)
worker_handshake _ pending_job_ids = bail

-- What the leader takes from the first message of the worker.
unfoldable pub leader_handshake : NetworkValue → Read (List ℕ)
leader_handshake (pending_jobs_reply worker_id job_ids) = ok job_ids
leader_handshake _ = bail

-- A connection is made: the request and the reply go over it as bytes, and the tracker drops the
-- jobs that the worker does not have.
unfoldable pub reconnect : JobTracker → ℕ → Worker → Read JobTracker
reconnect t worker_id w = do
  request ← read_single_message (serialize (pending_jobs_request worker_id))
  reply ← worker_handshake request.0 w.pending_jobs
  answer ← read_single_message (serialize reply)
  pending ← leader_handshake answer.0
  ok (validate_pending_jobs t worker_id pending)

-- The result, and what has been sent to the leader's task, where its channel is open.
unfoldable pub leader_forward_inbound_msg : NetworkValue → Option Error × List WorkerRsp
leader_forward_inbound_msg (job job_id worker_id payload) = (
  none,
  record { payload = Jobs.payload_bytes (to_bytes payload); job_id = job_id; worker_id = worker_id }
      ∷ [],
)
leader_forward_inbound_msg (pending_jobs_reply worker_id job_ids) = (none, [])
leader_forward_inbound_msg (cancel job_id worker_id) = (none, [])
leader_forward_inbound_msg (pending_jobs_request worker_id) = (some invalid_input, [])
