-- ===== src/Leader.antt =====
-- ampc-actor-utils/src/network/workpool/leader/mod.rs and leader_task.rs: what the handle of the
-- leader checks before it hands a scatter-gather job on, and what the leader's task does with a
-- job. The command channels of the workers, the queue of responses and the channels of the jobs are
-- part of the state; a closed channel refuses what is sent on it.
pub mod Input
pub mod Dispatch
mod Tests
use ampc_common.Base.{
  ℕ, zero, suc, ◌+◌, ◌%◌, ◌^◌, Bool, true, false, Option, none, some, List, [], ◌∷◌, ◌++◌, leb,
  length, if◌then◌else◌,
}
use ampc_common.Base.Sets.{contains, insert}
use ampc_common.Jobs.{
  JobTracker, WorkerRsp, WorkpoolError, send_failed, invalid_input, worker_error, broadcast,
  scatter_gather, Outcome, done, failed, register_job, cancel_job,
}

pub record WorkerJob : Type 0 where
  pub payload : List ℕ
  pub worker_id : ℕ

-- The texts of `InvalidInput`.
pub data InputError : Type 0 where
  empty : InputError
  invalid_worker_id : InputError
  duplicate_worker_id : InputError

-- The loop of `scatter_gather` over the messages, with the worker identifiers seen so far; `none`
-- is its end without an error.
unfoldable pub check_msgs : ℕ → List ℕ → List WorkerJob → Option InputError
check_msgs num_workers worker_ids [] = none
check_msgs num_workers worker_ids (msg ∷ msgs) =
    let rest = check_msgs num_workers (insert msg.worker_id worker_ids) msgs in
    if leb num_workers msg.worker_id
    then some invalid_worker_id
    else if contains msg.worker_id worker_ids
    then some duplicate_worker_id
    else rest

-- `scatter_gather` up to the job identifier.
unfoldable pub check_scatter_gather : ℕ → List WorkerJob → Option InputError
check_scatter_gather num_workers [] = some empty
check_scatter_gather num_workers (msg ∷ msgs) = check_msgs num_workers [] (msg ∷ msgs)

-- `NetworkValue::Job`.
pub record Command : Type 0 where
  pub job_id : ℕ
  pub worker_id : ℕ
  pub payload : List ℕ

pub record Channel : Type 0 where
  pub is_open : Bool
  pub sent : List Command

pub data Job : Type 0 where
  job_broadcast : List ℕ → ℕ → ℕ → Job
  job_scatter_gather : List WorkerJob → ℕ → ℕ → Job
  job_cancel : ℕ → Job

-- `responses` is the queue of `worker_rsp_tx`, `refused` the errors that the leader's task sends on
-- the channels of jobs.
pub record LeaderState : Type 0 where
  pub tracker : JobTracker
  pub worker_cmd_ch : List Channel
  pub responses : List WorkerRsp
  pub refused : List (ℕ × WorkpoolError)

-- `send` on the channel at an index, with its success. No caller gives an index out of range.
unfoldable pub send : List Channel → ℕ → Command → List Channel × Bool
send [] index command = ([], false)
send (ch ∷ chs) zero command =
    if ch.is_open
    then (record ch { sent = ch.sent ++ (command ∷ []) } ∷ chs, true)
    else (ch ∷ chs, false)
send (ch ∷ chs) (suc index) command = let rest = send chs index command in (ch ∷ rest.0, rest.1)

abbrev pub send_failure : ℕ → ℕ → WorkerRsp
send_failure job_id worker_id = record {
  payload = worker_error send_failed;
  job_id = job_id;
  worker_id = worker_id;
}

unfoldable pub send_command : LeaderState → ℕ → Command → LeaderState
send_command st index command =
    let tried = send st.worker_cmd_ch index command in
    if tried.1 then record st { worker_cmd_ch = tried.0 } else record st {
      responses = st.responses ++ (send_failure command.job_id command.worker_id ∷ []);
    }

-- The loop over the messages of a scatter-gather job.
unfoldable pub send_msgs : LeaderState → ℕ → List WorkerJob → LeaderState
send_msgs st job_id [] = st
send_msgs st job_id (msg ∷ msgs) =
    send_msgs
      (send_command st msg.worker_id
        (record { job_id = job_id; worker_id = msg.worker_id; payload = msg.payload }))
      job_id msgs

-- The loop over the channels of a broadcast, `left` of them from `index` on; a worker identifier
-- has 16 bits.
unfoldable pub send_broadcast : LeaderState → ℕ → List ℕ → ℕ → ℕ → LeaderState
send_broadcast st job_id payload index zero = st
send_broadcast st job_id payload index (suc left) =
    send_broadcast
      (send_command st index
        (record { job_id = job_id; worker_id = index % 2 ^ 16; payload = payload }))
      job_id payload (index + 1) left

-- The first worker identifier of the messages that has no channel.
unfoldable pub first_invalid : ℕ → List WorkerJob → Bool
first_invalid num_channels [] = false
first_invalid num_channels (msg ∷ msgs) =
    if leb num_channels msg.worker_id then true else first_invalid num_channels msgs

unfoldable pub worker_set : List WorkerJob → List ℕ
worker_set [] = []
worker_set (msg ∷ msgs) = insert msg.worker_id (worker_set msgs)

unfoldable pub after_cancel : JobTracker → Outcome (JobTracker × List ℕ) → JobTracker
after_cancel t (done (t', ws)) = t'
after_cancel t (failed e) = t

unfoldable pub send_to_workpool : LeaderState → Job → LeaderState
send_to_workpool st (job_broadcast payload result_rsp job_id) =
    let num_workers : ℕ = length st.worker_cmd_ch in
    send_broadcast
      (record st {
        tracker = register_job st.tracker job_id (broadcast (num_workers % 2 ^ 16)) result_rsp;
      })
      job_id payload 0 num_workers
send_to_workpool st (job_scatter_gather msgs result_rsp job_id) =
    if first_invalid (length st.worker_cmd_ch) msgs
    then record st { refused = (result_rsp, invalid_input) ∷ st.refused }
    else send_msgs
        (record st {
          tracker = register_job st.tracker job_id (scatter_gather (worker_set msgs)) result_rsp;
        })
        job_id msgs
send_to_workpool st (job_cancel job_id) = record st {
  tracker = after_cancel st.tracker (cancel_job st.tracker job_id);
}
