-- ===== src/Leader/Tests.antt =====
-- Runs of the theorems on the handle and the task of the leader.
use ampc_common.Base.{
  ℕ, ◌≡◌, ◌≢◌, ◌↔◌, ◌≤◌, List, [], ◌∷◌, ◌++◌, get_elem?, none, some, true, false, refl, arith,
}
use ampc_common.Base.Sets.{count}
use ampc_common.Jobs.{scatter_gather, register_job, record_response, failed, not_pending}
use ampc_common.Leader.{
  WorkerJob, Channel, check_scatter_gather, LeaderState, job_scatter_gather, send, send_command,
  send_msgs, send_failure, first_invalid, worker_set, send_to_workpool,
}
use ampc_common.Leader.Input.{ids, AllBelow, check_scatter_gather_lem}
use ampc_common.Leader.Dispatch.{
  with_commands, commands_for, command_of, failures, send_to_workpool_dispatches,
}

abbrev job : ℕ → WorkerJob
job w = record { payload = 1 ∷ []; worker_id = w }

abbrev two_jobs : List WorkerJob
two_jobs = job 2 ∷ job 0 ∷ []

check_scatter_gather_lem_example :
    (check_scatter_gather 3 two_jobs ≡ none)
    ↔ ((two_jobs ≢ []) × AllBelow 3 two_jobs × ((a : ℕ) → count a (ids two_jobs) ≤ 1))
check_scatter_gather_lem_example = check_scatter_gather_lem 3 two_jobs

-- Two workers; the channel of the worker 0 is closed.
abbrev leader : LeaderState
leader = record {
  tracker = record { jobs = []; delivered = [] };
  worker_cmd_ch = record { is_open = false; sent = [] } ∷ record { is_open = true; sent = [] } ∷ [];
  responses = [];
  refused = [];
}

abbrev both : List WorkerJob
both = job 1 ∷ job 0 ∷ []

abbrev open_channel : Channel
open_channel = record { is_open = true; sent = [] }

send_to_workpool_dispatches_example :
    let st' = send_to_workpool leader (job_scatter_gather both 9 5) in
    (st'.tracker ≡ register_job leader.tracker 5 (scatter_gather (worker_set both)) 9)
    × (get_elem? st'.worker_cmd_ch 1 ≡ some (with_commands open_channel (commands_for 5 1 both)))
    × (st'.responses ≡ [] ++ failures 5 leader.worker_cmd_ch both)
    × (record_response st'.tracker (send_failure 5 0) ≡ failed (not_pending 0 5))
send_to_workpool_dispatches_example =
    send_to_workpool_dispatches leader both 9 (send_failure 5 0) 1 open_channel
      (omega arith, (omega arith, tt)) refl

-- The channel of the worker 1 has its command, and no other.
command_sent :
    with_commands open_channel (commands_for 5 1 both)
    ≡ record { is_open = true; sent = command_of 5 (job 1) ∷ [] }
command_sent = refl

-- The failure of the closed channel is in the queue.
failure_queued :
    (send_to_workpool leader (job_scatter_gather both 9 5)).responses ≡ send_failure 5 0 ∷ []
unfolding send_to_workpool first_invalid send_msgs send_command send
failure_queued = refl
