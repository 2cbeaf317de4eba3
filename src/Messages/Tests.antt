-- ===== src/Messages/Tests.antt =====
-- Runs of the theorems on the messages of the work pool.
use ampc_common.Base.{ℕ, ◌≡◌, refl, arith, [], ◌∷◌, ◌++◌, map, ◌&&◌, true, false}
use ampc_common.Base.Bytes.{take}
use ampc_common.Base.Sets.{contains, lookup, insert}
use ampc_common.Messages.{
  NetworkValue, payload_dyn, payload_len, to_bytes, job, pending_jobs_reply, cancel,
}
use ampc_common.Messages.Stream.{read_and_parse_inbound, serialize_and_write_outbound}
use ampc_common.Messages.RoundTrip.{IsValid, received}
use ampc_common.Messages.Order.{
  flatten, serialize_all, read_and_parse_inbound-serialize_and_write_outbound,
}
use ampc_common.Messages.Cut.{read_and_parse_inbound_cut, write_outbound_empties}
use ampc_common.Messages.Worker.{Worker, new, worker_handle_inbound_msg}
use ampc_common.Messages.Held.{unanswered}
use ampc_common.Jobs
use ampc_common.Jobs.{JobTracker}
use ampc_common.Jobs.Lost.{waits}

abbrev request : NetworkValue
request = job 7 1 (payload_dyn (1 ∷ 2 ∷ 3 ∷ []) 3)

abbrev reply : NetworkValue
reply = pending_jobs_reply 1 (7 ∷ 9 ∷ [])

request-IsValid : IsValid request
unfolding payload_len to_bytes
request-IsValid = (omega arith, omega arith, refl, omega arith)

reply-IsValid : IsValid reply
reply-IsValid = (omega arith, (omega arith, (omega arith, tt)), omega arith)

read_and_parse_inbound-serialize_and_write_outbound_example :
    let w = serialize_and_write_outbound (1 ∷ []) (request ∷ reply ∷ cancel 3 0 ∷ []) in
    (read_and_parse_inbound 3 (flatten w.buffers) ≡ map received w.hooked)
    × (w.hooked ++ w.left ≡ request ∷ reply ∷ cancel 3 0 ∷ [])
read_and_parse_inbound-serialize_and_write_outbound_example =
    read_and_parse_inbound-serialize_and_write_outbound 3 (1 ∷ [])
      (request ∷ reply ∷ cancel 3 0 ∷ [])
      (request-IsValid, (reply-IsValid, ((omega arith, omega arith), tt))) (omega arith)

read_and_parse_inbound_cut_example :
    (n : ℕ) × (read_and_parse_inbound 9 (take 20 (serialize_all (request ∷ reply ∷ [])))
      ≡ take n (map received (request ∷ reply ∷ [])))
read_and_parse_inbound_cut_example =
    read_and_parse_inbound_cut 9 20 (request ∷ reply ∷ []) (request-IsValid, (reply-IsValid, tt))

write_outbound_empties_example :
    let w = serialize_and_write_outbound (0 ∷ 5 ∷ []) (request ∷ reply ∷ []) in
    (w.left ≡ [])
    × (w.hooked ≡ request ∷ reply ∷ [])
    × (flatten w.buffers ≡ serialize_all (request ∷ reply ∷ []))
write_outbound_empties_example =
    write_outbound_empties (0 ∷ 5 ∷ []) (request ∷ reply ∷ []) (omega arith)

abbrev holding : Worker
unfolding new worker_handle_inbound_msg
holding = (worker_handle_inbound_msg request new).1

-- The jobs 7 and 8 were sent to the worker 1, and the job 8 was lost on the way.
abbrev sent_job : Jobs.PendingJob
sent_job = record { registered = []; pending = 1 ∷ []; results = []; response_tx = 9 }

abbrev tracker : JobTracker
tracker = record { jobs = (7, sent_job) ∷ (8, sent_job) ∷ []; delivered = [] }

waits_before :
    (waits 1 (lookup 7 tracker.jobs) && contains 7 (unanswered holding) ≡ true)
    × (waits 1 (lookup 8 tracker.jobs) ≡ true)
    × (waits 1 (lookup 8 tracker.jobs) && contains 8 (unanswered holding) ≡ false)
unfolding lookup holding new worker_handle_inbound_msg insert
waits_before = (refl, refl, refl)
