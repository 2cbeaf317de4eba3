-- ===== src/Leader/Dispatch.antt =====
-- What the leader's task makes of a scatter-gather job.
use ampc_common.Base.{
  ℕ, zero, suc, ◌≡◌, ◌∙◌, sym, refl, arith, List, [], ◌∷◌, ◌++◌, Bool, Bool-cases, inl, inr, true,
  false, ◌==◌, if◌then◌else◌, length, ap, leb, some, get_elem?, append_assoc, append-nil, some_inj,
}
use ampc_common.Base.Sets.{lookup-put-same}
use ampc_common.Jobs.{
  JobTracker, WorkerRsp, scatter_gather, register_job, record_response, record_entry, failed,
  not_pending,
}
use ampc_common.Leader.{
  WorkerJob, Command, Channel, LeaderState, job_scatter_gather, send, send_command, send_failure,
  send_msgs, first_invalid, worker_set, send_to_workpool,
}
use ampc_common.Leader.Input.{AllBelow}

abbrev pub command_of : ℕ → WorkerJob → Command
command_of job_id msg = record { job_id = job_id; worker_id = msg.worker_id; payload = msg.payload }

-- The commands of the messages for one worker, in order.
abbrev pub commands_for : ℕ → ℕ → List WorkerJob → List Command
commands_for job_id a [] = []
commands_for job_id a (msg ∷ msgs) =
    if msg.worker_id == a
    then command_of job_id msg ∷ commands_for job_id a msgs
    else commands_for job_id a msgs

-- A channel that has been sent commands; a closed one takes none.
abbrev pub with_commands : Channel → List Command → Channel
with_commands ch cs = if ch.is_open then record ch { sent = ch.sent ++ cs } else ch

abbrev pub is_open_at : List Channel → ℕ → Bool
is_open_at [] i = false
is_open_at (ch ∷ chs) zero = ch.is_open
is_open_at (ch ∷ chs) (suc i) = is_open_at chs i

-- The failures of the messages for workers whose channel is closed, in order.
abbrev pub failures : ℕ → List Channel → List WorkerJob → List WorkerRsp
failures job_id chs [] = []
failures job_id chs (msg ∷ msgs) =
    if is_open_at chs msg.worker_id
    then failures job_id chs msgs
    else send_failure job_id msg.worker_id ∷ failures job_id chs msgs

send_taken : (chs : List Channel) (i : ℕ) (c : Command) → (send chs i c).1 ≡ is_open_at chs i
unfolding send
send_taken [] i c = refl
send_taken (ch ∷ chs) zero c = ground arith
send_taken (ch ∷ chs) (suc i) c = send_taken chs i c

send_refused :
    (chs : List Channel) (i : ℕ) (c : Command) → (send chs i c).1 ≡ false → (send chs i c).0 ≡ chs
unfolding send
send_refused [] i c h = refl
send_refused (ch ∷ chs) zero c h = elim (Bool-cases ch.is_open) [
  | inl o ↦ absurd (ground arith)
  | inr o ↦ rw o
]
send_refused (ch ∷ chs) (suc i) c h = ap (λ t. ch ∷ t) (send_refused chs i c h)

-- A command goes to the channel at its index and to no other, and no channel opens or closes.
send_at :
    (chs : List Channel) (i a : ℕ) (c : Command) (ch : Channel)
    → get_elem? chs a ≡ some ch
    → get_elem? (send chs i c).0 a ≡ some (if i == a then with_commands ch (c ∷ []) else ch)
unfolding send
send_at [] i a c ch h = absurd (cc)
send_at (x ∷ chs) zero zero c ch h =
    let same : x ≡ ch = some_inj x ch h in
    elim (Bool-cases x.is_open) [ inl o ↦ rw (sym same, o) refl | inr o ↦ rw (sym same, o) refl ]
send_at (x ∷ chs) zero (suc a) c ch h =
    let apart : (0 == suc a) ≡ false = ground arith in
    elim (Bool-cases x.is_open) [ inl o ↦ rw (apart, o) h | inr o ↦ rw (apart, o) h ]
send_at (x ∷ chs) (suc i) zero c ch h =
    let apart : (suc i == 0) ≡ false = ground arith in rw apart h
send_at (x ∷ chs) (suc i) (suc a) c ch h =
    send_at chs i a c ch h
    ∙ ap (λ b. some (if b then with_commands ch (c ∷ []) else ch)) (suc_test i a)
  where
    suc_test : (i a : ℕ) → (i == a) ≡ (suc i == suc a)
    suc_test i a = ground arith

send_open :
    (chs : List Channel) (i b : ℕ) (c : Command) → is_open_at (send chs i c).0 b ≡ is_open_at chs b
unfolding send
send_open [] i b c = refl
send_open (ch ∷ chs) zero zero c = elim (Bool-cases ch.is_open) [ inl o ↦ rw o | inr o ↦ rw o ]
send_open (ch ∷ chs) zero (suc b) c = elim (Bool-cases ch.is_open) [ inl o ↦ rw o | inr o ↦ rw o ]
send_open (ch ∷ chs) (suc i) zero c = refl
send_open (ch ∷ chs) (suc i) (suc b) c = send_open chs i b c

send_command-channels :
    (i : ℕ) (c : Command) (st : LeaderState)
    → (send_command st i c).worker_cmd_ch ≡ (send st.worker_cmd_ch i c).0
unfolding send_command
send_command-channels i c st = elim (Bool-cases (send st.worker_cmd_ch i c).1) [
  | inl o ↦ rw o
  | inr o ↦ rw o (sym (send_refused st.worker_cmd_ch i c o))
]

send_command-responses :
    (i : ℕ) (c : Command) (st : LeaderState)
    → (send_command st i c).responses ≡ (
        if is_open_at st.worker_cmd_ch i
        then st.responses
        else st.responses ++ send_failure c.job_id c.worker_id ∷ [])
unfolding send_command
send_command-responses i c st = elim (Bool-cases (is_open_at st.worker_cmd_ch i)) [
  | inl o ↦ rw (send_taken st.worker_cmd_ch i c, o)
  | inr o ↦ rw (send_taken st.worker_cmd_ch i c, o)
]

send_command-tracker :
    (i : ℕ) (c : Command) (st : LeaderState) → (send_command st i c).tracker ≡ st.tracker
unfolding send_command
send_command-tracker i c st = elim (Bool-cases (send st.worker_cmd_ch i c).1) [
  | inl o ↦ rw o
  | inr o ↦ rw o
]

send_msgs-tracker :
    (job_id : ℕ) (msgs : List WorkerJob) (st : LeaderState)
    → (send_msgs st job_id msgs).tracker ≡ st.tracker
unfolding send_msgs
send_msgs-tracker job_id [] st = refl
send_msgs-tracker job_id (msg ∷ msgs) st =
    send_msgs-tracker job_id msgs _ ∙ send_command-tracker msg.worker_id _ st

with_commands-append :
    (is_open : Bool) (sent cs ds : List Command)
    → with_commands (with_commands (record { is_open = is_open; sent = sent }) cs) ds
      ≡ with_commands (record { is_open = is_open; sent = sent }) (cs ++ ds)
with_commands-append true sent cs ds =
    ap (λ t. record { is_open = true; sent = t }) (append_assoc sent cs ds)
with_commands-append false sent cs ds = refl

-- The first message and then the others.
with_commands-cons :
    (job_id a : ℕ) (msg : WorkerJob) (msgs : List WorkerJob) (ch : Channel)
    → with_commands
        (if msg.worker_id == a then with_commands ch (command_of job_id msg ∷ []) else ch)
        (commands_for job_id a msgs)
      ≡ with_commands ch (commands_for job_id a (msg ∷ msgs))
with_commands-cons job_id a msg msgs ch =
    let cmd = command_of job_id msg ∷ [] in
    elim (Bool-cases (msg.worker_id == a)) [
      | inl e ↦ rw e (with_commands-append ch.is_open ch.sent cmd (commands_for job_id a msgs))
      | inr e ↦ rw e refl
    ]

with_commands-nil : (ch : Channel) → with_commands ch [] ≡ ch
with_commands-nil ch = by_test ch.is_open
  where
    by_test : (b : Bool) → (if b then record ch { sent = ch.sent ++ [] } else ch) ≡ ch
    by_test true = ap (λ cs. record ch { sent = cs }) (append-nil ch.sent)
    by_test false = refl

send_msgs-channel :
    (job_id a : ℕ) (msgs : List WorkerJob) (st : LeaderState) (ch : Channel)
    → get_elem? st.worker_cmd_ch a ≡ some ch
    → get_elem? (send_msgs st job_id msgs).worker_cmd_ch a
      ≡ some (with_commands ch (commands_for job_id a msgs))
unfolding send_msgs
send_msgs-channel job_id a [] st ch h = h ∙ ap some (sym (with_commands-nil ch))
send_msgs-channel job_id a (msg ∷ msgs) st ch h =
    let c = command_of job_id msg in
    send_msgs-channel job_id a msgs (send_command st msg.worker_id c) _ (
      ap (λ chs. get_elem? chs a) (send_command-channels msg.worker_id c st)
      ∙ send_at st.worker_cmd_ch msg.worker_id a c ch h)
    ∙ ap some (with_commands-cons job_id a msg msgs ch)

failures_open :
    (job_id : ℕ) (chs chs' : List Channel) (msgs : List WorkerJob)
    → ((b : ℕ) → is_open_at chs b ≡ is_open_at chs' b)
    → failures job_id chs msgs ≡ failures job_id chs' msgs
failures_open job_id chs chs' [] h = refl
failures_open job_id chs chs' (msg ∷ msgs) h =
    rw (h msg.worker_id, failures_open job_id chs chs' msgs h) refl

send_msgs-responses :
    (job_id : ℕ) (msgs : List WorkerJob) (st : LeaderState)
    → (send_msgs st job_id msgs).responses ≡ st.responses ++ failures job_id st.worker_cmd_ch msgs
unfolding send_msgs
send_msgs-responses job_id [] st = sym (append-nil st.responses)
send_msgs-responses job_id (msg ∷ msgs) st =
    let c = command_of job_id msg in
    let chs = st.worker_cmd_ch in
    let rest = failures job_id chs msgs in
    let same : failures job_id (send_command st msg.worker_id c).worker_cmd_ch msgs ≡ rest =
      rw (send_command-channels msg.worker_id c st) (
        failures_open job_id (send chs msg.worker_id c).0 chs msgs
          (λ b. send_open chs msg.worker_id b c)) in
    send_msgs-responses job_id msgs (send_command st msg.worker_id c)
    ∙ rw (same, send_command-responses msg.worker_id c st)
        (elim (Bool-cases (is_open_at chs msg.worker_id)) [
          | inl o ↦ rw o refl
          | inr o ↦ rw o (append_assoc st.responses (send_failure job_id msg.worker_id ∷ []) rest)
        ])

first_invalid-AllBelow :
    (n : ℕ) (msgs : List WorkerJob) → AllBelow n msgs → first_invalid n msgs ≡ false
unfolding first_invalid
first_invalid-AllBelow n [] b = refl
first_invalid-AllBelow n (msg ∷ msgs) b =
    let valid : leb n msg.worker_id ≡ false = ground (arith, b.0) in
    rw valid (first_invalid-AllBelow n msgs b.1)

early :
    (t : JobTracker) (rsp : WorkerRsp) (workers : List ℕ) (tx : ℕ)
    → record_response (register_job t rsp.job_id (scatter_gather workers) tx) rsp
      ≡ failed (not_pending rsp.worker_id rsp.job_id)
unfolding register_job record_response record_entry
early t rsp workers tx = rw (lookup-put-same rsp.job_id _ t.jobs)

-- When every message is for a worker that has a channel, a scatter-gather job is registered for the
-- workers of the messages. The channel of every worker, when it is open, has the commands of the
-- messages for this worker behind what was sent on it, in order and no others, and else it is as
-- before. The failures of the messages for workers with a closed channel are behind the queue of
-- responses, in order and no others. The tracker refuses every response of the job as it then is,
-- so also these failures.
pub send_to_workpool_dispatches :
    (st : LeaderState) (msgs : List WorkerJob) (result_rsp : ℕ) (rsp : WorkerRsp) (a : ℕ)
    (ch : Channel)
    → AllBelow (length st.worker_cmd_ch) msgs
    → get_elem? st.worker_cmd_ch a ≡ some ch
    → let st' = send_to_workpool st (job_scatter_gather msgs result_rsp rsp.job_id) in
      (st'.tracker
        ≡ register_job st.tracker rsp.job_id (scatter_gather (worker_set msgs)) result_rsp)
      × (get_elem? st'.worker_cmd_ch a ≡ some (with_commands ch (commands_for rsp.job_id a msgs)))
      × (st'.responses ≡ st.responses ++ failures rsp.job_id st.worker_cmd_ch msgs)
      × (record_response st'.tracker rsp ≡ failed (not_pending rsp.worker_id rsp.job_id))
unfolding send_to_workpool
send_to_workpool_dispatches st msgs result_rsp rsp a ch b h =
    let registered =
      register_job st.tracker rsp.job_id (scatter_gather (worker_set msgs)) result_rsp in
    let ready : LeaderState = record st { tracker = registered } in
    let valid = first_invalid-AllBelow (length st.worker_cmd_ch) msgs b in
    let kept = send_msgs-tracker rsp.job_id msgs ready in
    rw valid (
      kept,
      send_msgs-channel rsp.job_id a msgs ready ch h,
      send_msgs-responses rsp.job_id msgs ready,
      ap (λ t. record_response t rsp) kept ∙ early st.tracker rsp (worker_set msgs) result_rsp,
    )
