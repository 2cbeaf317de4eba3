-- ===== src/Jobs/Assigned.antt =====
-- Every worker that a job was registered for stays a member of the job.
use ampc_common.Base.{
  ℕ, ◌≡◌, refl, arith, List, [], ◌∷◌, none, some, some_inj, Option-cases, Bool-cases, inl, inr,
  true, false, subst, sym, ap, ◌∙◌, ◌==◌,
}
use ampc_common.Base.Sets.{contains, count, keys, lookup, put, delete, lookup-put, lookup-delete}
use ampc_common.Jobs.{
  PendingJob, JobTracker, WorkerRsp, JobType, Outcome, done, failed, start, finish, set_to_pending,
  set_entry, record_response, record_entry, store_response, complete_job, complete_entry,
  register_job, workers_of, is_complete, cancel_job, cancel_entry, validate_pending_jobs,
  record_lost, or_else, lost, new,
}
use ampc_common.Jobs.Invariant.{IsValid, members, members-start, members-finish, lookup-IsValidJob}
use ampc_common.Jobs.Reachable.{
  Step, sends, responds, validates, cancels, Reachable, initial, registers, next, assigned,
  done_inj, failed-neq-done, Step-IsValid, register_job-IsValid, or_else-IsValid,
}

-- In every job that is there, each worker is a member as often as it was registered.
abbrev pub AreAssigned : (ℕ → List ℕ) → List (ℕ × PendingJob) → Type 0
AreAssigned workers m =
    (k : ℕ) (j : PendingJob) → lookup k m ≡ some j → (a : ℕ) → members a j ≡ count a (workers k)

put-AreAssigned :
    (workers workers' : ℕ → List ℕ) (job_id : ℕ) (j : PendingJob) (m : List (ℕ × PendingJob))
    → AreAssigned workers m
    → ((k : ℕ) → (job_id == k) ≡ false → workers' k ≡ workers k)
    → ((a : ℕ) → members a j ≡ count a (workers' job_id))
    → AreAssigned workers' (put job_id j m)
put-AreAssigned workers workers' job_id j m h same e k j' found a =
    elim (Bool-cases (job_id == k)) [
      | inl here ↦
          let key : job_id ≡ k = ground arith in
          let new : j ≡ j' = some_inj j j' (sym (rw here at (lookup-put job_id k j m)) ∙ found) in
          subst (λ t. members a t ≡ count a (workers' k)) new
            (subst (λ (t : ℕ). members a j ≡ count a (workers' t)) key (e a))
      | inr other ↦
          h k j' (sym (rw other at (lookup-put job_id k j m)) ∙ found) a
          ∙ ap (λ ws. count a ws) (sym (same k other))
    ]

delete-AreAssigned :
    (workers : ℕ → List ℕ) (job_id : ℕ) (m : List (ℕ × PendingJob))
    → AreAssigned workers m
    → AreAssigned workers (delete job_id m)
delete-AreAssigned workers job_id m h k j found a = elim (Bool-cases (job_id == k)) [
  | inl here ↦ absurd (none_ne_some j (sym (rw here at (lookup-delete job_id k m)) ∙ found))
  | inr other ↦ h k j (sym (rw other at (lookup-delete job_id k m)) ∙ found) a
]
  where
    none_ne_some : (j : PendingJob) → none ≡ some j → ⊥
    none_ne_some j p = cc

register_job-AreAssigned :
    (t : JobTracker) (workers : ℕ → List ℕ) (job_id tx : ℕ) (ty : JobType)
    → AreAssigned workers t.jobs
    → AreAssigned (assigned workers job_id (workers_of ty)) (register_job t job_id ty tx).jobs
unfolding register_job count keys
register_job-AreAssigned t workers job_id tx ty h =
    let own : (job_id == job_id) ≡ true = ground arith in
    put-AreAssigned workers (assigned workers job_id (workers_of ty)) job_id _ t.jobs h
      (λ k other. rw other refl) (λ a. rw own (omega arith))

complete_job-AreAssigned :
    (t : JobTracker) (workers : ℕ → List ℕ) (job_id : ℕ)
    → AreAssigned workers t.jobs
    → AreAssigned workers (complete_job t job_id).jobs
unfolding complete_job complete_entry
complete_job-AreAssigned t workers job_id h = elim (Option-cases (lookup job_id t.jobs)) [
  | inl e ↦ rw e h
  | inr (j, e) ↦ rw e (delete-AreAssigned workers job_id t.jobs h)
]

store_response-AreAssigned :
    (t : JobTracker) (workers : ℕ → List ℕ) (job_id : ℕ) (j : PendingJob)
    → AreAssigned workers t.jobs
    → ((a : ℕ) → members a j ≡ count a (workers job_id))
    → AreAssigned workers (store_response t job_id j).jobs
unfolding store_response
store_response-AreAssigned t workers job_id j h e =
    let stored : AreAssigned workers (put job_id j t.jobs) =
      put-AreAssigned workers workers job_id j t.jobs h (λ k other. refl) e in
    elim (Bool-cases (is_complete j)) [
      | inl c ↦ rw c (complete_job-AreAssigned _ workers job_id stored)
      | inr c ↦ rw c stored
    ]

set_to_pending-AreAssigned :
    (t t' : JobTracker) (workers : ℕ → List ℕ) (job_id w : ℕ)
    → IsValid t
    → AreAssigned workers t.jobs
    → set_to_pending t job_id w ≡ done t'
    → AreAssigned workers t'.jobs
unfolding set_to_pending set_entry
set_to_pending-AreAssigned t t' workers job_id w v h s =
    elim (Option-cases (lookup job_id t.jobs)) [
      | inl e ↦ absurd (failed-neq-done _ t' (rw e at s))
      | inr (j, e) ↦ elim (Bool-cases (contains w j.registered)) [
        | inl c ↦
            let once = (lookup-IsValidJob job_id j t.jobs v e).0 in
            subst (λ (u : JobTracker). AreAssigned workers u.jobs) (done_inj _ t' (rw (e, c) at s))
              (put-AreAssigned workers workers job_id (start j w) t.jobs h (λ k other. refl)
                (λ a. members-start a w j once c ∙ h job_id j e a))
        | inr c ↦ absurd (failed-neq-done _ t' (rw (e, c) at s))
      ]
    ]

record_response-AreAssigned :
    (t t' : JobTracker) (workers : ℕ → List ℕ) (rsp : WorkerRsp)
    → IsValid t
    → AreAssigned workers t.jobs
    → record_response t rsp ≡ done t'
    → AreAssigned workers t'.jobs
unfolding record_response record_entry
record_response-AreAssigned t t' workers rsp v h s =
    elim (Option-cases (lookup rsp.job_id t.jobs)) [
      | inl e ↦ absurd (failed-neq-done _ t' (rw e at s))
      | inr (j, e) ↦ elim (Bool-cases (contains rsp.worker_id j.pending)) [
        | inl c ↦
            let once = (lookup-IsValidJob rsp.job_id j t.jobs v e).0 in
            subst (λ (u : JobTracker). AreAssigned workers u.jobs) (done_inj _ t' (rw (e, c) at s))
              (store_response-AreAssigned t workers rsp.job_id (finish j rsp) h
                (λ a. members-finish a j rsp once c ∙ h rsp.job_id j e a))
        | inr c ↦ absurd (failed-neq-done _ t' (rw (e, c) at s))
      ]
    ]

or_else-AreAssigned :
    (t : JobTracker) (workers : ℕ → List ℕ) (rsp : WorkerRsp)
    → IsValid t
    → AreAssigned workers t.jobs
    → AreAssigned workers (or_else (record_response t rsp) t).jobs
unfolding or_else
or_else-AreAssigned t workers rsp v h = by_outcome (record_response t rsp) refl
  where
    by_outcome :
        (o : Outcome JobTracker)
        → record_response t rsp ≡ o
        → AreAssigned workers (or_else o t).jobs
    by_outcome (done t') s = record_response-AreAssigned t t' workers rsp v h s
    by_outcome (failed e) s = h

record_lost-AreAssigned :
    (t : JobTracker) (workers : ℕ → List ℕ) (w : ℕ) (ids : List ℕ)
    → IsValid t
    → AreAssigned workers t.jobs
    → AreAssigned workers (record_lost w ids t).jobs
unfolding record_lost
record_lost-AreAssigned t workers w [] v h = h
record_lost-AreAssigned t workers w (i ∷ ids) v h =
    record_lost-AreAssigned (or_else (record_response t (lost w i)) t) workers w ids
      (or_else-IsValid t (lost w i) v) (or_else-AreAssigned t workers (lost w i) v h)

cancel_job-AreAssigned :
    (t t' : JobTracker) (workers : ℕ → List ℕ) (job_id : ℕ) (ws : List ℕ)
    → AreAssigned workers t.jobs
    → cancel_job t job_id ≡ done (t', ws)
    → AreAssigned workers t'.jobs
unfolding cancel_job cancel_entry
cancel_job-AreAssigned t t' workers job_id ws h s = elim (Option-cases (lookup job_id t.jobs)) [
  | inl e ↦ absurd (failed-neq-done _ (t', ws) (rw e at s))
  | inr (j, e) ↦
      subst (λ (u : JobTracker). AreAssigned workers u.jobs)
        (ap (λ p. p.0) (done_inj _ (t', ws) (rw e at s)))
        (delete-AreAssigned workers job_id t.jobs h)
]

Step-AreAssigned :
    (t t' : JobTracker) (workers : ℕ → List ℕ)
    → IsValid t
    → AreAssigned workers t.jobs
    → Step t t'
    → AreAssigned workers t'.jobs
unfolding validate_pending_jobs
Step-AreAssigned t t' g v h (sends _ _ i w s) = set_to_pending-AreAssigned t t' g i w v h s
Step-AreAssigned t t' g v h (responds _ _ rsp s) = record_response-AreAssigned t t' g rsp v h s
Step-AreAssigned t t' g v h (validates _ w reported) = record_lost-AreAssigned t g w _ v h
Step-AreAssigned t t' g v h (cancels _ _ i ws s) = cancel_job-AreAssigned t t' g i ws h s

-- In every state that registrations of sets of workers, sends, responses, validations and
-- cancellations lead to from the empty tracker, no two jobs have one identifier, every response is
-- kept under the worker and in the job that it names, no worker is more than once registered,
-- pending or answered in a job, and a worker is registered, pending or answered in a job that is
-- there as often as it is in the set that the job was last registered for.
pub Reachable-IsValid :
    (t : JobTracker) (workers : ℕ → List ℕ)
    → Reachable t workers
    → IsValid t × AreAssigned workers t.jobs
unfolding new lookup
Reachable-IsValid _ _ initial = (tt, λ k j found a. absurd (cc))
Reachable-IsValid _ _ (registers t g i tx ty r w) =
    let (v, h) = Reachable-IsValid t g r in
    (register_job-IsValid t i tx ty w v, register_job-AreAssigned t g i tx ty h)
Reachable-IsValid _ _ (next t t' g r s) =
    let (v, h) = Reachable-IsValid t g r in (Step-IsValid t t' v s, Step-AreAssigned t t' g v h s)
