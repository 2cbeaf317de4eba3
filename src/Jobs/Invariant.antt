-- ===== src/Jobs/Invariant.antt =====
-- The invariant of the job tracker and that every operation keeps it.
use ampc_common.Base.{
  ℕ, ◌+◌, ◌≤◌, ◌≡◌, refl, arith, List, [], ◌∷◌, some, Bool-cases, inl, inr, true, false, ◌==◌,
  some_inj, subst, ◌∙◌,
}
use ampc_common.Base.Sets.{
  contains, count, keys, lookup, put, delete, count-remove, contains-count, count-contains-not,
  count-insert, keys-put, keys-put-other, keys-delete, insert,
}
use ampc_common.Jobs.{PendingJob, JobTracker, WorkerRsp, start, finish}

-- How often a worker is registered, pending or answered in a job.
abbrev pub members : ℕ → PendingJob → ℕ
members a j = count a j.registered + count a j.pending + count a (keys j.results)

-- Every worker is in at most one of the three states, once.
abbrev pub IsOnce : PendingJob → Type 0
IsOnce j = (a : ℕ) → members a j ≤ 1

-- A response is kept under the worker that it is from, and in the job that it is for.
abbrev pub AreKeyed : ℕ → List (ℕ × WorkerRsp) → Type 0
AreKeyed job_id [] = Unit {0}
AreKeyed job_id ((a, rsp) ∷ m) = (rsp.worker_id ≡ a) × (rsp.job_id ≡ job_id) × AreKeyed job_id m

abbrev pub IsValidJob : ℕ → PendingJob → Type 0
IsValidJob job_id j = IsOnce j × AreKeyed job_id j.results

-- Every job is valid, and no two have one identifier.
abbrev pub AreValid : List (ℕ × PendingJob) → Type 0
AreValid [] = Unit {0}
AreValid ((job_id, j) ∷ m) = IsValidJob job_id j × (count job_id (keys m) ≡ 0) × AreValid m

abbrev pub IsValid : JobTracker → Type 0
IsValid t = AreValid t.jobs

pub lookup-IsValidJob :
    (job_id : ℕ) (j : PendingJob) (m : List (ℕ × PendingJob))
    → AreValid m
    → lookup job_id m ≡ some j
    → IsValidJob job_id j
unfolding lookup
lookup-IsValidJob job_id j [] v h = absurd (cc)
lookup-IsValidJob job_id j ((i, k) ∷ m) v h = elim (Bool-cases (i == job_id)) [
  | inl e ↦
      let same : k ≡ j = some_inj k j (ground arith) in
      let key : i ≡ job_id = ground arith in
      subst (λ t. IsValidJob job_id t) same (subst (λ (t : ℕ). IsValidJob t k) key v.0)
  | inr e ↦ lookup-IsValidJob job_id j m v.2 (ground arith)
]

pub put-AreValid :
    (job_id : ℕ) (j : PendingJob) (m : List (ℕ × PendingJob))
    → IsValidJob job_id j
    → AreValid m
    → AreValid (put job_id j m)
unfolding put keys count
put-AreValid job_id j [] h v = (h, refl, tt)
put-AreValid job_id j ((i, k) ∷ m) h v = elim (Bool-cases (i == job_id)) [
  | inl e ↦
      let key : i ≡ job_id = ground arith in
      rw e (h, subst (λ (t : ℕ). count t (keys m) ≡ 0) key v.1, v.2)
  | inr e ↦
      rw e (v.0, keys-put-other job_id i j m (ground arith) ∙ v.1, put-AreValid job_id j m h v.2)
]

pub delete-AreValid :
    (job_id : ℕ) (m : List (ℕ × PendingJob)) → AreValid m → AreValid (delete job_id m)
unfolding delete
delete-AreValid job_id [] v = tt
delete-AreValid job_id ((i, k) ∷ m) v = elim (Bool-cases (i == job_id)) [
  | inl e ↦ rw e (delete-AreValid job_id m v.2)
  | inr e ↦ rw e (v.0, keys-delete job_id i m ∙ ground arith, delete-AreValid job_id m v.2)
]

pub put-AreKeyed :
    (job_id : ℕ) (rsp : WorkerRsp) (m : List (ℕ × WorkerRsp))
    → rsp.job_id ≡ job_id
    → AreKeyed job_id m
    → AreKeyed job_id (put rsp.worker_id rsp m)
unfolding put
put-AreKeyed job_id rsp [] h v = (refl, h, tt)
put-AreKeyed job_id rsp ((i, k) ∷ m) h v = elim (Bool-cases (i == rsp.worker_id)) [
  | inl e ↦ rw e (refl, h, v.2)
  | inr e ↦ rw e (v.0, v.1, put-AreKeyed job_id rsp m h v.2)
]

pub members-start :
    (a w : ℕ) (j : PendingJob)
    → IsOnce j
    → contains w j.registered ≡ true
    → members a (start j w) ≡ members a j
unfolding start count
members-start a w j once h =
    let one : 1 ≤ count w j.registered = contains-count w j.registered h in
    let fresh : contains w j.pending ≡ false =
      count-contains-not w j.pending (omega (arith, once w)) in
    let added : count a (insert w j.pending) ≡ count a (w ∷ j.pending) =
      rw fresh at (count-insert a w j.pending) in
    elim (Bool-cases (w == a)) [
      | inl e ↦
          let same : w ≡ a = ground arith in
          let alone : 1 ≤ count a j.registered =
            subst (λ (t : ℕ). 1 ≤ count t j.registered) same one in
          ground (arith, once a, count-remove a w j.registered)
      | inr e ↦ ground (arith, count-remove a w j.registered)
    ]

pub members-finish :
    (a : ℕ) (j : PendingJob) (rsp : WorkerRsp)
    → IsOnce j
    → contains rsp.worker_id j.pending ≡ true
    → members a (finish j rsp) ≡ members a j
unfolding finish count
members-finish a j rsp once h =
    let w : ℕ = rsp.worker_id in
    let one : 1 ≤ count w j.pending = contains-count w j.pending h in
    let fresh : count w (keys j.results) ≡ 0 = omega (arith, once w) in
    elim (Bool-cases (w == a)) [
      | inl e ↦
          let same : w ≡ a = ground arith in
          let alone : 1 ≤ count a j.pending = subst (λ (t : ℕ). 1 ≤ count t j.pending) same one in
          ground (arith, once a, count-remove a w j.pending, keys-put w a rsp j.results fresh)
      | inr e ↦ ground (arith, count-remove a w j.pending, keys-put w a rsp j.results fresh)
    ]
