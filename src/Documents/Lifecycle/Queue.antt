-- ===== src/Documents/Lifecycle/Queue.antt =====
-- The queue of jobs (backend/src/documents/worker.rs): which job is claimed, and how its attempts are
-- spent.
use ubedtech.Prelude.{
  ℕ, String, ◌≤◌, ◌<◌, ◌≡◌, Bool, true, some, List, [], ◌∷◌, arith, ltb, find_where, count_where,
  select_where, update_where, Option-cases, Bool-cases, inl, inr,
}
use ubedtech.Prelude.Counts.{count-find, count-update, count_unique, count-update_zero}
use ubedtech.Documents.State.{JobStatus, DocumentApproval, DocumentJob, DocEnv, has_job_id}
use ubedtech.Documents.Worker.{
  is_stale, set_reaped, set_failed, set_running, set_job_status, is_claimable, first_queued,
}
use ubedtech.Documents.Lifecycle.{grants, is_job_of, is_overspent}

-- A row of the table that has the id and comes first has no twin.
queued_later :
    (env : DocEnv) (x : DocumentJob) (xs : List DocumentJob) (j : DocumentJob)
    → count_where (has_job_id j.id) (x ∷ xs) ≤ 1
    → (first_queued env xs ≡ some j
        → count_where (has_job_id j.id) xs ≤ 1
        → (is_claimable env j ≡ true) × (find_where (has_job_id j.id) xs ≡ some j))
    → first_queued env xs ≡ some j
    → (is_claimable env j ≡ true) × (find_where (has_job_id j.id) (x ∷ xs) ≡ some j)
queued_later env x xs j k rec e =
    let (can, found) = rec e (ground arith) in
    let one = count-find (has_job_id j.id) xs found in (can, ground arith)

-- The job that is claimed can be claimed, and no other row has its id.
pub first_queued_found :
    (env : DocEnv) (jobs : List DocumentJob) (j : DocumentJob)
    → first_queued env jobs ≡ some j
    → count_where (has_job_id j.id) jobs ≤ 1
    → (is_claimable env j ≡ true) × (find_where (has_job_id j.id) jobs ≡ some j)
unfolding first_queued
first_queued_found env [] j h k = absurd (cc)
first_queued_found env (x ∷ xs) j h k = elim (Bool-cases (is_claimable env x)) [
  | inr not_x ↦ queued_later env x xs j k (first_queued_found env xs j) (ground arith)
  | inl can ↦ elim (Option-cases (first_queued env xs)) [
    | inl nothing ↦ (ground arith, ground arith)
    | inr (b, e) ↦ elim (Bool-cases (ltb b.created_at x.created_at)) [
      | inl older ↦ queued_later env x xs j k (first_queued_found env xs j) (ground arith)
      | inr newer ↦ (ground arith, ground arith)
    ]
  ]
]

-- A row that meets any predicate that the claimed job meets is counted.
pub first_queued-count :
    (env : DocEnv) (jobs : List DocumentJob) (j : DocumentJob)
    → first_queued env jobs ≡ some j
    → (p : DocumentJob → Bool) → p j ≡ true
    → 0 < count_where p jobs
unfolding first_queued
first_queued-count env [] j h p t = absurd (cc)
first_queued-count env (x ∷ xs) j h p t = elim (Bool-cases (is_claimable env x)) [
  | inr not_x ↦ ground (arith, first_queued-count env xs j (ground arith) p t)
  | inl can ↦ elim (Option-cases (first_queued env xs)) [
    | inl nothing ↦ ground arith
    | inr (b, e) ↦ elim (Bool-cases (ltb b.created_at x.created_at)) [
      | inl older ↦ ground (arith, first_queued-count env xs j (ground arith) p t)
      | inr newer ↦ ground arith
    ]
  ]
]

pub set_running-is_overspent :
    (env : DocEnv) (worker_id : String) (jobs : List DocumentJob) (j : DocumentJob)
    → first_queued env jobs ≡ some j
    → count_where (has_job_id j.id) jobs ≤ 1
    → count_where is_overspent jobs ≡ 0
    → count_where is_overspent
        (update_where (has_job_id j.id) (set_running env.tx_now worker_id) jobs)
      ≡ 0
unfolding is_claimable
set_running-is_overspent env worker_id jobs j h k z =
    let (can, found) = first_queued_found env jobs j h k in
    let f = set_running env.tx_now worker_id in
    let moved = count-update is_overspent (has_job_id j.id) f jobs in
    let was = count_unique is_overspent (has_job_id j.id) jobs found k in
    let becomes = count_unique (λ x. is_overspent (f x)) (has_job_id j.id) jobs found k in
    elim (Bool-cases (is_overspent j)) [
      | inl spent ↦ absurd (ground (arith, first_queued-count env jobs j h is_overspent spent))
      | inr left ↦ ground arith
    ]

pub set_reaped-is_overspent :
    (tx_now stale : ℕ) (jobs : List DocumentJob)
    → count_where is_overspent jobs ≡ 0
    → count_where is_overspent (update_where (is_stale tx_now stale) (set_reaped tx_now) jobs) ≡ 0
set_reaped-is_overspent tx_now stale jobs =
    count-update_zero is_overspent (is_stale tx_now stale) (set_reaped tx_now) jobs
      (λ j h. ground arith)

pub set_failed-is_overspent :
    (job_id tx_now : ℕ) (jobs : List DocumentJob)
    → count_where is_overspent jobs ≡ 0
    → count_where is_overspent (update_where (has_job_id job_id) (set_failed tx_now) jobs) ≡ 0
set_failed-is_overspent job_id tx_now jobs =
    count-update_zero is_overspent (has_job_id job_id) (set_failed tx_now) jobs
      (λ j h. ground arith)

pub set_complete-is_overspent :
    (job_id : ℕ) (jobs : List DocumentJob)
    → count_where is_overspent jobs ≡ 0
    → count_where is_overspent
        (update_where (has_job_id job_id) (set_job_status JobStatus.complete) jobs)
      ≡ 0
set_complete-is_overspent job_id jobs =
    count-update_zero is_overspent (has_job_id job_id) (set_job_status JobStatus.complete) jobs
      (λ j h. ground arith)

-- Every request of these jobs has been approved.
abbrev pub AllGranted : List DocumentApproval → List DocumentJob → Type 0
AllGranted approvals [] = Unit
AllGranted approvals (j ∷ js) =
    (1 ≤ count_where (grants j.request_id) approvals) × AllGranted approvals js

pub select-AllGranted :
    (approvals : List DocumentApproval) (p : DocumentJob → Bool) (jobs : List DocumentJob)
    → ((id : ℕ) → count_where (is_job_of id) jobs ≤ count_where (grants id) approvals)
    → AllGranted approvals (select_where p jobs)
select-AllGranted approvals p [] h = tt
select-AllGranted approvals p (j ∷ js) h =
    let later = select-AllGranted approvals p js (λ id. ground (arith, h id)) in
    let own : 1 ≤ count_where (grants j.request_id) approvals = ground (arith, h j.request_id) in
    elim (Bool-cases (p j)) [ inl hit ↦ rw hit (own, later) | inr miss ↦ rw miss later ]
