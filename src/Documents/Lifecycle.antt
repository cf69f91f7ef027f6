-- ===== src/Documents/Lifecycle.antt =====
-- What holds of requests, decisions, jobs and artifacts together (backend/src/documents).
pub mod Writes
pub mod Service
pub mod Review
pub mod Queue
pub mod Jobs
pub mod Keeps
pub mod Runs
pub mod Delivery
use ubedtech.Prelude.{
  ℕ, ◌≤◌, ◌≡◌, Bool, true, false, ◌&&◌, ◌||◌, not, Option, none, some, List, leb, ltb, ◌==◌,
  find_where, count_where, is_none,
}
use ubedtech.Documents.State.{
  RequestStatus, Decision, DocumentRequest, DocumentApproval, DocumentJob, GeneratedDocument,
  DocumentsDb, is_pending, is_ready, is_queued, has_request_id, has_job_id,
}
use ubedtech.Documents.Requests.{is_current}
use ubedtech.Documents.Review.{needs_snapshot}
use ubedtech.Documents.Worker.{max_attempts, ClaimedJob}

abbrev pub decides : ℕ → DocumentApproval → Bool
decides request_id a = a.request_id == request_id

abbrev pub grants : ℕ → DocumentApproval → Bool
grants request_id a =
    (a.request_id == request_id)
    && (elim a.decision [ Decision.approved ↦ true | Decision.rejected ↦ false ])

abbrev pub is_job_of : ℕ → DocumentJob → Bool
is_job_of request_id j = j.request_id == request_id

abbrev pub request_at : ℕ → DocumentsDb → Option DocumentRequest
request_at id db = find_where (has_request_id id) db.document_request

-- The decisions that a request can have had: none while it is missing or pending.
abbrev pub decision_budget : Option DocumentRequest → ℕ
decision_budget none = 0
decision_budget (some r) = elim r.status [ RequestStatus.pending ↦ 0 | _ ↦ 1 ]

abbrev pub is_granted_status : RequestStatus → Bool
is_granted_status RequestStatus.pending = false
is_granted_status RequestStatus.rejected = false
is_granted_status _ = true

-- The approvals that the status of a request asks for.
abbrev pub approvals_due : Option DocumentRequest → ℕ
approvals_due none = 0
approvals_due (some r) = elim (is_granted_status r.status) [ true ↦ 1 | false ↦ 0 ]

-- The artifacts that the status of a request asks for.
abbrev pub artifacts_due : Option DocumentRequest → ℕ
artifacts_due none = 0
artifacts_due (some r) = elim (is_ready r) [ true ↦ 1 | false ↦ 0 ]

-- Without a snapshot there is nothing to render, and the request is never ready.
abbrev pub is_renderable : Option DocumentRequest → Bool
is_renderable none = true
is_renderable (some r) =
    needs_snapshot r.document_type || (is_none r.current_snapshot_id && not (is_ready r))

abbrev pub is_overspent : DocumentJob → Bool
is_overspent j = ltb max_attempts j.attempts || (is_queued j && leb max_attempts j.attempts)

pub record IsSound (db : DocumentsDb) : Type 0 where
  pub decided :
      (id : ℕ) → count_where (decides id) db.document_approval ≤ decision_budget (request_at id db)
  pub worked :
      (id : ℕ)
      → count_where (is_job_of id) db.document_job ≡ count_where (grants id) db.document_approval
  pub advanced :
      (id : ℕ) → approvals_due (request_at id db) ≤ count_where (grants id) db.document_approval
  pub delivered :
      (id : ℕ)
      → artifacts_due (request_at id db) ≤ count_where (is_current id) db.generated_document
  pub single : (id : ℕ) → count_where (is_current id) db.generated_document ≤ 1
  pub renderable : (id : ℕ) → is_renderable (request_at id db) ≡ true
  pub numbered : (id : ℕ) → count_where (has_job_id id) db.document_job ≤ 1
  pub keyed : (id : ℕ) → count_where (has_request_id id) db.document_request ≤ 1
  pub bounded : count_where is_overspent db.document_job ≡ 0

-- The claim of a worker, however old: its request was approved, and carries what it was claimed with.
abbrev pub claim_fits : ClaimedJob → Option DocumentRequest → Bool
claim_fits job none = false
claim_fits job (some r) = needs_snapshot r.document_type || is_none job.current_snapshot_id

pub record Holds (db : DocumentsDb) (job : ClaimedJob) : Type 0 where
  pub granted : 1 ≤ count_where (grants job.request_id) db.document_approval
  pub fits : claim_fits job (request_at job.request_id db) ≡ true
