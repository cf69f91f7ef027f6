-- ===== src/Documents/State.antt =====
-- The tables of the documents service (backend/migrations/0005_documents.sql, 0015, 0016). The content
-- of a snapshot and of a file is left out: only the identity of a snapshot decides anything.
use ubedtech.Prelude.{ℕ, String, Bool, true, false, Option, List, ◌==◌}
use ubedtech.Shared.Audit.{AuditEvent}

pub data DocumentType : Type 0 where
  official_transcript : DocumentType
  enrollment_letter : DocumentType
  signed_document : DocumentType

pub data RequestStatus : Type 0 where
  pending : RequestStatus
  approved : RequestStatus
  rejected : RequestStatus
  generating : RequestStatus
  ready : RequestStatus
  failed : RequestStatus

pub data JobStatus : Type 0 where
  queued : JobStatus
  running : JobStatus
  complete : JobStatus
  failed : JobStatus

pub data Decision : Type 0 where
  approved : Decision
  rejected : Decision

pub record DocumentRequest : Type 0 where
  pub id : ℕ
  pub institution_id : ℕ
  pub student_id : ℕ
  pub document_type : DocumentType
  pub status : RequestStatus
  pub purpose : Option String
  pub delivery_method : String
  pub current_snapshot_id : Option ℕ
  pub idempotency_key : ℕ

pub record DocumentApproval : Type 0 where
  pub id : ℕ
  pub request_id : ℕ
  pub decision : Decision
  pub decided_by_user_id : ℕ
  pub note : String

pub record DocumentJob : Type 0 where
  pub id : ℕ
  pub request_id : ℕ
  pub status : JobStatus
  pub attempts : ℕ
  pub available_at : ℕ
  pub locked_at : Option ℕ
  pub locked_by : Option String
  pub created_at : ℕ

pub record TranscriptSnapshot : Type 0 where
  pub id : ℕ
  pub institution_id : ℕ
  pub student_id : ℕ
  pub snapshot_version : ℕ

pub record GeneratedDocument : Type 0 where
  pub id : ℕ
  pub request_id : ℕ
  pub snapshot_id : Option ℕ
  pub content_hash : ℕ
  pub storage_path : String
  pub mime_type : String
  pub size_bytes : ℕ
  pub superseded_at : Option ℕ

-- `student_profile` gives a student's institution.
pub record DocumentsDb : Type 0 where
  pub student_profile : ℕ → Option ℕ
  pub institution_document_type : ℕ → DocumentType → Option Bool
  pub document_request : List DocumentRequest
  pub document_approval : List DocumentApproval
  pub document_job : List DocumentJob
  pub transcript_snapshot : List TranscriptSnapshot
  pub generated_document : List GeneratedDocument
  pub audit_event : List AuditEvent

-- The clock and the fresh ids of a transaction; `locked` are the jobs that others have locked.
pub record DocEnv : Type 0 where
  pub tx_now : ℕ
  pub request_id : ℕ
  pub approval_id : ℕ
  pub job_id : ℕ
  pub snapshot_id : ℕ
  pub document_id : ℕ
  pub locked : List ℕ

pub record RequestDocumentCommand : Type 0 where
  pub document_type : String
  pub purpose : Option String
  pub delivery_method : String
  pub idempotency_key : ℕ

pub record DocumentRequestReceipt : Type 0 where
  pub request_id : ℕ
  pub status : RequestStatus

abbrev pub is_pending : DocumentRequest → Bool
is_pending r = elim r.status [ RequestStatus.pending ↦ true | _ ↦ false ]

abbrev pub is_ready : DocumentRequest → Bool
is_ready r = elim r.status [ RequestStatus.ready ↦ true | _ ↦ false ]

abbrev pub is_queued : DocumentJob → Bool
is_queued j = elim j.status [ JobStatus.queued ↦ true | _ ↦ false ]

abbrev pub is_running : DocumentJob → Bool
is_running j = elim j.status [ JobStatus.running ↦ true | _ ↦ false ]

abbrev pub has_request_id : ℕ → DocumentRequest → Bool
has_request_id id r = r.id == id

abbrev pub has_job_id : ℕ → DocumentJob → Bool
has_job_id id j = j.id == id
