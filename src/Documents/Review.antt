-- ===== src/Documents/Review.antt =====
-- backend/src/documents/service.rs: approving and rejecting, and backend/src/records/transcript.rs:
-- the snapshot that an approval takes.
use ubedtech.Prelude.{
  ℕ, String, ◌+◌, Bool, true, false, ◌&&◌, not, Option, none, some, List, [], ◌∷◌, ltb, ◌==◌,
  if◌then◌else◌, find_where, exists_where, update_where, is_some_eq,
}
use ubedtech.Shared.Actor.{Actor, Role, require_role}
use ubedtech.Shared.Text.{is_blank, trim}
use ubedtech.Shared.Error.{
  Result, ok, ◌>>=◌, ◌>>◌, guard, ok_or, AppError, not_found, validation, database,
}
use ubedtech.Documents.State.{
  DocumentType, official_transcript, enrollment_letter, signed_document, RequestStatus, JobStatus,
  Decision, DocumentRequest, DocumentApproval, DocumentJob, TranscriptSnapshot, DocumentsDb, DocEnv,
  is_pending, has_request_id, has_job_id,
}
use ubedtech.Documents.Requests.{write_audit}

abbrev pub is_snapshot_of : ℕ → ℕ → TranscriptSnapshot → Bool
is_snapshot_of institution_id student_id s =
    (s.institution_id == institution_id) && (s.student_id == student_id)

-- `COALESCE(max(snapshot_version), 0)` of the rows that pass.
unfoldable pub max_version : (TranscriptSnapshot → Bool) → List TranscriptSnapshot → ℕ
max_version p [] = 0
max_version p (s ∷ ss) =
    let rest = max_version p ss in
    if p s && ltb rest s.snapshot_version then s.snapshot_version else rest

abbrev pub has_snapshot_id : ℕ → TranscriptSnapshot → Bool
has_snapshot_id id s = s.id == id

unfoldable pub new_snapshot : DocEnv → ℕ → ℕ → DocumentsDb → TranscriptSnapshot
unfolding max_version
new_snapshot env institution_id student_id db = record {
  id = env.snapshot_id;
  institution_id = institution_id;
  student_id = student_id;
  snapshot_version =
      max_version (is_snapshot_of institution_id student_id) db.transcript_snapshot + 1;
}

abbrev pub add_snapshot : TranscriptSnapshot → DocumentsDb → DocumentsDb
add_snapshot s db = record db { transcript_snapshot = s ∷ db.transcript_snapshot }

-- `TranscriptSnapshotService::create`
unfoldable pub create : DocEnv → ℕ → ℕ → DocumentsDb → Result AppError (ℕ × DocumentsDb)
unfolding new_snapshot
create env institution_id student_id db = do
  guard (is_some_eq (db.student_profile student_id) institution_id) not_found
  guard (not (exists_where (has_snapshot_id env.snapshot_id) db.transcript_snapshot)) database
  ok (env.snapshot_id, add_snapshot (new_snapshot env institution_id student_id db) db)

-- `TranscriptSnapshotService::generate`
unfoldable pub generate_snapshot :
    DocEnv → Actor → ℕ → DocumentsDb → Result AppError (ℕ × DocumentsDb)
unfolding create
generate_snapshot env actor student_id db = do
  require_role actor Role.records_officer
  made ← create env actor.institution_id student_id db
  ok (made.0, write_audit actor "records.snapshot_created" "transcript_snapshot" made.0 made.1)

abbrev pub needs_snapshot : DocumentType → Bool
needs_snapshot official_transcript = true
needs_snapshot enrollment_letter = true
needs_snapshot signed_document = false

-- The `match request.document_type` of `approve`.
unfoldable pub snapshot_for :
    DocEnv → Actor → DocumentRequest → DocumentsDb → Result AppError (Option ℕ × DocumentsDb)
snapshot_for env actor r db =
    if needs_snapshot r.document_type
    then (create env actor.institution_id r.student_id db >>= λ made. ok (some made.0, made.1))
    else ok (none, db)

abbrev pub has_approval_id : ℕ → DocumentApproval → Bool
has_approval_id id a = a.id == id

unfoldable pub new_approval : DocEnv → Actor → ℕ → Decision → String → DocumentApproval
new_approval env actor request_id decision note = record {
  id = env.approval_id;
  request_id = request_id;
  decision = decision;
  decided_by_user_id = actor.user_id;
  note = note;
}

abbrev pub set_approved : Option ℕ → DocumentRequest → DocumentRequest
set_approved snapshot_id r = record r {
  status = RequestStatus.approved;
  current_snapshot_id = snapshot_id;
}

abbrev pub moved_to : RequestStatus → DocumentRequest → DocumentRequest
moved_to status r = record r { status = status }

-- `attempts`, `available_at` and `created_at` have their defaults.
unfoldable pub new_job : DocEnv → ℕ → DocumentJob
new_job env request_id = record {
  id = env.job_id;
  request_id = request_id;
  status = JobStatus.queued;
  attempts = 0;
  available_at = env.tx_now;
  locked_at = none;
  locked_by = none;
  created_at = env.tx_now;
}

-- The writes of an approval: the decision, the request and its job.
unfoldable pub write_approval : DocEnv → Actor → ℕ → String → Option ℕ → DocumentsDb → DocumentsDb
unfolding new_approval new_job
write_approval env actor request_id note snapshot_id db =
    write_audit actor "document.approved" "document_request" request_id (record db {
      document_approval =
          new_approval env actor request_id Decision.approved note ∷ db.document_approval;
      document_request =
          update_where (has_request_id request_id) (set_approved snapshot_id) db.document_request;
      document_job = new_job env request_id ∷ db.document_job;
    })

-- `WHERE id = $1 AND institution_id = $2 AND status = 'pending'`
abbrev pub is_reviewable : Actor → ℕ → DocumentRequest → Bool
is_reviewable actor request_id r =
    has_request_id request_id r && (r.institution_id == actor.institution_id) && is_pending r

unfoldable pub approve : DocEnv → Actor → ℕ → String → DocumentsDb → Result AppError DocumentsDb
approve env actor request_id note db = do
  require_role actor Role.document_officer
  guard (not (is_blank note)) (validation "an approval reason is required")
  r ← ok_or (find_where (is_reviewable actor request_id) db.document_request) not_found
  taken ← snapshot_for env actor r db
  guard (not (exists_where (has_approval_id env.approval_id) db.document_approval)) database
  guard (not (exists_where (has_job_id env.job_id) db.document_job)) database
  ok (write_approval env actor request_id (trim note) taken.0 taken.1)

unfoldable pub write_rejection : DocEnv → Actor → ℕ → String → DocumentsDb → DocumentsDb
unfolding new_approval
write_rejection env actor request_id note db =
    write_audit actor "document.rejected" "document_request" request_id (record db {
      document_approval =
          new_approval env actor request_id Decision.rejected note ∷ db.document_approval;
      document_request =
          update_where (is_reviewable actor request_id) (moved_to RequestStatus.rejected)
            db.document_request;
    })

-- At most one row is updated, since the id is a primary key: `rows_affected` is 1 if there is one.
unfoldable pub reject : DocEnv → Actor → ℕ → String → DocumentsDb → Result AppError DocumentsDb
unfolding write_rejection
reject env actor request_id note db = do
  require_role actor Role.document_officer
  guard (not (is_blank note)) (validation "a rejection reason is required")
  guard (exists_where (is_reviewable actor request_id) db.document_request) not_found
  guard (not (exists_where (has_approval_id env.approval_id) db.document_approval)) database
  ok (write_rejection env actor request_id note db)
