-- ===== src/Documents/Examples.antt =====
-- One request from its filing to its download, and the theorems of the documents service at it.
use ubedtech.Prelude.{
  ℕ, ◌≤◌, ◌≡◌, ◌≢◌, ◌⊎◌, refl, true, false, none, some, [], ◌∷◌, arith, ◌==◌, if◌then◌else◌,
  find_where, count_where,
}
use ubedtech.Shared.Actor.{Actor, Role}
use ubedtech.Shared.Text.{is_blank, all_chars, trim, trim_start, trim_end, is_whitespace}
use ubedtech.Shared.Error.{Result, ok, AppError}
use ubedtech.Shared.Text.{split_words}
use ubedtech.Documents.Layout.{body, push_word, wrap_words, wrap_pdf_line}
use ubedtech.Documents.Layout.Wrapping.{Wraps, texts, wrap_pdf_line_lem}
use ubedtech.Documents.State.{
  DocumentType, RequestStatus, DocumentRequest, JobStatus, DocumentJob, GeneratedDocument,
  TranscriptSnapshot, DocumentsDb, DocEnv, RequestDocumentCommand, is_ready, is_queued,
}
use ubedtech.Documents.Requests.{
  ArtifactRef, artifact_ref, downloadable, is_downloadable, request_for_self, insert_request,
  is_unique_violation, new_request, existing_request, validate_request, document_type_of,
  is_delivery_method, is_current, filed,
}
use ubedtech.Documents.Review.{
  approve, reject, snapshot_for, create, new_snapshot, write_approval, new_job, needs_snapshot,
  max_version,
}
use ubedtech.Documents.Worker.{
  ClaimedJob, Artifact, claim_job, claimed, first_queued, is_claimable, set_request_status,
  finish_job, generate, snapshot_of, complete_job, insert_document, new_document,
}
use ubedtech.Documents.Logs.{byte_length, get_to, len_utf8, truncate_for_log, truncate_for_log_lem}
use ubedtech.Documents.Lifecycle.{IsSound, request_at, grants}
use ubedtech.Documents.Lifecycle.Runs.{Runs, here, requested, accepted, finished, Runs-IsSound}
use ubedtech.Documents.Lifecycle.Delivery.{
  may_download, downloadable-approved, downloadable-ready, signed_never_ready, attempts-le,
  approve-reject,
}

abbrev mira : Actor
mira = record { user_id = 7; institution_id = 1; student_id = some 42; roles = Role.student ∷ [] }

abbrev otto : Actor
otto = record {
  user_id = 8;
  institution_id = 1;
  student_id = none;
  roles = Role.document_officer ∷ [];
}

abbrev no_requests : DocumentsDb
no_requests = record {
  student_profile = λ s. if s == 42 then some 1 else none;
  institution_document_type = λ i t. some true;
  document_request = [];
  document_approval = [];
  document_job = [];
  transcript_snapshot = [];
  generated_document = [];
  audit_event = [];
}

no_requests-IsSound : IsSound no_requests
no_requests-IsSound = record {
  decided = λ id. omega arith;
  worked = λ id. refl;
  advanced = λ id. omega arith;
  delivered = λ id. omega arith;
  single = λ id. omega arith;
  renderable = λ id. refl;
  numbered = λ id. omega arith;
  keyed = λ id. omega arith;
  bounded = refl;
}

abbrev env : DocEnv
env = record {
  tx_now = 100;
  request_id = 500;
  approval_id = 600;
  job_id = 700;
  snapshot_id = 800;
  document_id = 900;
  locked = [];
}

abbrev transcript : RequestDocumentCommand
transcript = record {
  document_type = "official_transcript";
  purpose = none;
  delivery_method = "download";
  idempotency_key = 11;
}

abbrev row : DocumentType → DocumentRequest
row document_type = record {
  id = 500;
  institution_id = 1;
  student_id = 42;
  document_type = document_type;
  status = RequestStatus.pending;
  purpose = none;
  delivery_method = "download";
  current_snapshot_id = none;
  idempotency_key = 11;
}

abbrev filed_db : DocumentsDb
filed_db = filed mira (row DocumentType.official_transcript) no_requests

files :
    request_for_self env mira transcript no_requests no_requests
    ≡ ok (record { request_id = 500; status = RequestStatus.pending }, filed_db)
unfolding request_for_self insert_request is_unique_violation new_request existing_request
    validate_request document_type_of is_delivery_method
files = refl

abbrev approved_db : DocumentsDb
approved_db = write_approval env otto 500 "complete file" (some 800) (record filed_db {
  transcript_snapshot =
      record { id = 800; institution_id = 1; student_id = 42; snapshot_version = 1 } ∷ [];
})

approves : approve env otto 500 "complete file" filed_db ≡ ok approved_db
unfolding approve snapshot_for create new_snapshot max_version is_blank all_chars trim trim_start
    trim_end is_whitespace
approves = refl

abbrev first_claim : ClaimedJob
first_claim = record { job_id = 700; request_id = 500; current_snapshot_id = some 800 }

abbrev first_job : DocumentJob
first_job = new_job env 500

abbrev claimed_db : DocumentsDb
claimed_db = claimed env "worker-1" first_job approved_db

claims : claim_job env "worker-1" approved_db ≡ some (first_claim, claimed_db)
unfolding claim_job first_queued is_claimable write_approval new_job
claims = refl

abbrev print : ℕ → TranscriptSnapshot → Result AppError Artifact
print request_id snapshot = ok (record { bytes = 2000; hash = 77; path = "ab/cdef.pdf" })

abbrev ready_db : DocumentsDb
ready_db = finish_job print env first_claim claimed_db claimed_db

reaches_approved : Runs no_requests approved_db
reaches_approved =
    accepted env otto 500 "complete file"
      (requested env mira transcript no_requests
        (record { request_id = 500; status = RequestStatus.pending }, filed_db) here files)
      approves

reaches_ready : Runs no_requests ready_db
reaches_ready =
    finished print env env "worker-1" (first_claim, claimed_db) claimed_db reaches_approved claims
      here

Runs-IsSound_example : IsSound ready_db
Runs-IsSound_example = Runs-IsSound no_requests-IsSound reaches_ready

abbrev done : DocumentRequest
done = record (row DocumentType.official_transcript) {
  status = RequestStatus.ready;
  current_snapshot_id = some 800;
}

abbrev handed : ArtifactRef
handed = record { storage_path = "ab/cdef.pdf"; content_hash = 77; mime_type = "application/pdf" }

mira_downloads : downloadable mira 500 ready_db ≡ ok handed
unfolding downloadable is_downloadable finish_job generate snapshot_of complete_job insert_document
    new_document set_request_status claimed write_approval
mira_downloads = refl

downloadable-approved_example :
    (r : DocumentRequest) × (g : GeneratedDocument) × (request_at 500 ready_db ≡ some r)
    × (is_ready r ≡ true)
    × (r.institution_id ≡ 1)
    × (may_download mira r ≡ true)
    × (needs_snapshot r.document_type ≡ true)
    × (1 ≤ count_where (grants 500) ready_db.document_approval)
    × (find_where (is_current 500) ready_db.generated_document ≡ some g)
    × (handed ≡ artifact_ref g)
downloadable-approved_example =
    downloadable-approved mira 500 handed no_requests-IsSound reaches_ready mira_downloads

downloadable-ready_example :
    (g : GeneratedDocument) × (find_where (is_current 500) ready_db.generated_document ≡ some g)
    × (downloadable mira 500 ready_db ≡ ok (artifact_ref g))
unfolding finish_job generate snapshot_of complete_job insert_document new_document
    set_request_status claimed write_approval
downloadable-ready_example =
    downloadable-ready mira 500 done no_requests-IsSound reaches_ready refl refl refl refl

abbrev finished_job : DocumentJob
finished_job = record first_job {
  status = JobStatus.complete;
  attempts = 1;
  locked_at = some 100;
  locked_by = some "worker-1";
}

attempts-le_example :
    (finished_job.attempts ≤ 3) × (is_queued finished_job ≡ true → finished_job.attempts ≤ 2)
unfolding finish_job generate snapshot_of complete_job insert_document new_document
    set_request_status claimed write_approval new_job
attempts-le_example = attempts-le (λ j. true) finished_job no_requests-IsSound reaches_ready refl

approve-reject_example :
    (reject env otto 500 "changed my mind" approved_db ≢ ok filed_db)
    × (approve env otto 500 "changed my mind" approved_db ≢ ok filed_db)
approve-reject_example =
    approve-reject env env otto otto 500 "complete file" "changed my mind" filed_db approved_db
      approved_db filed_db no_requests-IsSound
      (requested env mira transcript no_requests
        (record { request_id = 500; status = RequestStatus.pending }, filed_db) here files)
      approves here

abbrev letter : RequestDocumentCommand
letter = record transcript { document_type = "signed_document" }

abbrev signed_db : DocumentsDb
signed_db = filed mira (row DocumentType.signed_document) no_requests

files_signed :
    request_for_self env mira letter no_requests no_requests
    ≡ ok (record { request_id = 500; status = RequestStatus.pending }, signed_db)
unfolding request_for_self insert_request is_unique_violation new_request existing_request
    validate_request document_type_of is_delivery_method
files_signed = refl

abbrev signed_approved : DocumentsDb
signed_approved = write_approval env otto 500 "sealed" none signed_db

approves_signed : approve env otto 500 "sealed" signed_db ≡ ok signed_approved
unfolding approve snapshot_for is_blank all_chars trim trim_start trim_end is_whitespace
approves_signed = refl

abbrev signed_row : DocumentRequest
signed_row = record (row DocumentType.signed_document) { status = RequestStatus.approved }

signed_never_ready_example : is_ready signed_row ≡ false
unfolding write_approval
signed_never_ready_example =
    signed_never_ready 500 signed_row no_requests-IsSound
      (accepted env otto 500 "sealed"
        (requested env mira letter no_requests
          (record { request_id = 500; status = RequestStatus.pending }, signed_db) here
          files_signed)
        approves_signed)
      refl refl

truncate_for_log_lem_example :
    ((byte_length (truncate_for_log "naïve" 3) ≡ 3)
      × (get_to "naïve" 3 ≡ some (truncate_for_log "naïve" 3)))
    ⊎ ((truncate_for_log "naïve" 3 ≡ "naïve") × (get_to "naïve" 3 ≡ none))
truncate_for_log_lem_example = truncate_for_log_lem "naïve" 3

naive_kept : truncate_for_log "naïve" 3 ≡ "naïve"
unfolding truncate_for_log get_to len_utf8
naive_kept = refl

wrap_pdf_line_lem_example :
    ((split_words "a bc d" ≡ []) × (wrap_pdf_line "a bc d" 4 ≡ body "" ∷ []))
    ⊎ Wraps 4 (split_words "a bc d") (texts (wrap_pdf_line "a bc d" 4))
wrap_pdf_line_lem_example = wrap_pdf_line_lem "a bc d" 4

two_lines : wrap_pdf_line "a bc d" 4 ≡ body "a bc" ∷ body "d" ∷ []
unfolding wrap_pdf_line wrap_words split_words is_whitespace push_word byte_length len_utf8
two_lines = refl
