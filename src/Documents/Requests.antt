-- ===== src/Documents/Requests.antt =====
-- backend/src/documents/service.rs: filing a request, and the gate of every download.
use Prim.Native.String.{len}
use text.Mathlib.Text.{◌==◌ as str_eq}
use ubedtech.Prelude.{
  ℕ, String, Bool, true, false, ◌&&◌, ◌||◌, not, Option, none, some, ◌∷◌, ltb, ◌==◌, if◌then◌else◌,
  find_where, exists_where, is_none,
}
use ubedtech.Shared.Actor.{Actor, Role, has_role, require_student_self}
use ubedtech.Shared.Error.{
  Result, ok, ◌>>=◌, ◌>>◌, guard, ok_or, AppError, not_found, validation, database, internal,
}
use ubedtech.Documents.State.{
  DocumentType, official_transcript, enrollment_letter, signed_document, RequestStatus,
  DocumentRequest, GeneratedDocument, DocumentsDb, DocEnv, RequestDocumentCommand,
  DocumentRequestReceipt, is_ready, has_request_id,
}

abbrev pub write_audit : Actor → String → String → ℕ → DocumentsDb → DocumentsDb
write_audit actor action resource_type resource_id db = record db {
  audit_event =
      record {
        institution_id = actor.institution_id;
        actor_user_id = actor.user_id;
        action = action;
        resource_type = resource_type;
        resource_id = resource_id;
      }
      ∷ db.audit_event;
}

-- The document type that a text names.
unfoldable pub document_type_of : String → Option DocumentType
document_type_of text =
    if str_eq text "official_transcript"
    then some official_transcript
    else if str_eq text "enrollment_letter"
    then some enrollment_letter
    else if str_eq text "signed_document"
    then some signed_document
    else none

unfoldable pub is_delivery_method : String → Bool
is_delivery_method text = str_eq text "download" || str_eq text "pickup" || str_eq text "email"

abbrev pub is_too_long : Option String → Bool
is_too_long none = false
is_too_long (some purpose) = ltb 500 (len purpose)

-- The type is part of the result, since the row keeps it.
unfoldable pub validate_request : RequestDocumentCommand → Result AppError DocumentType
validate_request command = do
  document_type ←
      ok_or (document_type_of command.document_type) (validation "unknown document type")
  guard (is_delivery_method command.delivery_method) (validation "unknown delivery method")
  guard (not (is_too_long command.purpose)) (validation "purpose is too long")
  ok document_type

-- `WHERE institution_id = $1 AND student_id = $2 AND idempotency_key = $3`
abbrev pub is_resubmission : ℕ → ℕ → ℕ → DocumentRequest → Bool
is_resubmission institution_id student_id key r =
    (r.institution_id == institution_id)
    && (r.student_id == student_id)
    && (r.idempotency_key == key)

abbrev pub request_receipt : Option DocumentRequest → Option DocumentRequestReceipt
request_receipt none = none
request_receipt (some r) = some (record { request_id = r.id; status = r.status })

unfoldable pub existing_request :
    Actor → ℕ → RequestDocumentCommand → DocumentsDb → Option DocumentRequestReceipt
existing_request actor student_id command db = request_receipt (
    find_where (is_resubmission actor.institution_id student_id command.idempotency_key)
      db.document_request)

abbrev pub is_enabled : Option Bool → Bool
is_enabled none = false
is_enabled (some enabled) = enabled

unfoldable pub new_request :
    DocEnv → Actor → ℕ → DocumentType → RequestDocumentCommand → DocumentRequest
new_request env actor student_id document_type command = record {
  id = env.request_id;
  institution_id = actor.institution_id;
  student_id = student_id;
  document_type = document_type;
  status = RequestStatus.pending;
  purpose = command.purpose;
  delivery_method = command.delivery_method;
  current_snapshot_id = none;
  idempotency_key = command.idempotency_key;
}

-- The insert violates a unique constraint: the primary key, or the one on the idempotency key.
unfoldable pub is_unique_violation : DocumentRequest → DocumentsDb → Bool
is_unique_violation r db =
    exists_where (has_request_id r.id) db.document_request
    || exists_where (is_resubmission r.institution_id r.student_id r.idempotency_key)
        db.document_request

abbrev pub filed : Actor → DocumentRequest → DocumentsDb → DocumentsDb
filed actor r db =
    write_audit actor "document.requested" "document_request" r.id
      (record db { document_request = r ∷ db.document_request })

-- From the insert to the commit. A key that a concurrent submission has taken gives its receipt.
unfoldable pub insert_request :
    Actor
    → RequestDocumentCommand
    → DocumentRequest
    → DocumentsDb
    → Result AppError (DocumentRequestReceipt × DocumentsDb)
insert_request actor command r db =
    if is_unique_violation r db
    then (ok_or (existing_request actor r.student_id command db) internal >>= λ receipt.
        ok (receipt, db))
    else (guard (not (is_none (db.student_profile r.student_id))) database
        >> ok (record { request_id = r.id; status = RequestStatus.pending }, filed actor r db))

-- The first lookup reads `before`; others may commit between it and the transaction's `db`.
unfoldable pub request_for_self :
    DocEnv
    → Actor
    → RequestDocumentCommand
    → DocumentsDb
    → DocumentsDb
    → Result AppError (DocumentRequestReceipt × DocumentsDb)
request_for_self env actor command before db = do
  student_id ← require_student_self actor
  document_type ← validate_request command
  elim (existing_request actor student_id command before) [
    | some receipt ↦ ok (receipt, db)
    | none ↦
        guard (is_enabled (db.institution_document_type actor.institution_id document_type))
          (validation "this document type is not available at your institution")
        >> insert_request actor command (new_request env actor student_id document_type command) db
  ]

pub record ArtifactRef : Type 0 where
  pub storage_path : String
  pub content_hash : ℕ
  pub mime_type : String

abbrev pub is_current : ℕ → GeneratedDocument → Bool
is_current request_id d = (d.request_id == request_id) && is_none d.superseded_at

abbrev pub owner_filter : Actor → Result AppError (Option ℕ)
owner_filter actor =
    if has_role actor Role.document_officer
    then ok none
    else (require_student_self actor >>= λ student_id. ok (some student_id))

abbrev pub owned_by : Option ℕ → DocumentRequest → Bool
owned_by none r = true
owned_by (some student_id) r = r.student_id == student_id

unfoldable pub is_downloadable : Actor → ℕ → Option ℕ → DocumentRequest → Bool
is_downloadable actor request_id owner r =
    has_request_id request_id r
    && (r.institution_id == actor.institution_id)
    && is_ready r
    && owned_by owner r

abbrev pub artifact_ref : GeneratedDocument → ArtifactRef
artifact_ref d = record {
  storage_path = d.storage_path;
  content_hash = d.content_hash;
  mime_type = d.mime_type;
}

unfoldable pub downloadable : Actor → ℕ → DocumentsDb → Result AppError ArtifactRef
downloadable actor request_id db = do
  owner ← owner_filter actor
  r ← ok_or (find_where (is_downloadable actor request_id owner) db.document_request) not_found
  d ← ok_or (find_where (is_current request_id) db.generated_document) not_found
  ok (artifact_ref d)
