-- ===== src/Institution/Configuration.antt =====
-- What the configuration of document types (backend/src/institution/service.rs) does to requests
-- (backend/src/documents/service.rs).
use Prim.Native.String.{String}
use ubedtech.Prelude.{ℕ, ◌≡◌, Bool, true, none, some, arith, if◌then◌else◌, Option-cases, inl, inr}
use ubedtech.Shared.Actor.{Actor, require_student_self}
use ubedtech.Shared.Error.{ok, err, validation}
use ubedtech.Documents.State.{DocumentType, DocumentsDb, DocEnv, RequestDocumentCommand}
use ubedtech.Documents.Requests.{
  document_type_of, validate_request, existing_request, request_for_self, insert_request,
  new_request, is_enabled,
}
use ubedtech.Institution.{InstitutionDb, document_type_eq, set_enabled, set_document_type_enabled}

document_type_eq_refl : (t : DocumentType) → document_type_eq t t ≡ true
document_type_eq_refl t = ground arith

validate_request_type :
    (command : RequestDocumentCommand) (t : DocumentType)
    → validate_request command ≡ ok t
    → document_type_of command.document_type ≡ some t
unfolding validate_request
validate_request_type command t h = elim (Option-cases (document_type_of command.document_type)) [
  | inl unknown ↦ absurd (ground arith)
  | inr (k, known) ↦ ground arith
]

-- Where an administrator has set whether a type of document can be requested, a new request of that
-- type at the institution meets exactly that setting: it goes on to its insert where the type is
-- enabled, and is refused as unavailable where it is not.
pub set_document_type_enabled-request_for_self :
    (admin student : Actor) (env : DocEnv) (document_type : String) (enabled : Bool)
    (command : RequestDocumentCommand) (x y : InstitutionDb) (before : DocumentsDb)
    (t : DocumentType) (student_id : ℕ)
    → set_document_type_enabled admin document_type enabled x ≡ ok y
    → student.institution_id ≡ admin.institution_id
    → require_student_self student ≡ ok student_id
    → validate_request command ≡ ok t
    → command.document_type ≡ document_type
    → existing_request student student_id command before ≡ none
    → request_for_self env student command before y.documents ≡ (
        if enabled
        then insert_request student command
            (new_request env student student_id t command)
            y.documents
        else err (validation "this document type is not available at your institution"))
unfolding set_document_type_enabled request_for_self set_enabled
set_document_type_enabled-request_for_self admin student env document_type enabled command x y
      before t student_id h same self valid of_type new =
    elim (Option-cases (document_type_of document_type)) [
      | inl unknown ↦ absurd (ground arith)
      | inr (k, known) ↦
          let asked = validate_request_type command t valid in
          let one : some k ≡ some t = ground arith in
          let setting : is_enabled (y.documents.institution_document_type student.institution_id t)
              ≡ enabled =
            ground (arith, document_type_eq_refl t) in
          ground arith
    ]
