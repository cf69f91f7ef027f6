-- ===== src/Institution/Examples.antt =====
-- An institution that stops to issue letters, and the theorem on its configuration.
use ubedtech.Prelude.{◌≡◌, refl, true, false, none, some, [], ◌∷◌, ◌==◌, if◌then◌else◌}
use ubedtech.Shared.Actor.{Actor, Role}
use ubedtech.Shared.Text.{trim, trim_start, trim_end, is_whitespace, is_blank, all_chars}
use ubedtech.Shared.Error.{ok, err, validation, conflict}
use ubedtech.Documents.State.{DocumentType, DocumentsDb, DocEnv, RequestDocumentCommand}
use ubedtech.Documents.Requests.{
  document_type_of, is_delivery_method, validate_request, existing_request, request_for_self,
}
use ubedtech.Institution.{
  InstitutionDb, EventCommand, EventType, write_audit, set_enabled, set_document_type_enabled,
  create_event,
}
use ubedtech.Institution.Configuration.{set_document_type_enabled-request_for_self}

abbrev admin : Actor
admin = record {
  user_id = 9;
  institution_id = 1;
  student_id = none;
  roles = Role.institution_admin ∷ [];
}

abbrev mira : Actor
mira = record { user_id = 7; institution_id = 1; student_id = some 42; roles = Role.student ∷ [] }

abbrev documents : DocumentsDb
documents = record {
  student_profile = λ s. if s == 42 then some 1 else none;
  institution_document_type = λ i t. some true;
  document_request = [];
  document_approval = [];
  document_job = [];
  transcript_snapshot = [];
  generated_document = [];
  audit_event = [];
}

abbrev start : InstitutionDb
start = record { documents = documents; institution = λ i. none; institution_event = [] }

abbrev without_letters : InstitutionDb
without_letters =
    write_audit admin "institution.document_type_configured" "institution" 1 (record start {
      documents = record documents {
        institution_document_type =
            set_enabled 1 DocumentType.enrollment_letter false documents.institution_document_type;
      };
    })

disables : set_document_type_enabled admin "enrollment_letter" false start ≡ ok without_letters
unfolding set_document_type_enabled document_type_of
disables = refl

abbrev letter : RequestDocumentCommand
letter = record {
  document_type = "enrollment_letter";
  purpose = none;
  delivery_method = "download";
  idempotency_key = 5;
}

abbrev env : DocEnv
env = record {
  tx_now = 100;
  request_id = 500;
  approval_id = 600;
  job_id = 700;
  snapshot_id = 800;
  document_id = 900;
  locked = [];
}

set_document_type_enabled-request_for_self_example :
    request_for_self env mira letter documents without_letters.documents
    ≡ err (validation "this document type is not available at your institution")
unfolding validate_request document_type_of is_delivery_method existing_request
set_document_type_enabled-request_for_self_example =
    set_document_type_enabled-request_for_self admin mira env "enrollment_letter" false letter start
      without_letters documents DocumentType.enrollment_letter 42 disables refl refl refl refl refl

-- The title of an event is trimmed, so that one with spaces around it is the same event.
abbrev fair : EventCommand
fair = record { title = " Fair "; event_type = "event"; starts_on = 10; ends_on = 11 }

abbrev with_fair : InstitutionDb
with_fair = write_audit admin "institution.event_created" "institution_event" 70 (record start {
  institution_event =
      record {
        id = 70;
        institution_id = 1;
        title = "Fair";
        event_type = EventType.event;
        starts_on = 10;
        ends_on = 11;
        created_by_user_id = 9;
      }
      ∷ [];
})

holds_fair : create_event 70 admin fair start ≡ ok (70, with_fair)
unfolding create_event trim trim_start trim_end is_whitespace is_blank all_chars
holds_fair = refl

refuses_second_fair :
    create_event 71 admin fair with_fair
    ≡ err (conflict "an event with this title and start date already exists")
unfolding create_event trim trim_start trim_end is_whitespace is_blank all_chars
refuses_second_fair = refl
