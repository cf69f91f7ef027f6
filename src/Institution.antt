-- ===== src/Institution.antt =====
-- backend/src/institution/service.rs: events, settings and the types of document that can be requested.
-- The table of the types is that of the documents service; the catalogue of timezones is PostgreSQL's.
pub mod Configuration
mod Examples
use Prim.Native.String.{String, len}
use text.Mathlib.Text.{◌==◌ as str_eq}
use ubedtech.Prelude.{
  ℕ, ◌+◌, Bool, true, false, ◌&&◌, ◌||◌, not, Option, none, some, List, [], ◌∷◌, ltb, leb, ◌==◌,
  if◌then◌else◌, is_none, exists_where, find_where, select_where, upsert,
}
use ubedtech.Shared.Actor.{Actor, Role, has_role}
use ubedtech.Shared.Text.{trim}
use ubedtech.Shared.Error.{
  Result, ok, err, ◌>>=◌, ◌>>◌, guard, ok_or, AppError, forbidden, not_found, validation, conflict,
  integrity,
}
use ubedtech.Documents.State.{DocumentType, DocumentsDb}
use ubedtech.Documents.Requests.{document_type_of}

pub data EventType : Type 0 where
  holiday : EventType
  event : EventType

pub record InstitutionEvent : Type 0 where
  pub id : ℕ
  pub institution_id : ℕ
  pub title : String
  pub event_type : EventType
  pub starts_on : ℕ
  pub ends_on : ℕ
  pub created_by_user_id : ℕ

pub record InstitutionSettings : Type 0 where
  pub name : String
  pub timezone : String

pub record InstitutionDb : Type 0 where
  pub documents : DocumentsDb
  pub institution : ℕ → Option InstitutionSettings
  pub institution_event : List InstitutionEvent

pub record EventCommand : Type 0 where
  pub title : String
  pub event_type : String
  pub starts_on : ℕ
  pub ends_on : ℕ

abbrev pub require_institution_admin : Actor → Result AppError (Unit {0})
require_institution_admin actor =
    if has_role actor Role.institution_admin then ok tt else err forbidden

abbrev pub write_audit : Actor → String → String → ℕ → InstitutionDb → InstitutionDb
write_audit actor action resource_type resource_id db = record db {
  documents = record db.documents {
    audit_event =
        record {
          institution_id = actor.institution_id;
          actor_user_id = actor.user_id;
          action = action;
          resource_type = resource_type;
          resource_id = resource_id;
        }
        ∷ db.documents.audit_event;
  };
}

abbrev pub event_type_of : String → Option EventType
event_type_of text =
    if str_eq text "holiday"
    then some EventType.holiday
    else if str_eq text "event"
    then some EventType.event
    else none

-- A text that has been trimmed, with its bounds.
abbrev pub bounded_text : String → String → String → Result AppError String
bounded_text trimmed missing too_long =
    if str_eq trimmed ""
    then err (validation missing)
    else if ltb 200 (len trimmed)
    then err (validation too_long)
    else ok trimmed

-- `UNIQUE (institution_id, title, starts_on)`, and the primary key.
abbrev pub clashes_event : ℕ → ℕ → String → ℕ → InstitutionEvent → Bool
clashes_event id institution_id title starts_on e =
    (e.id == id)
    || ((e.institution_id == institution_id) && str_eq e.title title && (e.starts_on == starts_on))

unfoldable pub create_event :
    ℕ → Actor → EventCommand → InstitutionDb → Result AppError (ℕ × InstitutionDb)
unfolding trim
create_event new_id actor command db = do
  require_institution_admin actor
  title ← bounded_text (trim command.title) "a title is required" "title is too long"
  event_type ← ok_or (event_type_of command.event_type) (validation "unknown event type")
  guard (leb command.starts_on command.ends_on)
      (validation "the event may not end before it starts")
  guard
      (not (
        exists_where (clashes_event new_id actor.institution_id title command.starts_on)
          db.institution_event))
      (conflict "an event with this title and start date already exists")
  ok (
    new_id,
    write_audit actor "institution.event_created" "institution_event" new_id (record db {
      institution_event =
          record {
            id = new_id;
            institution_id = actor.institution_id;
            title = title;
            event_type = event_type;
            starts_on = command.starts_on;
            ends_on = command.ends_on;
            created_by_user_id = actor.user_id;
          }
          ∷ db.institution_event;
    }),
  )

-- `WHERE id = $1 AND institution_id = $2`
abbrev pub is_event_of : ℕ → ℕ → InstitutionEvent → Bool
is_event_of institution_id event_id e = (e.id == event_id) && (e.institution_id == institution_id)

unfoldable pub delete_event : Actor → ℕ → InstitutionDb → Result AppError InstitutionDb
delete_event actor event_id db = do
  require_institution_admin actor
  guard (exists_where (is_event_of actor.institution_id event_id) db.institution_event) not_found
  ok (
      write_audit actor "institution.event_deleted" "institution_event" event_id (record db {
        institution_event =
            select_where (λ e. not (is_event_of actor.institution_id event_id e))
              db.institution_event;
      }))

-- The institution's row is updated where there is one.
abbrev pub set_settings :
    ℕ → InstitutionSettings → (ℕ → Option InstitutionSettings) → ℕ → Option InstitutionSettings
set_settings id settings rows = elim (rows id) [ none ↦ rows | some old ↦ upsert id settings rows ]

unfoldable pub update_settings :
    (String → Bool) → Actor → String → String → InstitutionDb → Result AppError InstitutionDb
unfolding trim
update_settings pg_timezone_names actor name timezone db = do
  require_institution_admin actor
  trimmed ← bounded_text (trim name) "a name is required" "name is too long"
  guard (pg_timezone_names (trim timezone)) (validation "unknown timezone")
  ok (
      write_audit actor "institution.settings_updated" "institution" actor.institution_id
        (record db {
          institution =
              set_settings actor.institution_id
                (record { name = trimmed; timezone = trim timezone }) db.institution;
        }))

abbrev pub document_type_eq : DocumentType → DocumentType → Bool
document_type_eq DocumentType.official_transcript DocumentType.official_transcript = true
document_type_eq DocumentType.enrollment_letter DocumentType.enrollment_letter = true
document_type_eq DocumentType.signed_document DocumentType.signed_document = true
document_type_eq _ _ = false

-- `SET enabled = $3 WHERE institution_id = $1 AND document_type = $2`, on a row that is there.
unfoldable pub set_enabled :
    ℕ → DocumentType → Bool → (ℕ → DocumentType → Option Bool) → ℕ → DocumentType → Option Bool
set_enabled institution_id document_type enabled rows i t =
    if (i == institution_id) && document_type_eq t document_type then some enabled else rows i t

unfoldable pub set_document_type_enabled :
    Actor → String → Bool → InstitutionDb → Result AppError InstitutionDb
unfolding document_type_of set_enabled
set_document_type_enabled actor document_type enabled db = do
  require_institution_admin actor
  known ← ok_or (document_type_of document_type) (validation "unknown document type")
  guard (not (is_none (db.documents.institution_document_type actor.institution_id known)))
      (integrity "institution is missing its document-type configuration row")
  ok (
      write_audit actor "institution.document_type_configured" "institution" actor.institution_id
        (record db {
          documents = record db.documents {
            institution_document_type =
                set_enabled actor.institution_id known enabled
                  db.documents.institution_document_type;
          };
        }))
