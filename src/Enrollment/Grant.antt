-- ===== src/Enrollment/Grant.antt =====
-- backend/src/enrollment/service.rs: `grant_override`. A UUID that is taken violates the primary key.
use text.Mathlib.Text.{◌==◌ as str_eq}
use Prim.Native.String.{◌++◌ as str_append}
use ubedtech.Prelude.{
  ℕ, String, Bool, true, false, not, Option, none, some, ◌∷◌, leb, ◌==◌, if◌then◌else◌,
  exists_where,
}
use ubedtech.Shared.Actor.{Actor, Role, require_role}
use ubedtech.Shared.Text.{is_blank, trim}
use ubedtech.Shared.Error.{
  Result, ok, err, ◌>>=◌, ◌>>◌, guard, ok_or, AppError, not_found, validation, database,
}
use ubedtech.Enrollment.State.{Db, Env, OverrideType, GrantOverrideCommand}

-- `OVERRIDE_TYPES.contains`, with the rule that the text names.
unfoldable pub override_type_of : String → Option OverrideType
override_type_of text =
    if str_eq text "hold"
    then some OverrideType.hold
    else if str_eq text "prerequisite"
    then some OverrideType.prerequisite
    else if str_eq text "schedule_conflict"
    then some OverrideType.schedule_conflict
    else if str_eq text "capacity"
    then some OverrideType.capacity
    else if str_eq text "deadline"
    then some OverrideType.deadline
    else none

abbrev pub require_can_grant_override : Actor → Result AppError (Unit {0})
require_can_grant_override actor = require_role actor Role.registrar

abbrev pub expires_in_future : Option ℕ → ℕ → Bool
expires_in_future none now = true
expires_in_future (some at) now = not (leb at now)

-- Is the row there, in the institution?
abbrev pub student_exists : ℕ → ℕ → Db → Bool
student_exists student_id institution_id db = elim (db.student_profile student_id) [
  | none ↦ false
  | some s ↦ s.institution_id == institution_id
]

abbrev pub term_exists : ℕ → ℕ → Db → Bool
term_exists term_id institution_id db = elim (db.academic_term term_id) [
  | none ↦ false
  | some t ↦ t.institution_id == institution_id
]

-- A section that the command names is in the institution and belongs to the term.
unfoldable pub check_section : Option ℕ → ℕ → ℕ → Db → Result AppError (Unit {0})
check_section none term_id institution_id db = ok tt
check_section (some section_id) term_id institution_id db = elim (db.section section_id) [
  | none ↦ err not_found
  | some s ↦
      if s.institution_id == institution_id
      then guard (s.term_id == term_id) (validation "section does not belong to the term")
      else err not_found
]

unfoldable pub grant_override :
    Env → Actor → ℕ → GrantOverrideCommand → Db → Result AppError (ℕ × Db)
grant_override env actor student_id command db = do
  require_can_grant_override actor
  rule ←
      ok_or (override_type_of command.override_type)
        (validation (str_append "unknown override type: " command.override_type))
  guard (not (is_blank command.reason)) (validation "an override requires a reason")
  guard (expires_in_future command.expires_at env.now)
      (validation "override expiry must be in the future")
  guard (student_exists student_id actor.institution_id db) not_found
  guard (term_exists command.term_id actor.institution_id db) not_found
  check_section command.section_id command.term_id actor.institution_id db
  guard (not (exists_where (λ o. o.id == env.new_id) db.registration_override)) database
  ok (
    env.new_id,
    record db {
      registration_override =
          record {
            id = env.new_id;
            institution_id = actor.institution_id;
            student_id = student_id;
            term_id = command.term_id;
            section_id = command.section_id;
            override_type = rule;
            granted_by_user_id = actor.user_id;
            expires_at = command.expires_at;
            note = trim command.reason;
            created_at = env.tx_now;
            consumed_at = none;
            consumed_by_enrollment_id = none;
          }
          ∷ db.registration_override;
      audit_event =
          record {
            institution_id = actor.institution_id;
            actor_user_id = actor.user_id;
            action = "enrollment.override_granted";
            resource_type = "registration_override";
            resource_id = env.new_id;
          }
          ∷ db.audit_event;
    },
  )
