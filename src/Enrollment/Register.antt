-- ===== src/Enrollment/Register.antt =====
-- backend/src/enrollment/service.rs: `register_self` and `register_for`; the policy is
-- backend/src/enrollment/policy.rs. A registration reads the database twice: `before` is what the
-- statements see that precede the lock on the student and term, `after` what the statements see
-- that follow it, and other transactions may have committed between the two. The result is the
-- database that the transaction commits, or the error with which it rolls back.
mod Context
mod Checks
use ubedtech.Prelude.{
  ℕ, String, ◌+◌, Bool, true, false, ◌&&◌, ◌||◌, not, Option, none, some, List, [], ◌∷◌, ◌++◌, ltb,
  leb, ◌==◌, if◌then◌else◌, is_some_eq, find_where, exists_where, upsert, is_none,
}
use ubedtech.Shared.Actor.{Actor, Role, has_role, require_student_self}
use ubedtech.Shared.Error.{
  Result, ok, err, ◌>>=◌, ◌>>◌, guard, forbidden, not_found, integrity, database,
}
use ubedtech.Enrollment.State.{
  Db, Env, SectionCapacity, SectionStatus, EnrollmentRow, EnrollmentStatus, Source, OverrideType,
  StudentTermState, TermStatus, SectionMeeting, CoursePrerequisite, RegisterCommand, Denial,
  EnrollError, denied, app, EnrollmentReceipt, RegistrationContext, is_enrolled, active_for,
  has_key, has_id,
}
use ubedtech.Enrollment.Claim.{ClaimKey, claim_override, claim_if, stamp_overrides_consumed}
unfoldable pub use Context.*
unfoldable pub use Checks.*

abbrev pub source_of : Actor → ℕ → Source
source_of actor student_id =
    if registers_self actor student_id then Source.student else Source.registrar

abbrev pub new_enrollment : Env → Actor → ℕ → RegisterCommand → EnrollmentRow
new_enrollment env actor student_id command = record {
  id = env.new_id;
  institution_id = actor.institution_id;
  student_id = student_id;
  section_id = command.section_id;
  status = EnrollmentStatus.enrolled;
  registered_at = env.tx_now;
  dropped_at = none;
  source = source_of actor student_id;
  idempotency_key = command.idempotency_key;
  created_by_user_id = actor.user_id;
}

-- The primary key and the two unique indexes of `enrollment`: can the row be inserted?
unfoldable pub is_insertable : EnrollmentRow → List EnrollmentRow → Bool
is_insertable e rows =
    not (exists_where (has_id e.id) rows)
    && not (exists_where (has_key e.institution_id e.student_id e.idempotency_key) rows)
    && not (exists_where (active_for e.student_id e.section_id) rows)

-- What the transaction has written when it commits.
unfoldable pub write_registration :
    Env → Actor → ℕ → RegisterCommand → SectionCapacity → List ℕ → Db → Db
write_registration env actor student_id command seat consumed db = record db {
  section_capacity = upsert command.section_id seat db.section_capacity;
  enrollment = new_enrollment env actor student_id command ∷ db.enrollment;
  registration_override =
      stamp_overrides_consumed env.tx_now consumed env.new_id db.registration_override;
  audit_event =
      record {
        institution_id = actor.institution_id;
        actor_user_id = actor.user_id;
        action = "enrollment.registered";
        resource_type = "enrollment";
        resource_id = env.new_id;
      }
      ∷ db.audit_event;
}

-- The rules behind the second lookup, up to the seat. The result is the section's new capacity row
-- and the overrides claimed so far.
unfoldable pub check_rules :
    Env
    → Actor
    → ℕ
    → RegisterCommand
    → RegistrationContext
    → List ℕ
    → Db
    → Result EnrollError (SectionCapacity × List ℕ)
check_rules env actor student_id command context claimed db = do
  let claim = λ (rule : OverrideType).
      claim_override env (claim_key actor student_id context.term_id command.section_id rule) db
  guard (not (exists_where (active_for student_id command.section_id) db.enrollment))
      (denied Denial.already_enrolled)
  guard (not (already_completed student_id context.course_id db))
      (denied Denial.course_already_completed)
  prerequisite_ids ←
      claim_if (not (prerequisites_met student_id context.course_id db))
        (claim OverrideType.prerequisite) Denial.prerequisite_not_met
  conflict_ids ←
      claim_if (has_time_conflict student_id command.section_id context.term_id db)
        (claim OverrideType.schedule_conflict) Denial.schedule_conflict
  seat ← take_seat (db.section_capacity command.section_id) (claim OverrideType.capacity)
  ok (seat.0, claimed ++ prerequisite_ids ++ conflict_ids ++ seat.1)

-- The rules, then the inserts up to the commit.
unfoldable pub register_new :
    Env
    → Actor
    → ℕ
    → RegisterCommand
    → RegistrationContext
    → List ℕ
    → Db
    → Result EnrollError (EnrollmentReceipt × Db)
register_new env actor student_id command context claimed db = do
  seat ← check_rules env actor student_id command context claimed db
  let e = new_enrollment env actor student_id command
  guard (is_insertable e db.enrollment) (app database)
  ok (receipt_of e, write_registration env actor student_id command seat.0 seat.1 db)

-- What follows the insert of the lock row: the holds, then the second lookup by the key.
unfoldable pub register_locked :
    Env
    → Actor
    → ℕ
    → RegisterCommand
    → RegistrationContext
    → List ℕ
    → Db
    → Result EnrollError (EnrollmentReceipt × Db)
register_locked env actor student_id command context deadline_ids db = do
  hold_ids ←
      claim_if (is_held (term_state student_id context.term_id db))
        (claim_override env
          (claim_key actor student_id context.term_id command.section_id OverrideType.hold) db)
        Denial.hold
  elim (existing_enrollment actor.institution_id student_id command.idempotency_key db) [
    | some e ↦ ok (receipt_of e, db)
    | none ↦ register_new env actor student_id command context (deadline_ids ++ hold_ids) db
  ]

-- The foreign key of the lock row to `student_profile`, which binds where the row is inserted.
unfoldable pub can_lock : ℕ → ℕ → Db → Bool
can_lock student_id term_id db =
    not (is_none (db.student_term_registration student_id term_id))
    || not (is_none (db.student_profile student_id))

unfoldable pub register_for :
    Env → Actor → ℕ → RegisterCommand → Db → Db → Result EnrollError (EnrollmentReceipt × Db)
register_for env actor student_id command before after = do
  require_can_register_for actor student_id
  elim (existing_enrollment actor.institution_id student_id command.idempotency_key before) [
    | some e ↦ ok (receipt_of e, after)
    | none ↦ registration_context actor.institution_id command.section_id before >>= λ context.
        check_window env actor student_id command context before >>= λ deadline_ids.
        guard (can_lock student_id context.term_id after) (app database)
        >> register_locked env actor student_id command context deadline_ids
            (ensure_lock_row student_id context.term_id after)
  ]

unfoldable pub register_self :
    Env → Actor → RegisterCommand → Db → Db → Result EnrollError (EnrollmentReceipt × Db)
register_self env actor command before after = elim (require_student_self actor) [
  | err e ↦ err (app e)
  | ok student_id ↦ register_for env actor student_id command before after
]
