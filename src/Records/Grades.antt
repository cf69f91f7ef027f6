-- ===== src/Records/Grades.antt =====
-- backend/src/records/grades.rs: entering, correcting and publishing grades. The trigger of
-- 0013_grade_history.sql is part of every update of `grade_record`.
pub mod History
pub mod Operations
pub mod Versions
pub mod Kept
pub mod Publishing
use Prim.Native.String.{len}
use ubedtech.Prelude.{
  ℕ, String, ◌+◌, Bool, true, false, ◌&&◌, ◌||◌, not, Option, none, some, List, [], ◌∷◌, ◌++◌, map,
  ltb, leb, ◌==◌, if◌then◌else◌, length, find_where, exists_where, select_where, update_where,
}
use ubedtech.Shared.Actor.{Actor, Role, has_role, require_role}
use ubedtech.Shared.Audit.{AuditEvent}
use ubedtech.Shared.Text.{is_blank}
use ubedtech.Shared.Error.{
  Result, ok, err, ◌>>=◌, ◌>>◌, guard, ok_or, AppError, forbidden, not_found, validation, conflict,
  database,
}
use ubedtech.Records.State.{
  GradeState, GradeRecord, GradeRevision, GradedEnrollment, InstructorAssignment, RecordsDb,
  GradeEnv, SaveGradeCommand, CorrectGradeCommand, is_draft,
}

unfoldable pub validate_grade_code : String → Result AppError (Unit {0})
validate_grade_code code =
    if is_blank code || ltb 8 (len code)
    then err (validation "grade code must be 1–8 characters")
    else ok tt

-- The row that the trigger `grade_record_capture_revision` inserts before an update.
abbrev pub capture_revision : GradeRecord → GradeRevision
capture_revision g = record {
  grade_record_id = g.id;
  grade_code = g.grade_code;
  grade_points = g.grade_points;
  numeric_value = g.numeric_value;
  state = g.state;
  entered_by_user_id = g.entered_by_user_id;
  version = g.version;
}

-- `UPDATE grade_record SET f WHERE p`, with its trigger.
unfoldable pub update_grades :
    (GradeRecord → Bool) → (GradeRecord → GradeRecord) → RecordsDb → RecordsDb
update_grades p f db = record db {
  grade_record = update_where p f db.grade_record;
  grade_revision = map capture_revision (select_where p db.grade_record) ++ db.grade_revision;
}

abbrev pub write_audit : Actor → String → String → ℕ → RecordsDb → RecordsDb
write_audit actor action resource_type resource_id db = record db {
  audit_event =
      record {
        institution_id = actor.institution_id;
        actor_user_id = actor.user_id;
        action = action;
        resource_type = resource_type;
        resource_id = resource_id;
      }
      ∷ db.audit_event;
}

-- The enrollment, in the actor's institution.
unfoldable pub grade_entry_context : ℕ → ℕ → RecordsDb → Result AppError GradedEnrollment
grade_entry_context institution_id enrollment_id db = elim (db.enrollment enrollment_id) [
  | none ↦ err not_found
  | some e ↦ if e.institution_id == institution_id then ok e else err not_found
]

abbrev pub is_assigned : ℕ → ℕ → RecordsDb → Bool
is_assigned section_id user_id db =
    exists_where (λ a. (a.section_id == section_id) && (a.instructor_user_id == user_id))
      db.instructor_assignment

abbrev pub window_closed : Option ℕ → ℕ → Bool
window_closed none now = false
window_closed (some closes_at) now = leb closes_at now

-- What binds an instructor and not a records officer: the assignment, and the entry window.
unfoldable pub check_instructor :
    GradeEnv → Actor → GradedEnrollment → RecordsDb → Result AppError (Unit {0})
check_instructor env actor context db =
    if has_role actor Role.records_officer
    then ok tt
    else guard (is_assigned context.section_id actor.user_id db) forbidden
      >> guard (not (window_closed context.grade_entry_closes_at env.now))
          (conflict "grade entry window is closed")

abbrev pub graded : ℕ → GradeRecord → Bool
graded enrollment_id g = g.enrollment_id == enrollment_id

abbrev pub has_grade_id : ℕ → GradeRecord → Bool
has_grade_id id g = g.id == id

abbrev pub set_draft : Actor → SaveGradeCommand → GradeRecord → GradeRecord
set_draft actor command g = record g {
  grade_code = command.grade_code;
  grade_points = command.grade_points;
  numeric_value = command.numeric_value;
  state = GradeState.draft;
  entered_by_user_id = actor.user_id;
  version = g.version + 1;
}

abbrev pub new_grade : GradeEnv → Actor → SaveGradeCommand → GradeRecord
new_grade env actor command = record {
  id = env.new_id;
  institution_id = actor.institution_id;
  enrollment_id = command.enrollment_id;
  grade_code = command.grade_code;
  grade_points = command.grade_points;
  numeric_value = command.numeric_value;
  state = GradeState.draft;
  entered_by_user_id = actor.user_id;
  published_at = none;
  version = 1;
}

-- What `save_draft` writes where a draft is there, and where none is.
unfoldable pub changed_draft : Actor → SaveGradeCommand → GradeRecord → RecordsDb → RecordsDb
changed_draft actor command old db =
    write_audit actor "grade.draft_changed" "grade_record" old.id
      (update_grades (has_grade_id old.id) (set_draft actor command) db)

unfoldable pub created_draft : GradeEnv → Actor → SaveGradeCommand → RecordsDb → RecordsDb
created_draft env actor command db =
    write_audit actor "grade.draft_created" "grade_record" env.new_id
      (record db { grade_record = new_grade env actor command ∷ db.grade_record })

-- The `match existing` of `save_draft`, up to the commit. An id that is taken violates the primary key.
unfoldable pub write_draft :
    GradeEnv
    → Actor
    → SaveGradeCommand
    → Option GradeRecord
    → RecordsDb
    → Result AppError (ℕ × RecordsDb)
write_draft env actor command (some old) db = do
  guard (is_draft old) (conflict "this grade is published; use a records-office correction")
  guard (old.version == command.expected_version) (conflict "grade was changed by another user")
  ok (old.version + 1, changed_draft actor command old db)
write_draft env actor command none db = do
  guard (command.expected_version == 0) (conflict "grade no longer has the expected state")
  guard (not (exists_where (has_grade_id env.new_id) db.grade_record)) database
  ok (1, created_draft env actor command db)

unfoldable pub save_draft :
    GradeEnv → Actor → SaveGradeCommand → RecordsDb → Result AppError (ℕ × RecordsDb)
save_draft env actor command db = do
  guard (has_role actor Role.instructor || has_role actor Role.records_officer) forbidden
  validate_grade_code command.grade_code
  context ← grade_entry_context actor.institution_id command.enrollment_id db
  check_instructor env actor context db
  write_draft env actor command (find_where (graded command.enrollment_id) db.grade_record) db

abbrev pub set_amended : Actor → CorrectGradeCommand → GradeRecord → GradeRecord
set_amended actor command g = record g {
  grade_code = command.grade_code;
  grade_points = command.grade_points;
  numeric_value = command.numeric_value;
  state = GradeState.amended;
  entered_by_user_id = actor.user_id;
  version = g.version + 1;
}

unfoldable pub corrected : Actor → CorrectGradeCommand → GradeRecord → RecordsDb → RecordsDb
corrected actor command existing db =
    write_audit actor "grade.corrected" "grade_record" existing.id
      (update_grades (has_grade_id existing.id) (set_amended actor command) db)

unfoldable pub correct_grade :
    Actor → CorrectGradeCommand → RecordsDb → Result AppError (ℕ × RecordsDb)
correct_grade actor command db = do
  require_role actor Role.records_officer
  validate_grade_code command.grade_code
  guard (not (is_blank command.reason)) (validation "a grade correction requires a reason")
  existing ←
      ok_or
        (find_where
          (λ g. graded command.enrollment_id g && (g.institution_id == actor.institution_id))
          db.grade_record)
        not_found
  guard (not (is_draft existing)) (conflict "draft grades are edited by entry, not corrected")
  guard (existing.version == command.expected_version)
      (conflict "grade was changed by another user")
  ok (existing.version + 1, corrected actor command existing db)

-- The `WHERE` of `publish_section`.
abbrev pub in_section : ℕ → ℕ → RecordsDb → Bool
in_section enrollment_id section_id db = elim (db.enrollment enrollment_id) [
  | none ↦ false
  | some e ↦ e.section_id == section_id
]

unfoldable pub publishable : Actor → ℕ → RecordsDb → GradeRecord → Bool
publishable actor section_id db g =
    in_section g.enrollment_id section_id db
    && (g.institution_id == actor.institution_id)
    && is_draft g

abbrev pub set_published : GradeEnv → GradeRecord → GradeRecord
set_published env g = record g {
  state = GradeState.published;
  published_at = some env.tx_now;
  version = g.version + 1;
}

unfoldable pub published : GradeEnv → Actor → ℕ → RecordsDb → RecordsDb
published env actor section_id db =
    write_audit actor "grade.section_published" "section" section_id
      (update_grades (publishable actor section_id db) (set_published env) db)

unfoldable pub publish_section : GradeEnv → Actor → ℕ → RecordsDb → Result AppError (ℕ × RecordsDb)
publish_section env actor section_id db =
    require_role actor Role.records_officer
    >> ok (
      length (select_where (publishable actor section_id db) db.grade_record),
      published env actor section_id db,
    )
