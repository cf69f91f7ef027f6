-- ===== src/Records/State.antt =====
-- The tables of the records service (backend/migrations/0004_records.sql, 0013_grade_history.sql) and
-- what it reads of the others. Grade points are hundredths, credit hours tenths of an hour.
use ubedtech.Prelude.{ℕ, String, Bool, true, false, Option, List}
use ubedtech.Shared.Audit.{AuditEvent}

pub data GradeState : Type 0 where
  draft : GradeState
  published : GradeState
  amended : GradeState

-- A row of `grade_record`.
pub record GradeRecord : Type 0 where
  pub id : ℕ
  pub institution_id : ℕ
  pub enrollment_id : ℕ
  pub grade_code : String
  pub grade_points : Option ℕ
  pub numeric_value : Option ℕ
  pub state : GradeState
  pub entered_by_user_id : ℕ
  pub published_at : Option ℕ
  pub version : ℕ

-- A row of `grade_revision`.
pub record GradeRevision : Type 0 where
  pub grade_record_id : ℕ
  pub grade_code : String
  pub grade_points : Option ℕ
  pub numeric_value : Option ℕ
  pub state : GradeState
  pub entered_by_user_id : ℕ
  pub version : ℕ

-- What a join of `enrollment` with its section, term and course gives for one enrollment.
pub record GradedEnrollment : Type 0 where
  pub institution_id : ℕ
  pub student_id : ℕ
  pub section_id : ℕ
  pub course_id : ℕ
  pub term_id : ℕ
  pub credit_hours : ℕ
  pub grade_entry_closes_at : Option ℕ

pub record InstructorAssignment : Type 0 where
  pub section_id : ℕ
  pub instructor_user_id : ℕ

pub record RecordsDb : Type 0 where
  pub enrollment : ℕ → Option GradedEnrollment
  pub instructor_assignment : List InstructorAssignment
  pub grade_record : List GradeRecord
  pub grade_revision : List GradeRevision
  pub audit_event : List AuditEvent

pub record GradeEnv : Type 0 where
  pub now : ℕ
  pub tx_now : ℕ
  pub new_id : ℕ

pub record SaveGradeCommand : Type 0 where
  pub enrollment_id : ℕ
  pub grade_code : String
  pub grade_points : Option ℕ
  pub numeric_value : Option ℕ
  pub expected_version : ℕ

pub record CorrectGradeCommand : Type 0 where
  pub enrollment_id : ℕ
  pub grade_code : String
  pub grade_points : Option ℕ
  pub numeric_value : Option ℕ
  pub reason : String
  pub expected_version : ℕ

abbrev pub is_draft : GradeRecord → Bool
is_draft g = elim g.state [ GradeState.draft ↦ true | _ ↦ false ]

-- `state IN ('published', 'amended')`
abbrev pub is_visible : GradeRecord → Bool
is_visible g = elim g.state [ GradeState.draft ↦ false | _ ↦ true ]
