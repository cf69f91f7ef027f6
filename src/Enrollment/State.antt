-- ===== src/Enrollment/State.antt =====
-- The tables that enrollment reads and writes, with the columns its statements name
-- (backend/migrations/0002_academics.sql, 0003_enrollment.sql, 0009, 0011), and the types of
-- backend/src/enrollment/types.rs. A table that is only read by its primary key is a function; one
-- that is searched is a list of rows. Instants are microseconds.
use ubedtech.Prelude.{ℕ, String, Bool, true, false, ◌&&◌, Option, List, ◌==◌}
use ubedtech.Shared.Error.{AppError}
use ubedtech.Shared.Audit.{AuditEvent}

pub data SectionStatus : Type 0 where
  draft : SectionStatus
  opened : SectionStatus
  closed : SectionStatus
  cancelled : SectionStatus

pub record Section : Type 0 where
  pub institution_id : ℕ
  pub term_id : ℕ
  pub course_id : ℕ
  pub status : SectionStatus

pub record AcademicTerm : Type 0 where
  pub institution_id : ℕ
  pub registration_opens_at : ℕ
  pub add_drop_closes_at : ℕ

-- section_capacity
pub record SectionCapacity : Type 0 where
  pub capacity : ℕ
  pub enrolled_count : ℕ
  pub version : ℕ

pub data EnrollmentStatus : Type 0 where
  enrolled : EnrollmentStatus
  dropped : EnrollmentStatus
  withdrawn : EnrollmentStatus

pub data Source : Type 0 where
  student : Source
  registrar : Source

-- A row of `enrollment`.
pub record EnrollmentRow : Type 0 where
  pub id : ℕ
  pub institution_id : ℕ
  pub student_id : ℕ
  pub section_id : ℕ
  pub status : EnrollmentStatus
  pub registered_at : ℕ
  pub dropped_at : Option ℕ
  pub source : Source
  pub idempotency_key : ℕ
  pub created_by_user_id : ℕ

-- The values that `registration_override.override_type` admits, `OVERRIDE_TYPES`.
pub data OverrideType : Type 0 where
  hold : OverrideType
  prerequisite : OverrideType
  schedule_conflict : OverrideType
  capacity : OverrideType
  deadline : OverrideType

abbrev pub override_type_eq : OverrideType → OverrideType → Bool
override_type_eq OverrideType.hold OverrideType.hold = true
override_type_eq OverrideType.prerequisite OverrideType.prerequisite = true
override_type_eq OverrideType.schedule_conflict OverrideType.schedule_conflict = true
override_type_eq OverrideType.capacity OverrideType.capacity = true
override_type_eq OverrideType.deadline OverrideType.deadline = true
override_type_eq _ _ = false

-- registration_override
pub record RegistrationOverride : Type 0 where
  pub id : ℕ
  pub institution_id : ℕ
  pub student_id : ℕ
  pub term_id : ℕ
  pub section_id : Option ℕ
  pub override_type : OverrideType
  pub granted_by_user_id : ℕ
  pub expires_at : Option ℕ
  pub note : String
  pub created_at : ℕ
  pub consumed_at : Option ℕ
  pub consumed_by_enrollment_id : Option ℕ

pub data TermStatus : Type 0 where
  eligible : TermStatus
  blocked : TermStatus
  closed : TermStatus

-- student_term_registration, the row that registrations and drops lock.
pub record StudentTermState : Type 0 where
  pub status : TermStatus
  pub hold_flags : List String

pub record SectionMeeting : Type 0 where
  pub section_id : ℕ
  pub day_of_week : ℕ
  pub starts_at : ℕ
  pub ends_at : ℕ

pub record CoursePrerequisite : Type 0 where
  pub course_id : ℕ
  pub prerequisite_course_id : ℕ
  pub minimum_grade_points : ℕ

pub record Student : Type 0 where
  pub institution_id : ℕ
  pub academic_status : String

-- What the services of registration see of the database. `best_grade_points` is the view
-- `records_student_course_completion` of 0004_records.sql, from a student and a course; grade
-- points are hundredths.
pub record Db : Type 0 where
  pub section : ℕ → Option Section
  pub academic_term : ℕ → Option AcademicTerm
  pub section_capacity : ℕ → Option SectionCapacity
  pub enrollment : List EnrollmentRow
  pub registration_override : List RegistrationOverride
  pub student_term_registration : ℕ → ℕ → Option StudentTermState
  pub section_meeting : List SectionMeeting
  pub course_prerequisite : List CoursePrerequisite
  pub best_grade_points : ℕ → ℕ → Option ℕ
  pub student_profile : ℕ → Option Student
  pub audit_event : List AuditEvent

-- What a transaction takes from outside: the clock of the process, the time at which the
-- transaction began (SQL's `now()`), the UUID that it draws, and the override rows that other
-- transactions have locked.
pub record Env : Type 0 where
  pub now : ℕ
  pub tx_now : ℕ
  pub new_id : ℕ
  pub locked : List ℕ

pub record RegisterCommand : Type 0 where
  pub section_id : ℕ
  pub idempotency_key : ℕ

pub data Denial : Type 0 where
  section_not_open : Denial
  window_closed : Denial
  hold : Denial
  already_enrolled : Denial
  course_already_completed : Denial
  prerequisite_not_met : Denial
  schedule_conflict : Denial
  section_full : Denial

pub data EnrollError : Type 0 where
  denied : Denial → EnrollError
  app : AppError → EnrollError

pub record EnrollmentReceipt : Type 0 where
  pub enrollment_id : ℕ
  pub section_id : ℕ
  pub status : EnrollmentStatus
  pub registered_at : ℕ

pub record RegistrationContext : Type 0 where
  pub term_id : ℕ
  pub course_id : ℕ
  pub section_status : SectionStatus
  pub registration_opens_at : ℕ
  pub add_drop_closes_at : ℕ

pub record GrantOverrideCommand : Type 0 where
  pub term_id : ℕ
  pub section_id : Option ℕ
  pub override_type : String
  pub reason : String
  pub expires_at : Option ℕ

abbrev pub is_enrolled : EnrollmentRow → Bool
is_enrolled e = elim e.status [ enrolled ↦ true | _ ↦ false ]

-- `status = 'enrolled'` in a section.
abbrev pub active_in : ℕ → EnrollmentRow → Bool
active_in section_id e = (e.section_id == section_id) && is_enrolled e

-- `status = 'enrolled'` of a student in a section.
abbrev pub active_for : ℕ → ℕ → EnrollmentRow → Bool
active_for student_id section_id e = (e.student_id == student_id) && active_in section_id e

-- `institution_id`, `student_id` and `idempotency_key`, which are unique together.
abbrev pub has_key : ℕ → ℕ → ℕ → EnrollmentRow → Bool
has_key institution_id student_id key e =
    (e.institution_id == institution_id)
    && (e.student_id == student_id)
    && (e.idempotency_key == key)

abbrev pub has_id : ℕ → EnrollmentRow → Bool
has_id id e = e.id == id
