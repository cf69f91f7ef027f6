-- ===== src/Academics/State.antt =====
-- The tables that backend/src/academics/service.rs writes, beside those that registration reads, its
-- commands, and what all its operations share. Dates and times of a day are numbers. Credit hours in
-- a command are hundredths of an hour and in a row tenths; grade points are hundredths. The
-- institution of an actor exists: it is that of its account.
use Prim.Native.String.{String, ◌++◌ as str_append}
use text.Mathlib.Text.{◌==◌ as str_eq}
use ubedtech.Prelude.{
  ℕ, Bool, false, ◌&&◌, ◌||◌, Option, none, some, List, ◌∷◌, ◌==◌, if◌then◌else◌, leb, ◌≡◌, true,
}
use ubedtech.Shared.Actor.{Actor, Role, has_role}
use ubedtech.Shared.Text.{trim}
use ubedtech.Shared.Error.{Result, ok, err, AppError, forbidden, validation}
use ubedtech.Enrollment.State.{Db}
use ubedtech.Identity.Sessions.{Account}

-- The signed integers: `negsuc n` is -(n + 1).
pub data ℤ : Type 0 where
  pos : ℕ → ℤ
  negsuc : ℕ → ℤ

abbrev pub is_i32 : ℤ → Bool
is_i32 (ℤ.pos n) = leb n 2147483647
is_i32 (ℤ.negsuc n) = leb n 2147483647

-- `i32`
pub record I32 : Type 0 where
  pub value : ℤ
  pub in_range : is_i32 value ≡ true

-- What a row of `academic_term` has beside the columns that registration reads.
pub record TermDetail : Type 0 where
  pub id : ℕ
  pub institution_id : ℕ
  pub code : String
  pub name : String
  pub starts_on : ℕ
  pub ends_on : ℕ
  pub grade_entry_closes_at : Option ℕ

pub record Course : Type 0 where
  pub id : ℕ
  pub institution_id : ℕ
  pub code : String
  pub title : String
  pub credit_hours : ℕ
  pub active : Bool

-- The columns of `section` that are unique together, with its id.
pub record SectionKey : Type 0 where
  pub id : ℕ
  pub institution_id : ℕ
  pub term_id : ℕ
  pub course_id : ℕ
  pub section_code : String

pub record Room : Type 0 where
  pub id : ℕ
  pub institution_id : ℕ

-- What a row of `section_meeting` has beside the columns that registration reads.
pub record MeetingDetail : Type 0 where
  pub id : ℕ
  pub room_id : Option ℕ

pub record InstructorAssignment : Type 0 where
  pub section_id : ℕ
  pub instructor_user_id : ℕ

pub record AcademicsDb : Type 0 where
  pub registration : Db
  pub term_detail : List TermDetail
  pub course : List Course
  pub section_key : List SectionKey
  pub room : List Room
  pub meeting_detail : List MeetingDetail
  pub instructor_assignment : List InstructorAssignment
  pub user_account : ℕ → Option Account

pub record CreateTermCommand : Type 0 where
  pub code : String
  pub name : String
  pub starts_on : ℕ
  pub ends_on : ℕ
  pub registration_opens_at : ℕ
  pub add_drop_closes_at : ℕ
  pub grade_entry_closes_at : Option ℕ

pub record CreateCourseCommand : Type 0 where
  pub code : String
  pub title : String
  pub credit_hours : ℤ

pub record CreateSectionCommand : Type 0 where
  pub term_id : ℕ
  pub course_id : ℕ
  pub section_code : String
  pub capacity : I32

pub record AddMeetingCommand : Type 0 where
  pub day_of_week : ℤ
  pub starts_at : ℕ
  pub ends_at : ℕ
  pub room_id : Option ℕ

pub record UpdateWindowsCommand : Type 0 where
  pub registration_opens_at : ℕ
  pub add_drop_closes_at : ℕ
  pub grade_entry_closes_at : Option ℕ

-- A minimum below zero, which every grade meets, is written as zero.
pub record AddPrerequisiteCommand : Type 0 where
  pub prerequisite_course_id : ℕ
  pub minimum_grade_points : ℕ

abbrev pub require_can_manage_academics : Actor → Result AppError (Unit {0})
require_can_manage_academics actor =
    if has_role actor Role.registrar || has_role actor Role.institution_admin
    then ok tt
    else err forbidden

abbrev pub is_empty_text : String → Bool
is_empty_text text = str_eq text ""

unfoldable pub required_trimmed : String → String → Result AppError String
unfolding trim
required_trimmed value field =
    let trimmed = trim value in
    if is_empty_text trimmed then err (validation (str_append field " is required")) else ok trimmed

abbrev pub with_registration : Db → AcademicsDb → AcademicsDb
with_registration registration db = record db { registration = registration }

abbrev pub write_audit : Actor → String → String → ℕ → AcademicsDb → AcademicsDb
write_audit actor action resource_type resource_id db =
    with_registration
      (record db.registration {
        audit_event =
            record {
              institution_id = actor.institution_id;
              actor_user_id = actor.user_id;
              action = action;
              resource_type = resource_type;
              resource_id = resource_id;
            }
            ∷ db.registration.audit_event;
      })
      db

-- `SELECT 1 FROM academic_term WHERE id = $1 AND institution_id = $3`
abbrev pub has_term : ℕ → ℕ → AcademicsDb → Bool
has_term institution_id term_id db = elim (db.registration.academic_term term_id) [
  | none ↦ false
  | some t ↦ t.institution_id == institution_id
]

-- `SELECT 1 FROM section WHERE id = $1 AND institution_id = $2`
abbrev pub has_section : ℕ → ℕ → AcademicsDb → Bool
has_section institution_id section_id db = elim (db.registration.section section_id) [
  | none ↦ false
  | some s ↦ s.institution_id == institution_id
]

-- `id = $1 AND institution_id = $3` of a course.
abbrev pub is_course_of : ℕ → ℕ → Course → Bool
is_course_of institution_id course_id c =
    (c.id == course_id) && (c.institution_id == institution_id)

abbrev pub is_room_of : ℕ → ℕ → Room → Bool
is_room_of institution_id room_id r = (r.id == room_id) && (r.institution_id == institution_id)
