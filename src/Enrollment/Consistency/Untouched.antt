-- ===== src/Enrollment/Consistency/Untouched.antt =====
-- The operations of backend/src/academics/service.rs that leave seats and sections alone.
use ubedtech.Prelude.{ℕ, ◌≡◌, arith, Option-cases, inl, inr}
use ubedtech.Shared.Actor.{Actor}
use ubedtech.Shared.Error.{ok, Result-cases}
use ubedtech.Enrollment.State.{Db}
use ubedtech.Enrollment.Consistency.{SameSeats}
use ubedtech.Academics.State.{
  AcademicsDb, CreateTermCommand, CreateCourseCommand, AddMeetingCommand, UpdateWindowsCommand,
  AddPrerequisiteCommand, required_trimmed,
}
use ubedtech.Academics.Catalogue.{
  create_term, create_course, add_prerequisite, update_term_windows, insert_term, set_windows,
  valid_credit_hours,
}
use ubedtech.Academics.Teaching.{
  add_meeting, assign_instructor, write_assignment, insert_meeting, weekday,
}

-- The tables of seats and of sections that an operation leaves alone.
pub record Untouched (b a : Db) : Type 0 where
  pub same_seats : SameSeats b a
  pub same_section : a.section ≡ b.section

pub create_term-Untouched :
    (new_id : ℕ) (actor : Actor) (command : CreateTermCommand) (x : AcademicsDb)
    (out : ℕ × AcademicsDb)
    → create_term new_id actor command x ≡ ok out
    → Untouched x.registration out.1.registration
unfolding create_term insert_term
create_term-Untouched new_id actor command x out h =
    elim (Result-cases (required_trimmed command.code "term code")) [
      | inr (e, blank) ↦ absurd (ground arith)
      | inl (code, coded) ↦ elim (Result-cases (required_trimmed command.name "term name")) [
        | inr (e, blank) ↦ absurd (ground arith)
        | inl (name, named) ↦ record { same_seats = ground arith; same_section = ground arith }
      ]
    ]

pub create_course-Untouched :
    (new_id : ℕ) (actor : Actor) (command : CreateCourseCommand) (x : AcademicsDb)
    (out : ℕ × AcademicsDb)
    → create_course new_id actor command x ≡ ok out
    → Untouched x.registration out.1.registration
unfolding create_course
create_course-Untouched new_id actor command x out h =
    elim (Result-cases (required_trimmed command.code "course code")) [
      | inr (e, blank) ↦ absurd (ground arith)
      | inl (code, coded) ↦ elim (Result-cases (required_trimmed command.title "course title")) [
        | inr (e, blank) ↦ absurd (ground arith)
        | inl (title, titled) ↦ elim (Option-cases (valid_credit_hours command.credit_hours)) [
          | inl invalid ↦ absurd (ground arith)
          | inr (hours, valid) ↦ record { same_seats = ground arith; same_section = ground arith }
        ]
      ]
    ]

pub add_meeting-Untouched :
    (new_id : ℕ) (actor : Actor) (section_id : ℕ) (command : AddMeetingCommand) (x : AcademicsDb)
    (out : ℕ × AcademicsDb)
    → add_meeting new_id actor section_id command x ≡ ok out
    → Untouched x.registration out.1.registration
unfolding add_meeting insert_meeting
add_meeting-Untouched new_id actor section_id command x out h =
    elim (Option-cases (weekday command.day_of_week)) [
      | inl invalid ↦ absurd (ground arith)
      | inr (day, valid) ↦ record { same_seats = ground arith; same_section = ground arith }
    ]

pub add_prerequisite-Untouched :
    (actor : Actor) (course_id : ℕ) (command : AddPrerequisiteCommand) (x y : AcademicsDb)
    → add_prerequisite actor course_id command x ≡ ok y
    → Untouched x.registration y.registration
unfolding add_prerequisite
add_prerequisite-Untouched actor course_id command x y h = record {
  same_seats = ground arith;
  same_section = ground arith;
}

pub assign_instructor-Untouched :
    (actor : Actor) (section_id user_id : ℕ) (x y : AcademicsDb)
    → assign_instructor actor section_id user_id x ≡ ok y
    → Untouched x.registration y.registration
unfolding assign_instructor write_assignment
assign_instructor-Untouched actor section_id user_id x y h = record {
  same_seats = ground arith;
  same_section = ground arith;
}

pub update_term_windows-Untouched :
    (actor : Actor) (term_id : ℕ) (command : UpdateWindowsCommand) (x y : AcademicsDb)
    → update_term_windows actor term_id command x ≡ ok y
    → Untouched x.registration y.registration
unfolding update_term_windows set_windows
update_term_windows-Untouched actor term_id command x y h = record {
  same_seats = ground arith;
  same_section = ground arith;
}
