-- ===== src/Academics/Changes.antt =====
-- One operation of backend/src/academics/service.rs, as a step between states.
use ubedtech.Prelude.{ℕ, ◌≡◌}
use ubedtech.Shared.Actor.{Actor}
use ubedtech.Shared.Error.{ok}
use ubedtech.Academics.State.{
  I32, AcademicsDb, CreateTermCommand, CreateCourseCommand, CreateSectionCommand, AddMeetingCommand,
  UpdateWindowsCommand, AddPrerequisiteCommand,
}
use ubedtech.Academics.Catalogue.{create_term, create_course, add_prerequisite, update_term_windows}
use ubedtech.Academics.Sections.{create_section, set_section_capacity}
use ubedtech.Academics.Teaching.{add_meeting, assign_instructor}

pub data Administers (x y : AcademicsDb) : Type 0 where
  term_created :
      (new_id : ℕ) (actor : Actor) (command : CreateTermCommand)
      → create_term new_id actor command x ≡ ok (new_id, y)
      → Administers x y
  course_created :
      (new_id : ℕ) (actor : Actor) (command : CreateCourseCommand)
      → create_course new_id actor command x ≡ ok (new_id, y)
      → Administers x y
  section_created :
      (new_id : ℕ) (actor : Actor) (command : CreateSectionCommand)
      → create_section new_id actor command x ≡ ok (new_id, y)
      → Administers x y
  capacity_changed :
      (actor : Actor) (section_id : ℕ) (capacity : I32)
      → set_section_capacity actor section_id capacity x ≡ ok y
      → Administers x y
  meeting_added :
      (new_id : ℕ) (actor : Actor) (section_id : ℕ) (command : AddMeetingCommand)
      → add_meeting new_id actor section_id command x ≡ ok (new_id, y)
      → Administers x y
  prerequisite_added :
      (actor : Actor) (course_id : ℕ) (command : AddPrerequisiteCommand)
      → add_prerequisite actor course_id command x ≡ ok y
      → Administers x y
  instructor_assigned :
      (actor : Actor) (section_id user_id : ℕ)
      → assign_instructor actor section_id user_id x ≡ ok y
      → Administers x y
  windows_updated :
      (actor : Actor) (term_id : ℕ) (command : UpdateWindowsCommand)
      → update_term_windows actor term_id command x ≡ ok y
      → Administers x y
