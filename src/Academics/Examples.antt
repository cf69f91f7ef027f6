-- ===== src/Academics/Examples.antt =====
-- A registrar opens a section, and the theorems at it.
use ubedtech.Prelude.{
  ◌≡◌, ◌≢◌, refl, true, none, some, [], ◌∷◌, arith, leb, ◌==◌, if◌then◌else◌, count_where, upsert,
}
use ubedtech.Shared.Actor.{Actor, Role}
use ubedtech.Shared.Text.{trim, trim_start, trim_end, is_whitespace, is_blank, all_chars}
use ubedtech.Shared.Error.{ok, err, integrity, database}
use ubedtech.Enrollment.State.{
  Env, Section, SectionStatus, AcademicTerm, SectionCapacity, RegisterCommand, app, active_in,
}
use ubedtech.Enrollment.Register.{register_for}
use ubedtech.Enrollment.Consistency.{IsConsistent}
use ubedtech.Enrollment.History.{Reaches, here, administered}
use ubedtech.Enrollment.Guarantee.{IsGuaranteed}
use ubedtech.Enrollment.Guarantee.Registering.{register_for_guaranteed}
use ubedtech.Academics.State.{
  ℤ, I32, AcademicsDb, CreateSectionCommand, required_trimmed, write_audit, with_registration,
}
use ubedtech.Academics.Catalogue.{create_course}
use ubedtech.Academics.Sections.{
  create_section, non_negative, insert_section, update_capacity, section_capacity_guarantee,
  set_section_capacity,
}
use ubedtech.Academics.Changes.{section_created}
use ubedtech.Academics.Seats.{Answer, set_section_capacity_lem}

abbrev registrar : Actor
registrar = record {
  user_id = 3;
  institution_id = 1;
  student_id = none;
  roles = Role.registrar ∷ [];
}

abbrev dana : Actor
dana = record { user_id = 7; institution_id = 1; student_id = some 42; roles = Role.student ∷ [] }

abbrev fall : AcademicTerm
fall = record { institution_id = 1; registration_opens_at = 100; add_drop_closes_at = 200 }

-- A term and a course, and no section yet.
abbrev new_term : AcademicsDb
new_term = record {
  registration = record {
    section = λ s. none;
    academic_term = λ t. if t == 10 then some fall else none;
    section_capacity = λ s. none;
    enrollment = [];
    registration_override = [];
    student_term_registration = λ s t. none;
    section_meeting = [];
    course_prerequisite = [];
    best_grade_points = λ s c. none;
    student_profile = λ s. none;
    audit_event = [];
  };
  term_detail = [];
  course =
      record {
        id = 20;
        institution_id = 1;
        code = "CS";
        title = "Computing";
        credit_hours = 30;
        active = true;
      }
      ∷ [];
  section_key = [];
  room = [];
  meeting_detail = [];
  instructor_assignment = [];
  user_account = λ u. none;
}

abbrev two : I32
two = record { value = ℤ.pos 2; in_range = refl }

abbrev opening : CreateSectionCommand
opening = record { term_id = 10; course_id = 20; section_code = " A "; capacity = two }

abbrev two_seats : SectionCapacity
two_seats = record { capacity = 2; enrolled_count = 0; version = 1 }

abbrev one_section : AcademicsDb
one_section = write_audit registrar "academics.section_created" "section" 5 (
    with_registration
      (record (insert_section 5 1 "A" opening new_term).registration {
        section_capacity =
            upsert 5 two_seats
              (insert_section 5 1 "A" opening new_term).registration.section_capacity;
      })
      (insert_section 5 1 "A" opening new_term))

opens : create_section 5 registrar opening new_term ≡ ok (5, one_section)
unfolding create_section required_trimmed trim trim_start trim_end is_whitespace is_blank all_chars
    non_negative update_capacity insert_section section_capacity_guarantee
opens = refl

-- A course of two hundredths of an hour passes the validation and fails in the database.
refuses_tiny :
    create_course 21 registrar
      (record { code = "T"; title = "Tiny"; credit_hours = ℤ.pos 2 })
      new_term
    ≡ err database
unfolding create_course required_trimmed trim trim_start trim_end is_whitespace is_blank all_chars
refuses_tiny = refl

new_term-IsConsistent : IsConsistent new_term.registration
new_term-IsConsistent = record {
  counted = λ s c h. ground arith;
  within = λ s c h. ground arith;
  placed = λ s h. refl;
  single = λ st s. omega arith;
  keyed = λ i st k. omega arith;
  identified = λ id. omega arith;
}

new_term-IsGuaranteed : IsGuaranteed new_term.registration
new_term-IsGuaranteed = record { guaranteed = λ s x h e. ground arith }

opened : Reaches new_term.registration one_section.registration
opened = administered new_term one_section here (section_created 5 registrar opening opens)

abbrev env : Env
env = record { now = 150; tx_now = 150; new_id = 900; locked = [] }

abbrev command : RegisterCommand
command = record { section_id = 5; idempotency_key = 77 }

register_for_guaranteed_example :
    register_for env dana 42 command one_section.registration one_section.registration
    ≢ err (app (integrity "no row"))
register_for_guaranteed_example =
    register_for_guaranteed env dana 42 command "no row" {s = new_term.registration}
      {b = one_section.registration} {a = one_section.registration} new_term-IsGuaranteed opened
      here

abbrev a_section : Section
a_section = record {
  institution_id = 1;
  term_id = 10;
  course_id = 20;
  status = SectionStatus.opened;
}

abbrev seven : I32
seven = record { value = ℤ.pos 7; in_range = refl }

set_section_capacity_lem_example :
    (c : SectionCapacity) × (one_section.registration.section_capacity 5 ≡ some c)
    × Answer 5 7 c one_section
        (leb (count_where (active_in 5) one_section.registration.enrollment) 7)
        (set_section_capacity registrar 5 seven one_section)
unfolding insert_section
set_section_capacity_lem_example =
    set_section_capacity_lem registrar 5 7 seven new_term.registration one_section a_section
      new_term-IsConsistent new_term-IsGuaranteed opened refl refl refl refl
