-- ===== src/Academics/Catalogue.antt =====
-- backend/src/academics/service.rs: terms, courses and prerequisites. A unique constraint that an
-- insert violates, that on the new id included, is a conflict (`conflict_on_unique`).
use Prim.Native.String.{String}
use text.Mathlib.Text.{◌==◌ as str_eq}
use ubedtech.Prelude.{
  ℕ, ◌+◌, ◌/◌, Bool, true, ◌&&◌, ◌||◌, not, Option, none, some, ◌∷◌, ltb, leb, ◌==◌, if◌then◌else◌,
  is_none, exists_where, count_where, update_where, upsert,
}
use ubedtech.Shared.Actor.{Actor}
use ubedtech.Shared.Error.{
  Result, ok, err, ◌>>=◌, ◌>>◌, guard, AppError, not_found, validation, conflict, database,
}
use ubedtech.Enrollment.State.{AcademicTerm, CoursePrerequisite}
use ubedtech.Academics.State.{
  ℤ, TermDetail, Course, AcademicsDb, CreateTermCommand, CreateCourseCommand, UpdateWindowsCommand,
  AddPrerequisiteCommand, require_can_manage_academics, required_trimmed, write_audit,
}

-- `UNIQUE (institution_id, code)`, and the primary key.
abbrev pub clashes_term : ℕ → ℕ → String → TermDetail → Bool
clashes_term id institution_id code t =
    (t.id == id) || ((t.institution_id == institution_id) && str_eq t.code code)

-- A row of `academic_term` is in both tables.
unfoldable pub insert_term : ℕ → ℕ → String → String → CreateTermCommand → AcademicsDb → AcademicsDb
insert_term term_id institution_id code name command db = record db {
  registration = record db.registration {
    academic_term =
        upsert term_id
          (record {
            institution_id = institution_id;
            registration_opens_at = command.registration_opens_at;
            add_drop_closes_at = command.add_drop_closes_at;
          })
          db.registration.academic_term;
  };
  term_detail =
      record {
        id = term_id;
        institution_id = institution_id;
        code = code;
        name = name;
        starts_on = command.starts_on;
        ends_on = command.ends_on;
        grade_entry_closes_at = command.grade_entry_closes_at;
      }
      ∷ db.term_detail;
}

unfoldable pub create_term :
    ℕ → Actor → CreateTermCommand → AcademicsDb → Result AppError (ℕ × AcademicsDb)
unfolding insert_term
create_term new_id actor command db = do
  require_can_manage_academics actor
  code ← required_trimmed command.code "term code"
  name ← required_trimmed command.name "term name"
  guard (leb command.starts_on command.ends_on) (validation "term must start before it ends")
  guard (ltb command.registration_opens_at command.add_drop_closes_at)
      (validation "registration must open before add/drop closes")
  guard
      (is_none (db.registration.academic_term new_id)
        && not (exists_where (clashes_term new_id actor.institution_id code) db.term_detail))
      (conflict "a term with this code already exists")
  ok (
    new_id,
    write_audit actor "academics.term_created" "academic_term" new_id
        (insert_term new_id actor.institution_id code name command db),
  )

-- `0.0 < credit_hours && credit_hours <= 99.0`
abbrev pub valid_credit_hours : ℤ → Option ℕ
valid_credit_hours (ℤ.pos n) = if ltb 0 n && leb n 9900 then some n else none
valid_credit_hours (ℤ.negsuc n) = none

-- The rounding of the column `numeric(4, 1)`.
abbrev pub to_tenths : ℕ → ℕ
to_tenths hundredths = (hundredths + 5) / 10

abbrev pub clashes_course : ℕ → ℕ → String → Course → Bool
clashes_course id institution_id code c =
    (c.id == id) || ((c.institution_id == institution_id) && str_eq c.code code)

unfoldable pub create_course :
    ℕ → Actor → CreateCourseCommand → AcademicsDb → Result AppError (ℕ × AcademicsDb)
create_course new_id actor command db = do
  require_can_manage_academics actor
  code ← required_trimmed command.code "course code"
  title ← required_trimmed command.title "course title"
  elim (valid_credit_hours command.credit_hours) [
    | none ↦ err (validation "credit hours must be between 0 and 99")
    | some hours ↦
        guard (ltb 0 (to_tenths hours)) database
        >> guard (not (exists_where (clashes_course new_id actor.institution_id code) db.course))
            (conflict "a course with this code already exists")
        >> ok (
          new_id,
          write_audit actor "academics.course_created" "course" new_id (record db {
            course =
                record {
                  id = new_id;
                  institution_id = actor.institution_id;
                  code = code;
                  title = title;
                  credit_hours = to_tenths hours;
                  active = true;
                }
                ∷ db.course;
          }),
        )
  ]

-- `id IN ($1, $2) AND institution_id = $3`
abbrev pub is_either_course : ℕ → ℕ → ℕ → Course → Bool
is_either_course institution_id a b c =
    ((c.id == a) || (c.id == b)) && (c.institution_id == institution_id)

abbrev pub is_prerequisite_of : ℕ → ℕ → CoursePrerequisite → Bool
is_prerequisite_of course_id prerequisite_course_id p =
    (p.course_id == course_id) && (p.prerequisite_course_id == prerequisite_course_id)

unfoldable pub add_prerequisite :
    Actor → ℕ → AddPrerequisiteCommand → AcademicsDb → Result AppError AcademicsDb
add_prerequisite actor course_id command db = do
  require_can_manage_academics actor
  guard (not (course_id == command.prerequisite_course_id))
      (validation "a course cannot be its own prerequisite")
  guard
      (count_where (is_either_course actor.institution_id course_id command.prerequisite_course_id)
          db.course
        == 2)
      not_found
  guard
      (not (
        exists_where (is_prerequisite_of course_id command.prerequisite_course_id)
          db.registration.course_prerequisite))
      (conflict "this prerequisite already exists")
  ok (
      write_audit actor "academics.prerequisite_added" "course" course_id (record db {
        registration = record db.registration {
          course_prerequisite =
              record {
                course_id = course_id;
                prerequisite_course_id = command.prerequisite_course_id;
                minimum_grade_points = command.minimum_grade_points;
              }
              ∷ db.registration.course_prerequisite;
        };
      }))

abbrev pub has_detail_id : ℕ → TermDetail → Bool
has_detail_id id t = t.id == id

unfoldable pub set_windows : ℕ → AcademicTerm → UpdateWindowsCommand → AcademicsDb → AcademicsDb
set_windows term_id term command db = record db {
  registration = record db.registration {
    academic_term =
        upsert term_id
          (record term {
            registration_opens_at = command.registration_opens_at;
            add_drop_closes_at = command.add_drop_closes_at;
          })
          db.registration.academic_term;
  };
  term_detail =
      update_where (has_detail_id term_id)
        (λ t. record t { grade_entry_closes_at = command.grade_entry_closes_at }) db.term_detail;
}

unfoldable pub update_term_windows :
    Actor → ℕ → UpdateWindowsCommand → AcademicsDb → Result AppError AcademicsDb
unfolding set_windows
update_term_windows actor term_id command db = do
  require_can_manage_academics actor
  guard (ltb command.registration_opens_at command.add_drop_closes_at)
      (validation "registration must open before add/drop closes")
  elim (db.registration.academic_term term_id) [
    | none ↦ err not_found
    | some term ↦
        if term.institution_id == actor.institution_id
        then ok (
            write_audit actor "academics.term_windows_updated" "academic_term" term_id
              (set_windows term_id term command db))
        else err not_found
  ]
