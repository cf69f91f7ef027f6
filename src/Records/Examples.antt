-- ===== src/Records/Examples.antt =====
-- One enrollment and its grade, and the theorems of the records service at it.
use ubedtech.Prelude.{
  ℕ, ◌*◌, ◌≤◌, ◌≡◌, ◌≢◌, refl, true, none, some, [], ◌∷◌, arith, ◌==◌, if◌then◌else◌, find_where,
  count_where, ◌+◌,
}
use ubedtech.Shared.Actor.{Actor, Role}
use ubedtech.Shared.Error.{ok, err, database}
use ubedtech.Shared.Text.{is_blank}
use ubedtech.Records.State.{
  GradeRecord, GradedEnrollment, RecordsDb, GradeEnv, SaveGradeCommand, is_visible,
}
use ubedtech.Records.Grades.{
  validate_grade_code, save_draft, write_draft, created_draft, grade_entry_context,
  check_instructor, update_grades, new_grade, publish_section, published, publishable,
  set_published, has_grade_id, changed_draft,
}
use ubedtech.Records.Grades.History.{IsRecorded}
use ubedtech.Records.Grades.Kept.{IsKept, GradeReaches-IsKept}
use ubedtech.Records.Grades.Versions.{
  GradeReaches, here, draft_saved, section_published, GradeReaches-IsRecorded,
  save_draft-save_draft_stale, save_draft-save_draft,
}
use ubedtech.Records.Grades.Publishing.{Publication, publish_section_lem, GradeReaches-is_visible}
use ubedtech.Records.Completion.{best_grade_points, publish_section-meets_prerequisite}
use ubedtech.Enrollment.State.{Db, CoursePrerequisite}
use ubedtech.Enrollment.Register.{meets_prerequisite}
use ubedtech.Records.Gpa.{Float8, term_gpa}

abbrev renee : Actor
renee = record {
  user_id = 3;
  institution_id = 1;
  student_id = none;
  roles = Role.records_officer ∷ [];
}

abbrev algebra : GradedEnrollment
algebra = record {
  institution_id = 1;
  student_id = 42;
  section_id = 5;
  course_id = 20;
  term_id = 10;
  credit_hours = 30;
  grade_entry_closes_at = some 500;
}

abbrev no_grades : RecordsDb
no_grades = record {
  enrollment = λ e. if e == 900 then some algebra else none;
  instructor_assignment = [];
  grade_record = [];
  grade_revision = [];
  audit_event = [];
}

abbrev env : GradeEnv
env = record { now = 400; tx_now = 400; new_id = 70 }

abbrev give_b : SaveGradeCommand
give_b = record {
  enrollment_id = 900;
  grade_code = "B";
  grade_points = some 300;
  numeric_value = none;
  expected_version = 0;
}

abbrev give_a : SaveGradeCommand
give_a = record give_b { grade_code = "A"; grade_points = some 400; expected_version = 1 }

abbrev drafted : RecordsDb
drafted = created_draft env renee give_b no_grades

saves : save_draft env renee give_b no_grades ≡ ok (1, drafted)
unfolding save_draft write_draft created_draft validate_grade_code grade_entry_context
    check_instructor is_blank
saves = refl

no_grades-IsRecorded : IsRecorded no_grades
no_grades-IsRecorded = record {
  identified = λ id. omega arith;
  one_each = λ e. omega arith;
  complete = λ id g h. cc;
  no_orphan = λ id h. refl;
}

reaches_draft : GradeReaches no_grades drafted
reaches_draft = draft_saved env renee give_b (1, drafted) here saves

-- The draft is changed: its first content is in a revision.
abbrev first_draft : GradeRecord
first_draft = new_grade env renee give_b

abbrev changed : RecordsDb
changed = changed_draft renee give_a first_draft drafted

saves_again : save_draft env renee give_a drafted ≡ ok (2, changed)
unfolding save_draft write_draft changed_draft created_draft validate_grade_code grade_entry_context
    check_instructor is_blank
saves_again = refl

GradeReaches-IsKept_example : IsKept 70 first_draft changed × IsRecorded changed
unfolding created_draft
GradeReaches-IsKept_example =
    GradeReaches-IsKept 70 first_draft (GradeReaches-IsRecorded no_grades-IsRecorded reaches_draft)
      (draft_saved env renee give_a (2, changed) here saves_again) refl

save_draft-save_draft_stale_example : save_draft env renee give_b drafted ≢ ok (1, drafted)
save_draft-save_draft_stale_example =
    save_draft-save_draft_stale env env renee renee give_b give_b no_grades (1, drafted)
      (1, drafted) saves refl refl

save_draft-save_draft_example : (d : RecordsDb) × (save_draft env renee give_a drafted ≡ ok (2, d))
unfolding validate_grade_code is_blank
save_draft-save_draft_example =
    save_draft-save_draft env env renee give_b give_a no_grades (1, drafted) saves refl refl refl
      refl

publish_section_lem_example :
    (d : RecordsDb) × (publish_section env renee 5 drafted
      ≡ ok (count_where (publishable renee 5 drafted) drafted.grade_record, d))
    × (count_where (publishable renee 5 d) d.grade_record ≡ 0)
    × ((id : ℕ) (g : GradeRecord)
        → find_where (has_grade_id id) drafted.grade_record ≡ some g
        → (g' : GradeRecord) × (find_where (has_grade_id id) d.grade_record ≡ some g')
          × Publication env (publishable renee 5 drafted g) g g')
publish_section_lem_example = publish_section_lem env renee 5 drafted refl

abbrev seen : RecordsDb
seen = published env renee 5 drafted

publishes : publish_section env renee 5 drafted ≡ ok (1, seen)
unfolding publish_section publishable created_draft
publishes = refl

-- Registration sees these grades, and a course that asks for algebra with 2.00 points.
abbrev registration : Db
registration = record {
  section = λ s. none;
  academic_term = λ t. none;
  section_capacity = λ s. none;
  enrollment = [];
  registration_override = [];
  student_term_registration = λ s t. none;
  section_meeting = [];
  course_prerequisite = [];
  best_grade_points = best_grade_points seen;
  student_profile = λ s. none;
  audit_event = [];
}

abbrev after_algebra : CoursePrerequisite
after_algebra = record { course_id = 21; prerequisite_course_id = 20; minimum_grade_points = 200 }

publish_section-meets_prerequisite_example : meets_prerequisite 42 registration after_algebra ≡ true
unfolding created_draft publishable
publish_section-meets_prerequisite_example =
    publish_section-meets_prerequisite env renee 5 70 300 drafted (new_grade env renee give_b)
      algebra (1, seen) registration after_algebra publishes refl refl refl refl refl refl refl
      (omega arith)

GradeReaches-is_visible_example :
    (g' : GradeRecord) × (find_where (has_grade_id 70) seen.grade_record ≡ some g')
    × (is_visible g' ≡ true)
    × (2 ≤ g'.version)
unfolding published update_grades created_draft publishable
GradeReaches-is_visible_example =
    GradeReaches-is_visible 70 (set_published env (new_grade env renee give_b))
      (GradeReaches-IsRecorded no_grades-IsRecorded
        (section_published env renee 5 (1, seen) reaches_draft publishes))
      here refl refl

-- An incomplete carries no points.
abbrev incomplete : RecordsDb
incomplete = record no_grades {
  grade_record =
      record (set_published env (new_grade env renee give_b)) {
        grade_code = "I";
        grade_points = none;
      }
      ∷ [];
}

-- Stands for the arithmetic of `float8`.
abbrev exact : Float8 ℕ
exact = record { of_credits = λ n. n; weigh = λ p h. p * h; add = λ a b. a + b }

incomplete_fails : term_gpa exact 42 1 10 incomplete ≡ err database
unfolding term_gpa
incomplete_fails = refl
