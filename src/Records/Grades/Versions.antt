-- ===== src/Records/Grades/Versions.antt =====
-- Versions: the states that the operations on grades lead to, and optimistic locking.
use ubedtech.Prelude.{ℕ, ◌+◌, ◌≡◌, ◌≢◌, refl, ◌∙◌, true, some, arith, find_where, inl, inr}
use ubedtech.Prelude.Counts.{find-update}
use ubedtech.Shared.Actor.{Actor, Role, has_role}
use ubedtech.Shared.Error.{ok, Result-cases}
use ubedtech.Records.State.{
  GradeRecord, GradedEnrollment, RecordsDb, GradeEnv, SaveGradeCommand, CorrectGradeCommand,
  is_draft,
}
use ubedtech.Records.Grades.{
  validate_grade_code, update_grades, grade_entry_context, check_instructor, graded, has_grade_id,
  set_draft, new_grade, write_draft, changed_draft, created_draft, save_draft, correct_grade,
  publish_section,
}
use ubedtech.Records.Grades.History.{IsRecorded}
use ubedtech.Records.Grades.Operations.{
  save_draft_inv, save_draft-IsRecorded, correct_grade-IsRecorded, publish_section-IsRecorded,
}

-- `GradeReaches s d`: the operations of the grade service lead from `s` to `d`.
pub data GradeReaches (s : RecordsDb) : RecordsDb → Type 0 where
  here : GradeReaches s s
  draft_saved :
      {a : RecordsDb} (env : GradeEnv) (actor : Actor) (command : SaveGradeCommand)
      (out : ℕ × RecordsDb)
      → GradeReaches s a
      → save_draft env actor command a ≡ ok out
      → GradeReaches s out.1
  grade_corrected :
      {a : RecordsDb} (actor : Actor) (command : CorrectGradeCommand) (out : ℕ × RecordsDb)
      → GradeReaches s a
      → correct_grade actor command a ≡ ok out
      → GradeReaches s out.1
  section_published :
      {a : RecordsDb} (env : GradeEnv) (actor : Actor) (section_id : ℕ) (out : ℕ × RecordsDb)
      → GradeReaches s a
      → publish_section env actor section_id a ≡ ok out
      → GradeReaches s out.1

-- In every state that the operations reach, ids and enrollments of grades are unique, and a grade
-- of version n has exactly n - 1 captured revisions.
pub GradeReaches-IsRecorded : {s d : RecordsDb} → IsRecorded s → GradeReaches s d → IsRecorded d
GradeReaches-IsRecorded v here = v
GradeReaches-IsRecorded v (draft_saved {a = a} env actor command out r h) =
    save_draft-IsRecorded env actor command a out (GradeReaches-IsRecorded v r) h
GradeReaches-IsRecorded v (grade_corrected {a = a} actor command out r h) =
    correct_grade-IsRecorded actor command a out (GradeReaches-IsRecorded v r) h
GradeReaches-IsRecorded v (section_published {a = a} env actor section_id out r h) =
    publish_section-IsRecorded env actor section_id a out (GradeReaches-IsRecorded v r) h

-- What a saved draft leaves under its enrollment: a draft of the returned version.
save_draft_found :
    (env : GradeEnv) (actor : Actor) (command : SaveGradeCommand) (db : RecordsDb)
    (out : ℕ × RecordsDb)
    → save_draft env actor command db ≡ ok out
    → (g : GradeRecord) × (find_where (graded command.enrollment_id) out.1.grade_record ≡ some g)
      × (is_draft g ≡ true)
      × (g.version ≡ out.0)
      × (out.0 ≡ command.expected_version + 1)
unfolding changed_draft created_draft update_grades
save_draft_found env actor command db out h = elim (save_draft_inv env actor command db out h) [
  | inl (old, found, draft, same, written) ↦
      let moved =
        find-update (has_grade_id old.id) (graded command.enrollment_id) (set_draft actor command)
          db.grade_record (λ g. refl) in
      (set_draft actor command old, ground arith, refl, ground arith, ground arith)
  | inr (absent, zero, fresh, written) ↦
      (new_grade env actor command, ground arith, refl, ground arith, ground arith)
]

-- Optimistic locking: of two drafts saved for one enrollment with the same expected version, the
-- second is refused, whoever saves it and whatever it holds.
pub save_draft-save_draft_stale :
    (env env' : GradeEnv) (actor actor' : Actor) (command stale : SaveGradeCommand) (db : RecordsDb)
    (out again : ℕ × RecordsDb)
    → save_draft env actor command db ≡ ok out
    → stale.enrollment_id ≡ command.enrollment_id
    → stale.expected_version ≡ command.expected_version
    → save_draft env' actor' stale out.1 ≢ ok again
save_draft-save_draft_stale env env' actor actor' command stale db out again h e k second =
    let (g, found, _, version, next) = save_draft_found env actor command db out h in
    elim (save_draft_inv env' actor' stale out.1 again second) [
      | inl (old, found', _, same, _) ↦ absurd (ground arith)
      | inr (absent, _, _, _) ↦ absurd (ground arith)
    ]

-- A save reads no enrollment that it wrote.
save_draft_enrollment :
    (env : GradeEnv) (actor : Actor) (command : SaveGradeCommand) (db : RecordsDb)
    (out : ℕ × RecordsDb)
    → save_draft env actor command db ≡ ok out
    → out.1.enrollment ≡ db.enrollment
unfolding changed_draft created_draft update_grades
save_draft_enrollment env actor command db out h =
    elim (save_draft_inv env actor command db out h) [
      | inl (old, _, _, _, written) ↦ ground arith
      | inr (_, _, _, written) ↦ ground arith
    ]

save_draft_context :
    (env : GradeEnv) (actor : Actor) (command : SaveGradeCommand) (db : RecordsDb)
    (out : ℕ × RecordsDb)
    → save_draft env actor command db ≡ ok out
    → (c : GradedEnrollment) × (grade_entry_context actor.institution_id command.enrollment_id db
        ≡ ok c)
unfolding save_draft
save_draft_context env actor command db out h =
    elim (Result-cases (grade_entry_context actor.institution_id command.enrollment_id db)) [
      | inl (c, e) ↦ (c, e)
      | inr (x, e) ↦ absurd (ground arith)
    ]

grade_entry_context_same :
    (i e : ℕ) (a b : RecordsDb)
    → a.enrollment ≡ b.enrollment
    → grade_entry_context i e a ≡ grade_entry_context i e b
unfolding grade_entry_context
grade_entry_context_same i e a b h = rw h

-- The version that a save returns is the one that the next save must expect: with it, a records
-- officer who saved the draft saves it again, and the version counts up by one.
pub save_draft-save_draft :
    (env env' : GradeEnv) (actor : Actor) (command next : SaveGradeCommand) (db : RecordsDb)
    (out : ℕ × RecordsDb)
    → save_draft env actor command db ≡ ok out
    → has_role actor Role.records_officer ≡ true
    → validate_grade_code next.grade_code ≡ ok tt
    → next.enrollment_id ≡ command.enrollment_id
    → next.expected_version ≡ out.0
    → (d : RecordsDb) × (save_draft env' actor next out.1 ≡ ok (out.0 + 1, d))
unfolding save_draft check_instructor write_draft
save_draft-save_draft env env' actor command next db out h officer valid e k =
    let (g, found, draft, version, _) = save_draft_found env actor command db out h in
    let (c, known) = save_draft_context env actor command db out h in
    let same : grade_entry_context actor.institution_id command.enrollment_id out.1 ≡ ok c =
      grade_entry_context_same actor.institution_id command.enrollment_id out.1 db
        (save_draft_enrollment env actor command db out h)
      ∙ known in
    (changed_draft actor next g out.1, ground arith)
