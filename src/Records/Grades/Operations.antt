-- ===== src/Records/Grades/Operations.antt =====
-- Each operation on grades: how it ends, and that it keeps the revision history complete.
use mathlib.Core.Path.{subst}
use ubedtech.Prelude.{
  ℕ, ◌+◌, ◌≡◌, refl, sym, true, false, ◌&&◌, none, some, arith, ◌==◌, find_where, exists_where,
  Option-cases, inl, inr, ◌⊎◌,
}
use ubedtech.Shared.Actor.{Actor}
use ubedtech.Shared.Error.{ok}
use ubedtech.Records.State.{
  GradeRecord, RecordsDb, GradeEnv, SaveGradeCommand, CorrectGradeCommand, is_draft,
}
use ubedtech.Records.Grades.{
  graded, has_grade_id, set_draft, write_draft, changed_draft, created_draft, save_draft,
  set_amended, corrected, correct_grade, publishable, set_published, published, publish_section,
}
use ubedtech.Records.Grades.History.{
  IsRecorded, update_grades-IsRecorded, new_grade-IsRecorded, write_audit-IsRecorded,
}

changed_draft-IsRecorded :
    (actor : Actor) (command : SaveGradeCommand) (old : GradeRecord) (db : RecordsDb)
    → IsRecorded db
    → IsRecorded (changed_draft actor command old db)
unfolding changed_draft
changed_draft-IsRecorded actor command old db v =
    write_audit-IsRecorded actor "grade.draft_changed" "grade_record" old.id _ (
      update_grades-IsRecorded (has_grade_id old.id) (set_draft actor command) db v (λ g. refl)
        (λ g. refl) (λ g. refl))

created_draft-IsRecorded :
    (env : GradeEnv) (actor : Actor) (command : SaveGradeCommand) (db : RecordsDb)
    → IsRecorded db
    → find_where (graded command.enrollment_id) db.grade_record ≡ none
    → exists_where (has_grade_id env.new_id) db.grade_record ≡ false
    → IsRecorded (created_draft env actor command db)
unfolding created_draft
created_draft-IsRecorded env actor command db v absent fresh =
    write_audit-IsRecorded actor "grade.draft_created" "grade_record" env.new_id _
      (new_grade-IsRecorded env actor command db v absent fresh)

-- How saving a draft ends: a draft of the expected version was changed, or a first one was made.
pub save_draft_inv :
    (env : GradeEnv) (actor : Actor) (command : SaveGradeCommand) (db : RecordsDb)
    (out : ℕ × RecordsDb)
    → save_draft env actor command db ≡ ok out
    → ((old : GradeRecord) × (find_where (graded command.enrollment_id) db.grade_record ≡ some old)
        × (is_draft old ≡ true)
        × (old.version ≡ command.expected_version)
        × (out ≡ (old.version + 1, changed_draft actor command old db)))
      ⊎ ((find_where (graded command.enrollment_id) db.grade_record ≡ none)
          × (command.expected_version ≡ 0)
          × (exists_where (has_grade_id env.new_id) db.grade_record ≡ false)
          × (out ≡ (1, created_draft env actor command db)))
unfolding save_draft write_draft
save_draft_inv env actor command db out h =
    elim (Option-cases (find_where (graded command.enrollment_id) db.grade_record)) [
      | inl absent ↦ inr (absent, ground arith, ground arith, ground arith)
      | inr (old, found) ↦ inl (old, found, ground arith, ground arith, ground arith)
    ]

-- Saving a draft keeps the history complete.
pub save_draft-IsRecorded :
    (env : GradeEnv) (actor : Actor) (command : SaveGradeCommand) (db : RecordsDb)
    (out : ℕ × RecordsDb)
    → IsRecorded db
    → save_draft env actor command db ≡ ok out
    → IsRecorded out.1
save_draft-IsRecorded env actor command db out v h =
    elim (save_draft_inv env actor command db out h) [
      | inl (old, _, _, _, written) ↦
          subst (λ (o : ℕ × RecordsDb). IsRecorded o.1) (sym written)
            (changed_draft-IsRecorded actor command old db v)
      | inr (absent, _, fresh, written) ↦
          subst (λ (o : ℕ × RecordsDb). IsRecorded o.1) (sym written)
            (created_draft-IsRecorded env actor command db v absent fresh)
    ]

-- How a correction ends: a grade that is not a draft, of the expected version, was amended.
pub correct_grade_inv :
    (actor : Actor) (command : CorrectGradeCommand) (db : RecordsDb) (out : ℕ × RecordsDb)
    → correct_grade actor command db ≡ ok out
    → (old : GradeRecord) × (find_where
          (λ g. graded command.enrollment_id g && (g.institution_id == actor.institution_id))
          db.grade_record
        ≡ some old)
      × (is_draft old ≡ false)
      × (old.version ≡ command.expected_version)
      × (out ≡ (old.version + 1, corrected actor command old db))
unfolding correct_grade
correct_grade_inv actor command db out h =
    elim (Option-cases (
      find_where (λ g. graded command.enrollment_id g && (g.institution_id == actor.institution_id))
        db.grade_record)) [
          | inl absent ↦ absurd (ground arith)
          | inr (old, found) ↦ (old, found, ground arith, ground arith, ground arith)
        ]

corrected-IsRecorded :
    (actor : Actor) (command : CorrectGradeCommand) (old : GradeRecord) (db : RecordsDb)
    → IsRecorded db
    → IsRecorded (corrected actor command old db)
unfolding corrected
corrected-IsRecorded actor command old db v =
    write_audit-IsRecorded actor "grade.corrected" "grade_record" old.id _ (
      update_grades-IsRecorded (has_grade_id old.id) (set_amended actor command) db v (λ g. refl)
        (λ g. refl) (λ g. refl))

-- A correction keeps the history complete.
pub correct_grade-IsRecorded :
    (actor : Actor) (command : CorrectGradeCommand) (db : RecordsDb) (out : ℕ × RecordsDb)
    → IsRecorded db
    → correct_grade actor command db ≡ ok out
    → IsRecorded out.1
correct_grade-IsRecorded actor command db out v h =
    let (old, _, _, _, written) = correct_grade_inv actor command db out h in
    subst (λ (o : ℕ × RecordsDb). IsRecorded o.1) (sym written)
      (corrected-IsRecorded actor command old db v)

published-IsRecorded :
    (env : GradeEnv) (actor : Actor) (section_id : ℕ) (db : RecordsDb)
    → IsRecorded db
    → IsRecorded (published env actor section_id db)
unfolding published
published-IsRecorded env actor section_id db v =
    write_audit-IsRecorded actor "grade.section_published" "section" section_id _ (
      update_grades-IsRecorded (publishable actor section_id db) (set_published env) db v
        (λ g. refl) (λ g. refl) (λ g. refl))

-- Publishing a section keeps the history complete.
pub publish_section-IsRecorded :
    (env : GradeEnv) (actor : Actor) (section_id : ℕ) (db : RecordsDb) (out : ℕ × RecordsDb)
    → IsRecorded db
    → publish_section env actor section_id db ≡ ok out
    → IsRecorded out.1
unfolding publish_section
publish_section-IsRecorded env actor section_id db out v h =
    let same : published env actor section_id db ≡ out.1 = ground arith in
    subst (λ (d : RecordsDb). IsRecorded d) same (published-IsRecorded env actor section_id db v)
