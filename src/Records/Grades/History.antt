-- ===== src/Records/Grades/History.antt =====
-- The revision history of grades: every update is captured, and no version is lost.
use ubedtech.Prelude.{
  ℕ, String, ◌+◌, ◌≤◌, ◌≡◌, refl, Bool, false, ◌&&◌, none, some, List, [], ◌∷◌, map, arith, ◌==◌,
  find_where, count_where, exists_where, select_where, Option-cases, inl, inr,
}
use ubedtech.Prelude.Counts.{
  count_unique, count-append, count-update_same, find-update, count-exists, count-find_none,
  count_mono, exists-find_none,
}
use ubedtech.Shared.Actor.{Actor}
use ubedtech.Records.State.{GradeRecord, GradeRevision, RecordsDb, GradeEnv, SaveGradeCommand}
use ubedtech.Records.Grades.{
  capture_revision, update_grades, write_audit, graded, has_grade_id, new_grade,
}

-- The captured revisions of a record.
abbrev pub revises : ℕ → GradeRevision → Bool
revises id r = r.grade_record_id == id

-- Keys are unique, and a record has as many captured revisions as it has had earlier versions.
pub record IsRecorded (db : RecordsDb) : Type 0 where
  pub identified : (id : ℕ) → count_where (has_grade_id id) db.grade_record ≤ 1
  pub one_each : (e : ℕ) → count_where (graded e) db.grade_record ≤ 1
  pub complete :
      (id : ℕ) (g : GradeRecord)
      → find_where (has_grade_id id) db.grade_record ≡ some g
      → count_where (revises id) db.grade_revision + 1 ≡ g.version
  pub no_orphan :
      (id : ℕ)
      → find_where (has_grade_id id) db.grade_record ≡ none
      → count_where (revises id) db.grade_revision ≡ 0

-- An update captures one revision for each row that it hits.
count-captured :
    (id : ℕ) (p : GradeRecord → Bool) (rows : List GradeRecord)
    → count_where (revises id) (map capture_revision (select_where p rows))
      ≡ count_where (λ g. has_grade_id id g && p g) rows
count-captured id p [] = refl
count-captured id p (g ∷ rows) = ground (arith, count-captured id p rows)

-- An update that keeps keys and counts the version up keeps the history complete.
module _ (p : GradeRecord → Bool) (f : GradeRecord → GradeRecord) (db : RecordsDb)
    (v : IsRecorded db) (same_id : (g : GradeRecord) → (f g).id ≡ g.id)
    (same_enrollment : (g : GradeRecord) → (f g).enrollment_id ≡ g.enrollment_id)
    (next : (g : GradeRecord) → (f g).version ≡ g.version + 1) where
  keeps_id : (id : ℕ) (g : GradeRecord) → has_grade_id id (f g) ≡ has_grade_id id g
  keeps_id id g = ground (arith, same_id g)

  keeps_enrollment : (e : ℕ) (g : GradeRecord) → graded e (f g) ≡ graded e g
  keeps_enrollment e g = ground (arith, same_enrollment g)

  captures :
      (id : ℕ)
      → count_where (revises id) (update_grades p f db).grade_revision
        ≡ count_where (λ g. has_grade_id id g && p g) db.grade_record
          + count_where (revises id) db.grade_revision
  unfolding update_grades
  captures id = omega (
    arith,
    count-append (revises id) (map capture_revision (select_where p db.grade_record))
        db.grade_revision,
    count-captured id p db.grade_record,
  )

  complete_at :
      (id : ℕ) (g : GradeRecord)
      → find_where (has_grade_id id) (update_grades p f db).grade_record ≡ some g
      → count_where (revises id) (update_grades p f db).grade_revision + 1 ≡ g.version
  unfolding update_grades
  complete_at id g h =
      let moved = find-update p (has_grade_id id) f db.grade_record (keeps_id id) in
      elim (Option-cases (find_where (has_grade_id id) db.grade_record)) [
        | inl missing ↦ absurd (ground arith)
        | inr (g0, found) ↦ ground (
          arith,
          next g0,
          captures id,
          v.complete id g0 found,
          count_unique p (has_grade_id id) db.grade_record found (v.identified id),
        )
      ]

  orphan_at :
      (id : ℕ)
      → find_where (has_grade_id id) (update_grades p f db).grade_record ≡ none
      → count_where (revises id) (update_grades p f db).grade_revision ≡ 0
  unfolding update_grades
  orphan_at id h =
      let moved = find-update p (has_grade_id id) f db.grade_record (keeps_id id) in
      elim (Option-cases (find_where (has_grade_id id) db.grade_record)) [
        | inl missing ↦
            let none_hit =
              count_mono (λ g. has_grade_id id g && p g) (has_grade_id id) db.grade_record
                (λ g. ground arith) in
            omega (
              arith,
              captures id,
              v.no_orphan id missing,
              count-find_none (has_grade_id id) db.grade_record missing,
            )
        | inr (g0, found) ↦ absurd (ground arith)
      ]

  pub update_grades-IsRecorded : IsRecorded (update_grades p f db)
  unfolding update_grades
  update_grades-IsRecorded = record {
    identified = λ id. omega (
      arith,
      v.identified id,
      count-update_same p (has_grade_id id) f db.grade_record (keeps_id id),
    );
    one_each = λ e. omega (
      arith,
      v.one_each e,
      count-update_same p (graded e) f db.grade_record (keeps_enrollment e),
    );
    complete = complete_at;
    no_orphan = orphan_at;
  }

-- A first grade of an enrollment starts a history of its own.
pub new_grade-IsRecorded :
    (env : GradeEnv) (actor : Actor) (command : SaveGradeCommand) (db : RecordsDb)
    → IsRecorded db
    → find_where (graded command.enrollment_id) db.grade_record ≡ none
    → exists_where (has_grade_id env.new_id) db.grade_record ≡ false
    → IsRecorded (record db { grade_record = new_grade env actor command ∷ db.grade_record })
new_grade-IsRecorded env actor command db v absent fresh = record {
  identified =
      λ id. ground (arith, v.identified id, count-exists (has_grade_id env.new_id) db.grade_record);
  one_each = λ e.
      ground (arith, v.one_each e, count-find_none (graded command.enrollment_id) db.grade_record);
  complete = λ id g h. ground (
    arith,
    v.complete id g,
    v.no_orphan env.new_id (exists-find_none (has_grade_id env.new_id) db.grade_record fresh),
  );
  no_orphan = λ id h. ground (arith, v.no_orphan id);
}

pub write_audit-IsRecorded :
    (actor : Actor) (action resource : String) (id : ℕ) (db : RecordsDb)
    → IsRecorded db
    → IsRecorded (write_audit actor action resource id db)
write_audit-IsRecorded actor action resource id db v = record {
  identified = v.identified;
  one_each = v.one_each;
  complete = v.complete;
  no_orphan = v.no_orphan;
}
