-- ===== src/Records/Grades/Kept.antt =====
-- What the trigger of 0013_grade_history.sql keeps: the content of every grade that was overwritten.
use mathlib.Core.Path.{subst}
use ubedtech.Prelude.{
  sym, exists_where, ℕ, ◌≡◌, refl, ◌⊎◌, inl, inr, Bool, true, false, some, List, [], ◌∷◌, ◌++◌, map,
  arith, find_where, select_where, Bool-cases,
}
use ubedtech.Prelude.Counts.{find-update, exists-find_none}
use ubedtech.Shared.Actor.{Actor}
use ubedtech.Shared.Error.{ok}
use ubedtech.Records.State.{
  GradeRecord, GradeRevision, RecordsDb, GradeEnv, SaveGradeCommand, CorrectGradeCommand,
}
use ubedtech.Records.Grades.{
  capture_revision, update_grades, has_grade_id, set_draft, changed_draft, created_draft,
  save_draft, set_amended, corrected, correct_grade, publishable, set_published, published,
  publish_section,
}
use ubedtech.Records.Grades.History.{IsRecorded}
use ubedtech.Records.Grades.Operations.{save_draft_inv, correct_grade_inv}
use ubedtech.Records.Grades.Versions.{
  GradeReaches, here, draft_saved, grade_corrected, section_published, GradeReaches-IsRecorded,
}

-- The revision holds what the grade held: its code and points, its state, its author, its version.
abbrev pub IsCopy : GradeRecord → GradeRevision → Type 0
IsCopy g r =
    (r.grade_record_id ≡ g.id)
    × (r.grade_code ≡ g.grade_code)
    × (r.grade_points ≡ g.grade_points)
    × (r.numeric_value ≡ g.numeric_value)
    × (r.state ≡ g.state)
    × (r.entered_by_user_id ≡ g.entered_by_user_id)
    × (r.version ≡ g.version)

-- One of the revisions is a copy of the grade.
abbrev pub HasCopy : GradeRecord → List GradeRevision → Type 0
HasCopy g [] = ⊥
HasCopy g (r ∷ rs) = IsCopy g r ⊎ HasCopy g rs

-- The grade `g` is the row of `id` still, or a revision holds what it was.
abbrev pub IsKept : ℕ → GradeRecord → RecordsDb → Type 0
IsKept id g db =
    (find_where (has_grade_id id) db.grade_record ≡ some g) ⊎ HasCopy g db.grade_revision

HasCopy-append :
    (g : GradeRecord) (new old : List GradeRevision) → HasCopy g old → HasCopy g (new ++ old)
HasCopy-append g [] old h = h
HasCopy-append g (r ∷ new) old h = inr (HasCopy-append g new old h)

HasCopy-append_left :
    (g : GradeRecord) (new old : List GradeRevision) → HasCopy g new → HasCopy g (new ++ old)
HasCopy-append_left g [] old h = absurd h
HasCopy-append_left g (r ∷ new) old (inl h) = inl h
HasCopy-append_left g (r ∷ new) old (inr h) = inr (HasCopy-append_left g new old h)

-- An update captures every row that it is going to overwrite.
HasCopy-select_where :
    (p q : GradeRecord → Bool) (g : GradeRecord) (rows : List GradeRecord)
    → find_where q rows ≡ some g
    → p g ≡ true
    → HasCopy g (map capture_revision (select_where p rows))
HasCopy-select_where p q g [] h hit = absurd (cc)
HasCopy-select_where p q g (x ∷ rows) h hit = elim (Bool-cases (q x)) [
  | inl it ↦
      let same : x ≡ g = ground arith in
      let hit_here : p x ≡ true = rw same hit in
      rw hit_here (inl (rw same (refl, refl, refl, refl, refl, refl, refl)))
  | inr other ↦
      let later = HasCopy-select_where p q g rows (ground arith) hit in
      elim (Bool-cases (p x)) [ inl too ↦ rw too (inr later) | inr not_too ↦ rw not_too later ]
]

update_grades-IsKept :
    (p : GradeRecord → Bool) (f : GradeRecord → GradeRecord) (db : RecordsDb) (id : ℕ)
    (g : GradeRecord)
    → ((x : GradeRecord) → (f x).id ≡ x.id)
    → IsKept id g db
    → IsKept id g (update_grades p f db)
unfolding update_grades
update_grades-IsKept p f db id g same_id (inr copied) = inr (
    HasCopy-append g (map capture_revision (select_where p db.grade_record)) db.grade_revision
      copied)
update_grades-IsKept p f db id g same_id (inl found) = elim (Bool-cases (p g)) [
  | inl hit ↦ inr (
      HasCopy-append_left g (map capture_revision (select_where p db.grade_record))
        db.grade_revision (HasCopy-select_where p (has_grade_id id) g db.grade_record found hit))
  | inr missed ↦
      let moved =
        find-update p (has_grade_id id) f db.grade_record (λ x. ground (arith, same_id x)) in
      inl (ground arith)
]

-- A first grade takes an id that no grade has.
new_grade-IsKept :
    (env : GradeEnv) (actor : Actor) (command : SaveGradeCommand) (db : RecordsDb) (id : ℕ)
    (g : GradeRecord)
    → exists_where (has_grade_id env.new_id) db.grade_record ≡ false
    → IsKept id g db
    → IsKept id g (created_draft env actor command db)
unfolding created_draft
new_grade-IsKept env actor command db id g fresh (inr copied) = inr copied
new_grade-IsKept env actor command db id g fresh (inl found) =
    let gone = exists-find_none (has_grade_id env.new_id) db.grade_record fresh in
    inl (ground arith)

save_draft-IsKept :
    (env : GradeEnv) (actor : Actor) (command : SaveGradeCommand) (db : RecordsDb)
    (out : ℕ × RecordsDb) (id : ℕ) (g : GradeRecord)
    → save_draft env actor command db ≡ ok out
    → IsKept id g db
    → IsKept id g out.1
unfolding changed_draft created_draft
save_draft-IsKept env actor command db out id g h kept =
    elim (save_draft_inv env actor command db out h) [
      | inl (old, found, _, _, written) ↦
          subst (λ (o : ℕ × RecordsDb). IsKept id g o.1) (sym written)
            (update_grades-IsKept (has_grade_id old.id) (set_draft actor command) db id g
              (λ x. refl) kept)
      | inr (absent, _, fresh, written) ↦
          subst (λ (o : ℕ × RecordsDb). IsKept id g o.1) (sym written)
            (new_grade-IsKept env actor command db id g fresh kept)
    ]

correct_grade-IsKept :
    (actor : Actor) (command : CorrectGradeCommand) (db : RecordsDb) (out : ℕ × RecordsDb) (id : ℕ)
    (g : GradeRecord)
    → correct_grade actor command db ≡ ok out
    → IsKept id g db
    → IsKept id g out.1
unfolding corrected
correct_grade-IsKept actor command db out id g h kept =
    let (old, _, _, _, written) = correct_grade_inv actor command db out h in
    subst (λ (o : ℕ × RecordsDb). IsKept id g o.1) (sym written)
      (update_grades-IsKept (has_grade_id old.id) (set_amended actor command) db id g (λ x. refl)
        kept)

publish_section-IsKept :
    (env : GradeEnv) (actor : Actor) (section_id : ℕ) (db : RecordsDb) (out : ℕ × RecordsDb)
    (id : ℕ) (g : GradeRecord)
    → publish_section env actor section_id db ≡ ok out
    → IsKept id g db
    → IsKept id g out.1
unfolding publish_section published
publish_section-IsKept env actor section_id db out id g h kept =
    let same : published env actor section_id db ≡ out.1 = ground arith in
    subst (λ (d : RecordsDb). IsKept id g d) same
      (update_grades-IsKept (publishable actor section_id db) (set_published env) db id g
        (λ x. refl) kept)

history_keeps :
    {s d : RecordsDb} (id : ℕ) (g : GradeRecord) → GradeReaches s d → IsKept id g s → IsKept id g d
history_keeps id g here kept = kept
history_keeps id g (draft_saved {a = a} env actor command out r h) kept =
    save_draft-IsKept env actor command a out id g h (history_keeps id g r kept)
history_keeps id g (grade_corrected {a = a} actor command out r h) kept =
    correct_grade-IsKept actor command a out id g h (history_keeps id g r kept)
history_keeps id g (section_published {a = a} env actor section_id out r h) kept =
    publish_section-IsKept env actor section_id a out id g h (history_keeps id g r kept)

-- No value of a grade is ever lost. Whatever saves, corrections and publications follow a state with
-- a complete history in which `g` is the row of `id`, it is the row still, or a captured revision holds the code, the
-- points, the value, the state, the author and the version that it had. Ids and enrollments of
-- grades stay unique, and a grade of version n has exactly n - 1 captured revisions.
pub GradeReaches-IsKept :
    {s d : RecordsDb} (id : ℕ) (g : GradeRecord)
    → IsRecorded s
    → GradeReaches s d
    → find_where (has_grade_id id) s.grade_record ≡ some g
    → IsKept id g d × IsRecorded d
GradeReaches-IsKept id g v run found =
    (history_keeps id g run (inl found), GradeReaches-IsRecorded v run)
