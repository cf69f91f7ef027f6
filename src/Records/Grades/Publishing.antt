-- ===== src/Records/Grades/Publishing.antt =====
-- Publishing a section, and what a published grade is safe from.
use mathlib.Core.Path.{subst, fun_ext}
use ubedtech.Prelude.{
  ℕ, ◌+◌, Bool, ◌≤◌, ◌≡◌, refl, true, false, some, List, [], ◌∷◌, arith, ◌==◌, if◌then◌else◌,
  find_where, count_where, update_where, Bool-cases, inl, inr,
}
use ubedtech.Prelude.Counts.{find-holds, find-update, exists-find_none, length-select}
use ubedtech.Shared.Actor.{Actor, Role, has_role}
use ubedtech.Shared.Error.{ok}
use ubedtech.Records.State.{
  GradeState, GradeRecord, RecordsDb, GradeEnv, SaveGradeCommand, CorrectGradeCommand, is_visible,
}
use ubedtech.Records.Grades.{
  update_grades, graded, has_grade_id, set_draft, changed_draft, created_draft, save_draft,
  set_amended, corrected, correct_grade, publishable, set_published, published, publish_section,
}
use ubedtech.Prelude.Counts.{find_other}
use ubedtech.Records.Grades.History.{IsRecorded}
use ubedtech.Records.Grades.Operations.{save_draft_inv, correct_grade_inv}
use ubedtech.Records.Grades.Versions.{
  GradeReaches, here, draft_saved, grade_corrected, section_published, GradeReaches-IsRecorded,
}

-- Published, a grade is no longer a draft.
publishable-set_published :
    (env : GradeEnv) (actor : Actor) (section_id : ℕ) (db : RecordsDb) (g : GradeRecord)
    → publishable actor section_id db (set_published env g) ≡ false
unfolding publishable
publishable-set_published env actor section_id db g = ground arith

publishable_same :
    (actor : Actor) (section_id : ℕ) (a b : RecordsDb) (g : GradeRecord)
    → a.enrollment ≡ b.enrollment
    → publishable actor section_id a g ≡ publishable actor section_id b g
unfolding publishable
publishable_same actor section_id a b g h = rw h

none_left :
    (env : GradeEnv) (actor : Actor) (section_id : ℕ) (db : RecordsDb) (rows : List GradeRecord)
    → count_where
        (publishable actor section_id db)
        (update_where (publishable actor section_id db) (set_published env) rows)
      ≡ 0
none_left env actor section_id db [] = refl
none_left env actor section_id db (g ∷ rows) = ground (
  arith,
  none_left env actor section_id db rows,
  publishable-set_published env actor section_id db g,
)

-- A draft becomes a published grade of the next version, with the content and the author that it had,
-- and any other grade stays.
abbrev pub Publication : GradeEnv → Bool → GradeRecord → GradeRecord → Type 0
Publication env false g g' = g' ≡ g
Publication env true g g' =
    (g'.state ≡ GradeState.published)
    × (g'.published_at ≡ some env.tx_now)
    × (g'.version ≡ g.version + 1)
    × (g'.id ≡ g.id)
    × (g'.institution_id ≡ g.institution_id)
    × (g'.enrollment_id ≡ g.enrollment_id)
    × (g'.grade_code ≡ g.grade_code)
    × (g'.grade_points ≡ g.grade_points)
    × (g'.numeric_value ≡ g.numeric_value)
    × (g'.entered_by_user_id ≡ g.entered_by_user_id)

set_published-Publication :
    (env : GradeEnv) (b : Bool) (g : GradeRecord)
    → Publication env b g (if b then set_published env g else g)
set_published-Publication env false g = refl
set_published-Publication env true g = (refl, refl, refl, refl, refl, refl, refl, refl, refl, refl)

-- Publishing a section as a records officer counts its drafts in the institution, turns each into
-- a published grade of the next version, with the content that it had, and leaves every other grade as it was.
pub publish_section_lem :
    (env : GradeEnv) (actor : Actor) (section_id : ℕ) (db : RecordsDb)
    → has_role actor Role.records_officer ≡ true
    → (d : RecordsDb) × (publish_section env actor section_id db
        ≡ ok (count_where (publishable actor section_id db) db.grade_record, d))
      × (count_where (publishable actor section_id d) d.grade_record ≡ 0)
      × ((id : ℕ) (g : GradeRecord)
          → find_where (has_grade_id id) db.grade_record ≡ some g
          → (g' : GradeRecord) × (find_where (has_grade_id id) d.grade_record ≡ some g')
            × Publication env (publishable actor section_id db g) g g')
unfolding publish_section published update_grades
publish_section_lem env actor section_id db officer = (
  published env actor section_id db,
  ground (arith, length-select (publishable actor section_id db) db.grade_record),
  subst
      (λ p.
        count_where p
          (update_where (publishable actor section_id db) (set_published env) db.grade_record)
        ≡ 0)
      (fun_ext
        (λ g. publishable_same actor section_id db (published env actor section_id db) g refl))
      (none_left env actor section_id db db.grade_record),
  λ id g h.
      let moved =
        find-update (publishable actor section_id db) (has_grade_id id) (set_published env)
          db.grade_record (λ g. refl) in
      (
        if publishable actor section_id db g then set_published env g else g,
        ground arith,
        set_published-Publication env (publishable actor section_id db g) g,
      ),
)

-- A visible grade survives a save of a draft unchanged.
save_draft_keeps :
    (env : GradeEnv) (actor : Actor) (command : SaveGradeCommand) (db : RecordsDb)
    (out : ℕ × RecordsDb) (id : ℕ) (g : GradeRecord)
    → IsRecorded db
    → save_draft env actor command db ≡ ok out
    → find_where (has_grade_id id) db.grade_record ≡ some g
    → is_visible g ≡ true
    → find_where (has_grade_id id) out.1.grade_record ≡ some g
unfolding changed_draft created_draft update_grades
save_draft_keeps env actor command db out id g v h e visible =
    elim (save_draft_inv env actor command db out h) [
      | inl (old, found, draft, _, written) ↦
          let moved =
            find-update (has_grade_id old.id) (has_grade_id id) (set_draft actor command)
              db.grade_record (λ g. refl) in
          let key = find-holds (has_grade_id id) db.grade_record e in
          elim (Bool-cases (g.id == old.id)) [
            | inl same ↦
                let other =
                  find_other (graded command.enrollment_id) (has_grade_id id) db.grade_record found
                    (ground arith) (v.identified id) in
                absurd (ground arith)
            | inr differs ↦ ground arith
          ]
      | inr (absent, _, fresh, written) ↦
          let gone = exists-find_none (has_grade_id env.new_id) db.grade_record fresh in
          ground arith
    ]

correct_grade_keeps :
    (actor : Actor) (command : CorrectGradeCommand) (db : RecordsDb) (out : ℕ × RecordsDb) (id : ℕ)
    (g : GradeRecord)
    → correct_grade actor command db ≡ ok out
    → find_where (has_grade_id id) db.grade_record ≡ some g
    → is_visible g ≡ true
    → (g' : GradeRecord) × (find_where (has_grade_id id) out.1.grade_record ≡ some g')
      × (is_visible g' ≡ true)
      × (g.version ≤ g'.version)
unfolding corrected update_grades
correct_grade_keeps actor command db out id g h e visible =
    let (old, _, _, _, written) = correct_grade_inv actor command db out h in
    let moved =
      find-update (has_grade_id old.id) (has_grade_id id) (set_amended actor command)
        db.grade_record (λ g. refl) in
    (
      if g.id == old.id then set_amended actor command g else g,
      ground arith,
      ground arith,
      ground arith,
    )

publish_section_keeps :
    (env : GradeEnv) (actor : Actor) (section_id : ℕ) (db : RecordsDb) (out : ℕ × RecordsDb)
    (id : ℕ) (g : GradeRecord)
    → publish_section env actor section_id db ≡ ok out
    → find_where (has_grade_id id) db.grade_record ≡ some g
    → is_visible g ≡ true
    → (g' : GradeRecord) × (find_where (has_grade_id id) out.1.grade_record ≡ some g')
      × (is_visible g' ≡ true)
      × (g.version ≤ g'.version)
unfolding publish_section published update_grades
publish_section_keeps env actor section_id db out id g h e visible =
    let moved =
      find-update (publishable actor section_id db) (has_grade_id id) (set_published env)
        db.grade_record (λ g. refl) in
    (
      if publishable actor section_id db g then set_published env g else g,
      ground arith,
      ground arith,
      ground arith,
    )

-- A grade that students have seen is seen for good: along any sequence of saves, corrections and
-- publications a published or amended grade stays published or amended, and never becomes a draft
-- again.
pub GradeReaches-is_visible :
    {s d : RecordsDb} (id : ℕ) (g : GradeRecord)
    → IsRecorded s
    → GradeReaches s d
    → find_where (has_grade_id id) s.grade_record ≡ some g
    → is_visible g ≡ true
    → (g' : GradeRecord) × (find_where (has_grade_id id) d.grade_record ≡ some g')
      × (is_visible g' ≡ true)
      × (g.version ≤ g'.version)
GradeReaches-is_visible id g v here e visible = (g, e, visible, omega arith)
GradeReaches-is_visible id g v (draft_saved {a = a} env actor command out r h) e visible =
    let (g', e', visible', older) = GradeReaches-is_visible id g v r e visible in
    (
      g',
      save_draft_keeps env actor command a out id g' (GradeReaches-IsRecorded v r) h e' visible',
      visible',
      older,
    )
GradeReaches-is_visible id g v (grade_corrected {a = a} actor command out r h) e visible =
    let (g', e', visible', older) = GradeReaches-is_visible id g v r e visible in
    let (g'', e'', visible'', newer) =
      correct_grade_keeps actor command a out id g' h e' visible' in
    (g'', e'', visible'', omega arith)
GradeReaches-is_visible id g v (section_published {a = a} env actor section_id out r h) e visible =
    let (g', e', visible', older) = GradeReaches-is_visible id g v r e visible in
    let (g'', e'', visible'', newer) =
      publish_section_keeps env actor section_id a out id g' h e' visible' in
    (g'', e'', visible'', omega arith)
