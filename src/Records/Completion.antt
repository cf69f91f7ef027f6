-- ===== src/Records/Completion.antt =====
-- The view `records_student_course_completion` (backend/migrations/0004_records.sql), through which
-- registration sees grades.
use Prim.Native.Nat.{max}
use mathlib.Core.Path.{subst}
use ubedtech.Prelude.{
  ◌∙◌, ℕ, ◌≤◌, ◌≡◌, Bool, true, false, ◌&&◌, Option, none, some, List, [], ◌∷◌, arith, Bool-cases,
  inl, inr, ◌==◌, if◌then◌else◌, find_where, Option-cases,
}
use ubedtech.Shared.Actor.{Actor, Role, has_role}
use ubedtech.Shared.Error.{ok}
use ubedtech.Records.State.{GradeRecord, GradedEnrollment, RecordsDb, GradeEnv, is_visible}
use ubedtech.Records.Grades.{publishable, published, update_grades, publish_section, has_grade_id}
use ubedtech.Records.Grades.Publishing.{publish_section_lem, Publication}
use ubedtech.Enrollment.State.{Db, CoursePrerequisite}
use ubedtech.Enrollment.Register.{meets_prerequisite}

abbrev pub max_option : Option ℕ → Option ℕ → Option ℕ
max_option none b = b
max_option (some x) none = some x
max_option (some x) (some y) = some (max x y)

-- Does the grade count for the student and the course?
unfoldable pub counts_for : ℕ → ℕ → RecordsDb → GradeRecord → Bool
counts_for student_id course_id db g = is_visible g && (elim (db.enrollment g.enrollment_id) [
  | none ↦ false
  | some e ↦ (e.student_id == student_id) && (e.course_id == course_id)
])

-- `max(g.grade_points)` over the rows; NULL points are passed over.
unfoldable pub best_of : (GradeRecord → Bool) → List GradeRecord → Option ℕ
best_of p [] = none
best_of p (g ∷ gs) = max_option (if p g then g.grade_points else none) (best_of p gs)

unfoldable pub best_grade_points : RecordsDb → ℕ → ℕ → Option ℕ
best_grade_points db student_id course_id =
    best_of (counts_for student_id course_id db) db.grade_record

-- The best is at least each of the points that count.
best_of-ge :
    (p : GradeRecord → Bool) (id : ℕ) (rows : List GradeRecord) (g : GradeRecord) (points : ℕ)
    → find_where (has_grade_id id) rows ≡ some g
    → p g ≡ true
    → g.grade_points ≡ some points
    → (best : ℕ) × (best_of p rows ≡ some best) × (points ≤ best)
unfolding best_of
best_of-ge p id [] g points h t e = absurd (cc)
best_of-ge p id (x ∷ xs) g points h t e = elim (Bool-cases (x.id == id)) [
  | inl here ↦ elim (Option-cases (best_of p xs)) [
    | inl alone ↦ (points, ground arith, ground arith)
    | inr (b, rest) ↦ (max points b, ground arith, omega arith)
  ]
  | inr later ↦
      let (b, rest, fits) = best_of-ge p id xs g points (ground arith) t e in
      elim (Option-cases (if p x then x.grade_points else none)) [
        | inl nothing ↦ (b, ground arith, fits)
        | inr (q, own) ↦ (max q b, ground arith, omega arith)
      ]
]

publish_section_enrollment :
    (env : GradeEnv) (actor : Actor) (section_id : ℕ) (db : RecordsDb) (out : ℕ × RecordsDb)
    → publish_section env actor section_id db ≡ ok out
    → out.1.enrollment ≡ db.enrollment
unfolding publish_section published update_grades
publish_section_enrollment env actor section_id db out h = ground arith

-- Publishing a section as a records officer makes its grades count: where registration sees the view of the grades, a draft
-- of an enrollment of the section that carries points meets, once it is published, every
-- prerequisite for its student that asks for its course with no more than those points.
pub publish_section-meets_prerequisite :
    (env : GradeEnv) (actor : Actor) (section_id id points : ℕ) (db : RecordsDb) (g : GradeRecord)
    (e : GradedEnrollment) (out : ℕ × RecordsDb) (registration : Db) (p : CoursePrerequisite)
    → publish_section env actor section_id db ≡ ok out
    → has_role actor Role.records_officer ≡ true
    → find_where (has_grade_id id) db.grade_record ≡ some g
    → publishable actor section_id db g ≡ true
    → db.enrollment g.enrollment_id ≡ some e
    → g.grade_points ≡ some points
    → registration.best_grade_points ≡ best_grade_points out.1
    → p.prerequisite_course_id ≡ e.course_id
    → p.minimum_grade_points ≤ points
    → meets_prerequisite e.student_id registration p ≡ true
unfolding best_grade_points counts_for
publish_section-meets_prerequisite env actor section_id id points db g e out registration p h
      officer found ready joined carries sees asks enough =
    let (d, done, _, after) = publish_section_lem env actor section_id db officer in
    let same : d ≡ out.1 = ground arith in
    let (g', at, becomes) = after id g found in
    let (state, _, _, _, _, owner, _, points_same, _, _) =
      subst (λ b. Publication env b g g') ready becomes in
    let kept : out.1.enrollment ≡ db.enrollment =
      publish_section_enrollment env actor section_id db out h in
    let moved : find_where (has_grade_id id) out.1.grade_record ≡ some g' = rw (← same) at in
    let row : out.1.enrollment g'.enrollment_id ≡ some e = rw (kept, owner) joined in
    let (best, it, reached) =
      best_of-ge (counts_for e.student_id e.course_id out.1) id out.1.grade_record g' points moved
        (ground (arith, row, state)) (points_same ∙ carries) in
    let seen : registration.best_grade_points e.student_id p.prerequisite_course_id ≡ some best =
      rw (sees, asks) it in
    rw (meets_prerequisite, seen) (ground arith)
