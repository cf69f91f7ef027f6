-- ===== src/Enrollment/Register/Checks.antt =====
-- backend/src/enrollment/service.rs: the tests that a registration makes behind its lock, and the seat
-- that it takes.
use ubedtech.Prelude.{
  ℕ, String, ◌+◌, Bool, true, false, ◌&&◌, ◌||◌, not, Option, none, some, List, [], ◌∷◌, ltb, leb,
  ◌==◌, if◌then◌else◌, exists_where,
}
use ubedtech.Shared.Error.{Result, ok, err, ◌>>=◌, integrity, database}
use ubedtech.Enrollment.State.{
  Db, SectionCapacity, StudentTermState, TermStatus, SectionMeeting, CoursePrerequisite, Denial,
  EnrollError, app, is_enrolled,
}
use ubedtech.Enrollment.Claim.{claim_if}

abbrev pub is_empty : List String → Bool
is_empty [] = true
is_empty (x ∷ xs) = false

abbrev pub is_eligible : TermStatus → Bool
is_eligible s = elim s [ TermStatus.eligible ↦ true | _ ↦ false ]

unfoldable pub is_held : StudentTermState → Bool
is_held t = not (is_eligible t.status) || not (is_empty t.hold_flags)

-- `c.best_grade_points > 0`
unfoldable pub already_completed : ℕ → ℕ → Db → Bool
already_completed student_id course_id db = elim (db.best_grade_points student_id course_id) [
  | none ↦ false
  | some p ↦ ltb 0 p
]

-- `c.best_grade_points >= p.minimum_grade_points`
abbrev pub meets_prerequisite : ℕ → Db → CoursePrerequisite → Bool
meets_prerequisite student_id db p =
    elim (db.best_grade_points student_id p.prerequisite_course_id) [
      | none ↦ false
      | some best ↦ leb p.minimum_grade_points best
    ]

unfoldable pub prerequisites_met : ℕ → ℕ → Db → Bool
prerequisites_met student_id course_id db = not (
    exists_where (λ p. (p.course_id == course_id) && not (meets_prerequisite student_id db p))
      db.course_prerequisite)

abbrev pub overlaps : SectionMeeting → SectionMeeting → Bool
overlaps target existing =
    (target.day_of_week == existing.day_of_week)
    && ltb target.starts_at existing.ends_at
    && ltb existing.starts_at target.ends_at

abbrev pub in_term : ℕ → ℕ → Db → Bool
in_term section_id term_id db = elim (db.section section_id) [
  | none ↦ false
  | some s ↦ s.term_id == term_id
]

-- Does a meeting of the target section overlap with this one?
abbrev pub meets_target : ℕ → List SectionMeeting → SectionMeeting → Bool
meets_target section_id meetings existing =
    exists_where (λ target. (target.section_id == section_id) && overlaps target existing) meetings

unfoldable pub has_time_conflict : ℕ → ℕ → ℕ → Db → Bool
has_time_conflict student_id section_id term_id db =
    exists_where
      (λ e.
        (e.student_id == student_id)
        && is_enrolled e
        && in_term e.section_id term_id db
        && exists_where
            (λ m. (m.section_id == e.section_id) && meets_target section_id db.section_meeting m)
            db.section_meeting)
      db.enrollment

-- The largest `integer` of PostgreSQL.
abbrev pub i32_max : ℕ
i32_max = 2147483647

-- The conditional update of the seat, and the claim of a `capacity` override past a full section.
unfoldable pub take_seat :
    Option SectionCapacity → Option ℕ → Result EnrollError (SectionCapacity × List ℕ)
take_seat none claim = err (
    app
      (integrity "section has no section_capacity row; the migration-0010 guarantee was bypassed"))
take_seat (some c) claim =
    if ltb c.enrolled_count c.capacity
    then ok (record c { enrolled_count = c.enrolled_count + 1; version = c.version + 1 }, [])
    else claim_if true claim Denial.section_full >>= λ ids.
        if leb i32_max c.capacity
        then err (app database)
        else ok (
          record c {
            capacity = c.capacity + 1;
            enrolled_count = c.enrolled_count + 1;
            version = c.version + 1;
          },
          ids,
        )
