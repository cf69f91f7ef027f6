-- ===== src/Records/Gpa.antt =====
-- backend/src/records/grades.rs: the sums per term of `own_term_gpas`. The quotient `gpa` is a float
-- and is left out.
use ubedtech.Prelude.{
  ℕ, ◌+◌, Bool, false, ◌&&◌, not, Option, none, some, List, [], ◌∷◌, ◌++◌, ◌==◌, if◌then◌else◌,
  is_none,
}
use ubedtech.Shared.Actor.{Actor, require_student_self}
use ubedtech.Shared.Error.{Result, ok, err, ◌>>=◌, AppError, database}
use ubedtech.Records.State.{GradeRecord, RecordsDb, is_visible}

-- The double precision numbers of PostgreSQL: the cast of a sum of credit hours, the product of the
-- points of a grade with the credit hours of its course, and the sum.
pub record Float8 (F : Type 0) : Type 0 where
  pub of_credits : ℕ → F
  pub weigh : ℕ → ℕ → F
  pub add : F → F → F

-- The columns of `TermGpa`.
pub record TermGpa (F : Type 0) : Type 0 where
  pub credits : F
  pub quality_points : F

-- The grades of one group: visible, of the student and the institution, in the term.
unfoldable pub in_term_group : ℕ → ℕ → ℕ → RecordsDb → GradeRecord → Bool
in_term_group student_id institution_id term_id db g =
    is_visible g && (g.institution_id == institution_id) && (elim (db.enrollment g.enrollment_id) [
      | none ↦ false
      | some e ↦ (e.student_id == student_id) && (e.term_id == term_id)
    ])

abbrev pub credit_hours_of : RecordsDb → GradeRecord → ℕ
credit_hours_of db g = elim (db.enrollment g.enrollment_id) [ none ↦ 0 | some e ↦ e.credit_hours ]

abbrev pub add_option : {F : Type 0} → (F → F → F) → Option F → Option F → Option F
add_option add none b = b
add_option add (some x) none = some x
add_option add (some x) (some y) = some (add x y)

module _ {F : Type 0} (float8 : Float8 F) where
  -- `g.grade_points * c.credit_hours`, NULL where the points are.
  abbrev pub weighted : RecordsDb → GradeRecord → Option F
  weighted db g = elim g.grade_points [
    | none ↦ none
    | some p ↦ some (float8.weigh p (credit_hours_of db g))
  ]

  -- The two sums of a group, NULL where no row gives a value. That of the credit hours is exact.
  unfoldable pub group_sums :
      RecordsDb → (GradeRecord → Bool) → List GradeRecord → Option ℕ × Option F
  group_sums db p [] = (none, none)
  group_sums db p (g ∷ gs) =
      let (credits, points) = group_sums db p gs in
      if p g
      then (
        add_option (λ a b. a + b) (some (credit_hours_of db g)) credits,
        add_option float8.add (weighted db g) points,
      )
      else (credits, points)

  -- A group has a row in the result only if it has a grade; a NULL sum does not decode as `f64`.
  abbrev pub decode_group : Option ℕ × Option F → Result AppError (List (TermGpa F))
  decode_group (none, points) = ok []
  decode_group (some c, none) = err database
  decode_group (some c, some q) =
      ok (record { credits = float8.of_credits c; quality_points = q } ∷ [])

  unfoldable pub term_gpa : ℕ → ℕ → ℕ → RecordsDb → Result AppError (List (TermGpa F))
  unfolding group_sums in_term_group
  term_gpa student_id institution_id term_id db =
      decode_group
        (group_sums db (in_term_group student_id institution_id term_id db) db.grade_record)

  -- `ended_terms` are the terms with `ends_on < CURRENT_DATE`, in the order of `starts_on`.
  unfoldable pub term_gpas : ℕ → ℕ → List ℕ → RecordsDb → Result AppError (List (TermGpa F))
  unfolding term_gpa
  term_gpas student_id institution_id [] db = ok []
  term_gpas student_id institution_id (t ∷ ts) db =
      term_gpa student_id institution_id t db >>= λ row.
      term_gpas student_id institution_id ts db >>= λ rest. ok (row ++ rest)

  unfoldable pub own_term_gpas : Actor → List ℕ → RecordsDb → Result AppError (List (TermGpa F))
  unfolding term_gpas
  own_term_gpas actor ended_terms db = require_student_self actor >>= λ student_id.
      term_gpas student_id actor.institution_id ended_terms db

abbrev pub has_points : GradeRecord → Bool
has_points g = not (is_none g.grade_points)
