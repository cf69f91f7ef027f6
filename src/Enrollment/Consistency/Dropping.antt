-- ===== src/Enrollment/Consistency/Dropping.antt =====
-- A drop keeps the tables of enrollment consistent.
use mathlib.Core.Path.{subst}
use ubedtech.Prelude.{
  ℕ, ◌≡◌, refl, sym, ◌∙◌, true, Option, none, some, List, arith, find_where, Option-cases, inl, inr,
  leb,
}
use ubedtech.Prelude.Counts.{find-weaken, find-holds}
use ubedtech.Shared.Actor.{Actor}
use ubedtech.Shared.Error.{ok, err, Result-cases}
use ubedtech.Enrollment.State.{
  Db, Env, SectionCapacity, EnrollmentRow, OverrideType, Denial, is_enrolled, has_id, EnrollError,
}
use ubedtech.Enrollment.Claim.{claim_override, claim_if}
use ubedtech.Enrollment.Register.{ensure_lock_row, claim_key, require_can_register_for}
use ubedtech.Enrollment.Drop.{
  DropContext, drop_context, droppable, release_seat, write_drop, drop_locked, drop_for,
  consumed_capacity_override,
}
use ubedtech.Enrollment.Consistency.{
  IsConsistent, write_drop-IsConsistent, release_seat_lem, ensure_lock_row-IsConsistent,
}

-- The section of an enrollment, by its primary key.
unfoldable pub section_in : ℕ → List EnrollmentRow → Option ℕ
section_in id rows = elim (find_where (has_id id) rows) [ none ↦ none | some e ↦ some e.section_id ]

unfoldable pub section_of : ℕ → Db → Option ℕ
unfolding section_in
section_of id db = section_in id db.enrollment

-- No enrollment is lost or moved to another section.
abbrev pub Extends : Db → Db → Type 0
Extends b a = (id s : ℕ) → section_of id b ≡ some s → section_of id a ≡ some s

pub section_of-ensure :
    (student_id term_id id : ℕ) (db : Db)
    → section_of id (ensure_lock_row student_id term_id db) ≡ section_of id db
unfolding section_of ensure_lock_row
section_of-ensure student_id term_id id db = refl

-- The row that the `WHERE` of a drop finds is the row of its primary key.
pub droppable-has_id :
    (i student_id id : ℕ) (db : Db) (e : EnrollmentRow)
    → IsConsistent db
    → find_where (droppable i student_id id) db.enrollment ≡ some e
    → (find_where (has_id id) db.enrollment ≡ some e) × (is_enrolled e ≡ true)
droppable-has_id i student_id id db e v h = (
  find-weaken (droppable i student_id id) (has_id id) db.enrollment (λ x. ground arith) h
      (v.identified id),
  ground (arith, find-holds (droppable i student_id id) db.enrollment h),
)

release_seat-none : (extra : ℕ) → (x : EnrollError) × (release_seat none extra ≡ err x)
unfolding release_seat
release_seat-none extra = (_, refl)

-- How a drop ends: the row, the new seat, and what was written.
pub drop_locked_inv :
    (env : Env) (actor : Actor) (student_id id : ℕ) (row : DropContext) (db d : Db)
    → drop_locked env actor student_id id row db ≡ ok d
    → (e : EnrollmentRow) × (find_where (droppable actor.institution_id student_id id) db.enrollment
        ≡ some e)
      × (c : SectionCapacity) × (db.section_capacity row.section_id ≡ some c)
      × (seat : SectionCapacity) × (release_seat
            (some c)
            (consumed_capacity_override id db.registration_override)
          ≡ ok seat)
      × (ids : List ℕ) × (d ≡ write_drop env actor id row.section_id seat ids db)
unfolding drop_locked
drop_locked_inv env actor student_id id row db d h =
    elim (Option-cases (find_where (droppable actor.institution_id student_id id) db.enrollment)) [
      | inl missing ↦ absurd (ground arith)
      | inr (e, found) ↦
          elim (Result-cases (
            claim_if (leb row.add_drop_closes_at env.now)
              (claim_override env
                (claim_key actor student_id row.term_id row.section_id OverrideType.deadline) db)
              Denial.window_closed)) [
                | inr (x, late) ↦ absurd (ground arith)
                | inl (ids, in_window) ↦ elim (Option-cases (db.section_capacity row.section_id)) [
                  | inl no_row ↦ absurd (
                      ground (
                        arith,
                        release_seat-none (consumed_capacity_override id db.registration_override),
                      ))
                  | inr (c, row_found) ↦
                      elim (Result-cases (
                        release_seat (some c)
                          (consumed_capacity_override id db.registration_override))) [
                            | inr (x, stuck) ↦ absurd (ground arith)
                            | inl (seat, released) ↦
                                (e, found, c, row_found, seat, released, ids, ground arith)
                          ]
                ]
              ]
    ]

-- What the drop reads before its lock names the section of the row.
pub drop_context_section :
    (i student_id id : ℕ) (db : Db) (row : DropContext)
    → IsConsistent db
    → drop_context i student_id id db ≡ ok row
    → section_of id db ≡ some row.section_id
unfolding drop_context section_of
drop_context_section i student_id id db row v h =
    elim (Option-cases (find_where (droppable i student_id id) db.enrollment)) [
      | inl missing ↦ absurd (ground arith)
      | inr (e, found) ↦ ground (arith, droppable-has_id i student_id id db e v found)
    ]

drop_locked-IsConsistent :
    (env : Env) (actor : Actor) (student_id id : ℕ) (row : DropContext) (db d : Db)
    → IsConsistent db
    → section_of id db ≡ some row.section_id
    → drop_locked env actor student_id id row db ≡ ok d
    → IsConsistent d
unfolding section_of
drop_locked-IsConsistent env actor student_id id row db d v at_section h =
    let (e, found, c, counter, seat, released, ids, written) =
      drop_locked_inv env actor student_id id row db d h in
    let (known, active) = droppable-has_id actor.institution_id student_id id db e v found in
    let (less, fits) = release_seat_lem c seat _ released in
    let same : e.section_id ≡ row.section_id = ground arith in
    subst (λ (d : Db). IsConsistent d) (sym written)
      (subst (λ s. IsConsistent (write_drop env actor id s seat ids db)) same
        (write_drop-IsConsistent env actor id e c seat ids db v known active (rw same counter) less
          fits))

-- A drop that succeeds commits a consistent state, whatever other transactions have committed
-- between its two reads, if the states that it read are consistent and no enrollment was moved.
pub drop_for-IsConsistent :
    (env : Env) (actor : Actor) (student_id id : ℕ) (before after d : Db)
    → IsConsistent before
    → IsConsistent after
    → Extends before after
    → drop_for env actor student_id id before after ≡ ok d
    → IsConsistent d
unfolding drop_for section_of
drop_for-IsConsistent env actor student_id id before after d v w kept h =
    elim (Result-cases (require_can_register_for actor student_id)) [
      | inr (x, refused) ↦ absurd (ground arith)
      | inl (_, allowed) ↦
          elim (Result-cases (drop_context actor.institution_id student_id id before)) [
            | inr (x, missing) ↦ absurd (ground arith)
            | inl (row, known) ↦
                drop_locked-IsConsistent env actor student_id id row
                  (ensure_lock_row student_id row.term_id after) d
                  (ensure_lock_row-IsConsistent student_id row.term_id after w)
                  (section_of-ensure student_id row.term_id id after
                    ∙ kept id row.section_id (
                        drop_context_section actor.institution_id student_id id before row v known))
                  (ground arith)
          ]
    ]
