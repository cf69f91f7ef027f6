-- ===== src/Enrollment/Drop/Refusals.antt =====
-- What a drop does to the seat, and when it fails.
use ubedtech.Prelude.{
  ℕ, ◌≤◌, ◌<◌, ◌≡◌, refl, ◌∙◌, true, ◌&&◌, none, some, List, arith, find_where, Option-cases, inl,
  inr, leb, ◌⊎◌,
}
use ubedtech.Prelude.Counts.{count_unique}
use ubedtech.Shared.Actor.{Actor}
use ubedtech.Shared.Error.{err, Result-cases}
use ubedtech.Enrollment.State.{
  Db, Env, SectionCapacity, EnrollmentRow, OverrideType, Denial, is_enrolled, has_id, active_in,
  EnrollError,
}
use ubedtech.Enrollment.Claim.{claim_override, claim_if}
use ubedtech.Enrollment.Register.{ensure_lock_row, claim_key, require_can_register_for}
use ubedtech.Enrollment.Drop.{
  DropContext, drop_context, droppable, release_seat, drop_locked, drop_for,
  consumed_capacity_override,
}
use ubedtech.Enrollment.State.{RegistrationOverride, denied, app}
use ubedtech.Shared.Error.{not_found, forbidden}
use ubedtech.Prelude.{◌≢◌}
use ubedtech.Prelude.Counts.{count_mono}
use ubedtech.Enrollment.Consistency.{IsConsistent, ensure_lock_row-IsConsistent}
use ubedtech.Enrollment.Consistency.Dropping.{
  section_in, section_of, Extends, droppable-has_id, drop_context_section, section_of-ensure,
}

-- Where the counter is positive and within the capacity, a seat can always be released.
release_seat_total :
    (c : SectionCapacity) (id : ℕ) (rows : List RegistrationOverride) (x : EnrollError)
    → 0 < c.enrolled_count
    → c.enrolled_count ≤ c.capacity
    → ¬ (release_seat (some c) (consumed_capacity_override id rows) ≡ err x)
unfolding release_seat consumed_capacity_override
release_seat_total c id rows x pos fits h = ground arith

-- An active enrollment keeps the counter of its section above zero.
active_counted :
    (db : Db) (id : ℕ) (e : EnrollmentRow) (c : SectionCapacity)
    → IsConsistent db
    → find_where (has_id id) db.enrollment ≡ some e
    → is_enrolled e ≡ true
    → db.section_capacity e.section_id ≡ some c
    → 0 < c.enrolled_count
active_counted db id e c v row active counter =
    let one =
      count_unique (active_in e.section_id) (has_id id) db.enrollment row (v.identified id) in
    let fewer =
      count_mono (λ x. has_id id x && active_in e.section_id x) (active_in e.section_id)
        db.enrollment (λ x. ground arith) in
    ground (arith, v.counted e.section_id c counter)

module _ (env : Env) (actor : Actor) (student_id id : ℕ) (row : DropContext) (db : Db)
    (v : IsConsistent db) (at_section : section_of id db ≡ some row.section_id)
    (c : SectionCapacity) (counter : db.section_capacity row.section_id ≡ some c) where
  -- Behind its lock a drop is refused only because there is no such active enrollment or because
  -- the window has closed: never because of a seat.
  drop_locked_refusal :
      (x : EnrollError)
      → drop_locked env actor student_id id row db ≡ err x
      → (x ≡ app not_found) ⊎ (x ≡ denied Denial.window_closed)
  unfolding drop_locked section_of section_in
  drop_locked_refusal x h =
      elim (Option-cases
        (find_where (droppable actor.institution_id student_id id) db.enrollment)) [
          | inl missing ↦ inl (ground arith)
          | inr (e, found) ↦
              elim (Result-cases (
                claim_if (leb row.add_drop_closes_at env.now)
                  (claim_override env
                    (claim_key actor student_id row.term_id row.section_id OverrideType.deadline)
                    db)
                  Denial.window_closed)) [
                    | inr (y, late) ↦ inr (ground arith)
                    | inl (ids, in_window) ↦
                        let (known, active) =
                          droppable-has_id actor.institution_id student_id id db e v found in
                        let same : row.section_id ≡ e.section_id = ground arith in
                        let pos = active_counted db id e c v known active (rw (← same) counter) in
                        let fits = v.within row.section_id c counter in
                        elim (Result-cases (
                          release_seat (some c)
                            (consumed_capacity_override id db.registration_override))) [
                              | inl (seat, released) ↦ absurd (ground arith)
                              | inr (y, stuck) ↦ absurd (
                                  release_seat_total c id db.registration_override y pos fits stuck)
                            ]
                  ]
        ]

drop_context_refusal :
    (i student_id id : ℕ) (db : Db) (x : EnrollError)
    → drop_context i student_id id db ≡ err x
    → x ≡ app not_found
unfolding drop_context
drop_context_refusal i student_id id db x h = ground arith

ensure_lock_row_capacity :
    (student_id term_id s : ℕ) (db : Db)
    → (ensure_lock_row student_id term_id db).section_capacity s ≡ db.section_capacity s
unfolding ensure_lock_row
ensure_lock_row_capacity student_id term_id s db = refl

-- A drop over consistent states, whose section has its capacity row, is refused only because the
-- actor may not act for the student, because there is no such active enrollment, or because the
-- window has closed and no override is left. It never fails to release the seat.
pub drop_for_refusal :
    (env : Env) (actor : Actor) (student_id id : ℕ) (before after : Db) (x : EnrollError)
    → IsConsistent before
    → IsConsistent after
    → Extends before after
    → ((s : ℕ) → section_of id after ≡ some s → after.section_capacity s ≢ none)
    → drop_for env actor student_id id before after ≡ err x
    → (x ≡ app forbidden) ⊎ (x ≡ app not_found) ⊎ (x ≡ denied Denial.window_closed)
unfolding drop_for require_can_register_for
drop_for_refusal env actor student_id id before after x v w kept guaranteed h =
    elim (Result-cases (drop_context actor.institution_id student_id id before)) [
      | inr (y, missing) ↦
          ground (arith, drop_context_refusal actor.institution_id student_id id before y)
      | inl (row, known) ↦
          let db = ensure_lock_row student_id row.term_id after in
          let at_section =
            kept id row.section_id
              (drop_context_section actor.institution_id student_id id before row v known) in
          elim (Option-cases (after.section_capacity row.section_id)) [
            | inl no_row ↦ absurd (guaranteed row.section_id at_section no_row)
            | inr (c, counter) ↦ ground (
              arith,
              drop_locked_refusal env actor student_id id row db
                  (ensure_lock_row-IsConsistent student_id row.term_id after w)
                  (section_of-ensure student_id row.term_id id after ∙ at_section) c
                  (ensure_lock_row_capacity student_id row.term_id row.section_id after ∙ counter)
                  x,
            )
          ]
    ]
