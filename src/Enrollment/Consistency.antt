-- ===== src/Enrollment/Consistency.antt =====
-- What holds of the tables of enrollment between two transactions, and that no transaction breaks
-- it.
pub mod Registration
pub mod Dropping
pub mod Extension
pub mod Untouched
pub mod Administration
use ubedtech.Prelude.{
  ℕ, suc, ◌+◌, ◌-◌, ◌≤◌, ◌<◌, ◌≡◌, ◌≢◌, refl, Bool, true, false, ◌&&◌, Option, none, some, List, [],
  ◌∷◌, arith, ltb, leb, ◌==◌, if◌then◌else◌, count_where, update_where, find_where, exists_where,
  length, upsert, Option-cases, Bool-cases,
}
use ubedtech.Prelude.Counts.{
  count-update, count_unique, find-holds, find-weaken, count-find, count-exists, count_mono,
  count-never, exists-count,
}
use ubedtech.Enrollment.State.{
  Db, Env, SectionCapacity, EnrollmentRow, RegisterCommand, is_enrolled, active_in, active_for,
  has_key, has_id, EnrollmentReceipt, RegistrationContext,
}
use ubedtech.Shared.Actor.{Actor}
use ubedtech.Shared.Error.{Result, ok}
use ubedtech.Enrollment.Register.{
  is_insertable, take_seat, write_registration, new_enrollment, register_new, register_locked,
  register_for, ensure_lock_row, existing_enrollment,
}
use ubedtech.Enrollment.Drop.{
  DropContext, droppable, mark_dropped, release_seat, write_drop, drop_locked, drop_for,
  consumed_capacity_override,
}

pub record IsConsistent (db : Db) : Type 0 where
  -- a section's counter is the number of its active enrollments, and fits its capacity
  pub counted :
      (s : ℕ) (c : SectionCapacity)
      → db.section_capacity s ≡ some c
      → c.enrolled_count ≡ count_where (active_in s) db.enrollment
  pub within :
      (s : ℕ) (c : SectionCapacity) → db.section_capacity s ≡ some c → c.enrolled_count ≤ c.capacity
  -- no enrollment is active where there is no counter
  pub placed : (s : ℕ) → db.section_capacity s ≡ none → count_where (active_in s) db.enrollment ≡ 0
  -- a student is active in a section at most once
  pub single : (student s : ℕ) → count_where (active_for student s) db.enrollment ≤ 1
  -- the unique constraint on the idempotency key, and the primary key
  pub keyed : (i student k : ℕ) → count_where (has_key i student k) db.enrollment ≤ 1
  pub identified : (id : ℕ) → count_where (has_id id) db.enrollment ≤ 1

-- The seat that a registration takes: one more in the counter, which still fits.
pub take_seat_lem :
    (c : SectionCapacity) (claim : Option ℕ) (r : SectionCapacity × List ℕ)
    → take_seat (some c) claim ≡ ok r
    → c.enrolled_count ≤ c.capacity
    → (r.0.enrolled_count ≡ c.enrolled_count + 1) × (r.0.enrolled_count ≤ r.0.capacity)
unfolding take_seat
take_seat_lem c claim r h w = ground arith

module _ (env : Env) (actor : Actor) (student_id : ℕ) (command : RegisterCommand)
    (c : SectionCapacity) (seat : SectionCapacity) (ids : List ℕ) (db : Db) (v : IsConsistent db)
    (found : db.section_capacity command.section_id ≡ some c)
    (one_more : seat.enrolled_count ≡ c.enrolled_count + 1)
    (fits : seat.enrolled_count ≤ seat.capacity)
    (fresh : is_insertable (new_enrollment env actor student_id command) db.enrollment ≡ true) where
  pub write_registration-IsConsistent :
      IsConsistent (write_registration env actor student_id command seat ids db)
  unfolding write_registration is_insertable
  write_registration-IsConsistent = record {
    counted = λ s c' h. ground (arith, v.counted s c', v.counted command.section_id c found);
    within = λ s c' h. ground (arith, v.within s c');
    placed = λ s h. ground (arith, v.placed s);
    single = λ st s. ground (
      arith,
      v.single st s,
      count-exists (active_for student_id command.section_id) db.enrollment,
    );
    keyed = λ i st k. ground (
      arith,
      v.keyed i st k,
      count-exists (has_key actor.institution_id student_id command.idempotency_key) db.enrollment,
    );
    identified =
        λ id. ground (arith, v.identified id, count-exists (has_id env.new_id) db.enrollment);
  }

-- The seat that a drop gives back.
pub release_seat_lem :
    (c seat : SectionCapacity) (extra : ℕ)
    → release_seat (some c) extra ≡ ok seat
    → (seat.enrolled_count + 1 ≡ c.enrolled_count) × (seat.enrolled_count ≤ seat.capacity)
unfolding release_seat
release_seat_lem c seat extra h = ground arith

module _ (env : Env) (actor : Actor) (id : ℕ) (e : EnrollmentRow) (c seat : SectionCapacity)
    (ids : List ℕ) (db : Db) (v : IsConsistent db)
    (row : find_where (has_id id) db.enrollment ≡ some e) (active : is_enrolled e ≡ true)
    (found : db.section_capacity e.section_id ≡ some c)
    (one_less : seat.enrolled_count + 1 ≡ c.enrolled_count)
    (fits : seat.enrolled_count ≤ seat.capacity) where
  -- What a count loses by the drop: the row, if it was counted, and if it is no longer.
  count-dropped :
      (p : EnrollmentRow → Bool)
      → ((x : EnrollmentRow) → p (mark_dropped env.tx_now x) ≡ false)
      → count_where p (update_where (has_id id) (mark_dropped env.tx_now) db.enrollment)
          + (if p e then 1 else 0)
        ≡ count_where p db.enrollment
  count-dropped p never =
      let moved = count-update p (has_id id) (mark_dropped env.tx_now) db.enrollment in
      let gone =
        count-never (λ x. has_id id x && p (mark_dropped env.tx_now x)) db.enrollment
          (λ x. ground (arith, never x)) in
      let one = count_unique p (has_id id) db.enrollment row (v.identified id) in omega arith

  pub write_drop-IsConsistent : IsConsistent (write_drop env actor id e.section_id seat ids db)
  unfolding write_drop
  write_drop-IsConsistent = record {
    counted = λ s c' h. ground (
      arith,
      v.counted s c',
      v.counted e.section_id c found,
      count-dropped (active_in s) (λ x. ground arith),
    );
    within = λ s c' h. ground (arith, v.within s c');
    placed = λ s h. ground (arith, v.placed s, count-dropped (active_in s) (λ x. ground arith));
    single =
        λ st s. ground (arith, v.single st s, count-dropped (active_for st s) (λ x. ground arith));
    keyed = λ i st k. omega (
      arith,
      v.keyed i st k,
      count-update (has_key i st k) (has_id id) (mark_dropped env.tx_now) db.enrollment,
    );
    identified = λ j. omega (
      arith,
      v.identified j,
      count-update (has_id j) (has_id id) (mark_dropped env.tx_now) db.enrollment,
    );
  }

-- The tables that the invariant speaks of.
abbrev pub SameSeats : Db → Db → Type 0
SameSeats b a = (b.section_capacity ≡ a.section_capacity) × (b.enrollment ≡ a.enrollment)

pub SameSeats-IsConsistent : (b a : Db) → SameSeats b a → IsConsistent b → IsConsistent a
SameSeats-IsConsistent b a h v = record {
  counted = λ s c f. rw (← h.1) (v.counted s c (rw (h.0) f));
  within = λ s c f. v.within s c (rw (h.0) f);
  placed = λ s f. rw (← h.1) (v.placed s (rw (h.0) f));
  single = λ st s. rw (← h.1) (v.single st s);
  keyed = λ i st k. rw (← h.1) (v.keyed i st k);
  identified = λ id. rw (← h.1) (v.identified id);
}

pub ensure_lock_row-IsConsistent :
    (student_id term_id : ℕ) (db : Db)
    → IsConsistent db
    → IsConsistent (ensure_lock_row student_id term_id db)
unfolding ensure_lock_row
ensure_lock_row-IsConsistent student_id term_id db v = SameSeats-IsConsistent db _ (refl, refl) v
