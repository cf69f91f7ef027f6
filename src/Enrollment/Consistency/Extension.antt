-- ===== src/Enrollment/Consistency/Extension.antt =====
-- No transaction loses an enrollment or moves it, and those that leave seats alone are consistent.
use mathlib.Core.Path.{subst}
use ubedtech.Prelude.{
  ℕ, String, ◌≡◌, refl, sym, ◌∙◌, true, false, none, some, List, [], ◌∷◌, arith, exists_where,
  update_where, inl, inr,
}
use ubedtech.Shared.Actor.{Actor}
use ubedtech.Shared.Error.{ok, Result-cases}
use ubedtech.Enrollment.State.{
  Db, Env, SectionCapacity, EnrollmentRow, RegisterCommand, EnrollmentReceipt, RegistrationContext,
  GrantOverrideCommand, has_id,
}
use ubedtech.Enrollment.Register.{
  is_insertable, write_registration, new_enrollment, register_new, register_for, ensure_lock_row,
  require_can_register_for,
}
use ubedtech.Enrollment.Drop.{drop_context, mark_dropped, write_drop, drop_for}
use ubedtech.Enrollment.Grant.{grant_override}
use ubedtech.Enrollment.Holds.{place_hold, release_hold, set_academic_status, write_flags}
use ubedtech.Enrollment.Consistency.{SameSeats}
use ubedtech.Enrollment.Consistency.Registration.{register_for_inv, register_new_inv}
use ubedtech.Enrollment.Consistency.Dropping.{
  section_in, section_of, Extends, section_of-ensure, drop_locked_inv,
}

find-dropped :
    (tx_now id j : ℕ) (rows : List EnrollmentRow)
    → section_in j (update_where (has_id id) (mark_dropped tx_now) rows) ≡ section_in j rows
unfolding section_in
find-dropped tx_now id j [] = refl
find-dropped tx_now id j (x ∷ xs) = ground (arith, find-dropped tx_now id j xs)

exists-find :
    (j : ℕ) (rows : List EnrollmentRow)
    → exists_where (has_id j) rows ≡ false
    → section_in j rows ≡ none
unfolding section_in
exists-find j [] h = refl
exists-find j (x ∷ xs) h = ground (arith, exists-find j xs)

write_registration-Extends :
    (env : Env) (actor : Actor) (student_id : ℕ) (command : RegisterCommand)
    (seat : SectionCapacity) (ids : List ℕ) (db : Db)
    → is_insertable (new_enrollment env actor student_id command) db.enrollment ≡ true
    → Extends db (write_registration env actor student_id command seat ids db)
unfolding write_registration is_insertable section_of section_in
write_registration-Extends env actor student_id command seat ids db fresh id s h =
    ground (arith, exists-find env.new_id db.enrollment)

register_new-Extends :
    (env : Env) (actor : Actor) (student_id : ℕ) (command : RegisterCommand)
    (context : RegistrationContext) (ids : List ℕ) (db : Db) (out : EnrollmentReceipt × Db)
    → register_new env actor student_id command context ids db ≡ ok out
    → Extends db out.1
register_new-Extends env actor student_id command context ids db out h =
    let (r, passed, fresh, written) =
      register_new_inv env actor student_id command context ids db out h in
    subst (λ (o : EnrollmentReceipt × Db). Extends db o.1) (sym written)
      (write_registration-Extends env actor student_id command r.0 r.1 db fresh)

ensure_lock_row-Extends :
    (student_id term_id : ℕ) (db : Db) → Extends db (ensure_lock_row student_id term_id db)
ensure_lock_row-Extends student_id term_id db id s h =
    section_of-ensure student_id term_id id db ∙ h

-- A registration loses no enrollment and moves none to another section.
pub register_for-Extends :
    (env : Env) (actor : Actor) (student_id : ℕ) (command : RegisterCommand) (before after : Db)
    (out : EnrollmentReceipt × Db)
    → register_for env actor student_id command before after ≡ ok out
    → Extends after out.1
register_for-Extends env actor student_id command before after out h =
    elim (register_for_inv env actor student_id command before after out h) [
      | inl same ↦ subst (λ (d : Db). Extends after d) (sym same) (λ id s e. e)
      | inr (context, inl same) ↦
          subst (λ (d : Db). Extends after d) (sym same)
            (ensure_lock_row-Extends student_id context.term_id after)
      | inr (context, inr (used, made)) ↦ λ id s e.
          register_new-Extends env actor student_id command context used
            (ensure_lock_row student_id context.term_id after) out made id s
            (ensure_lock_row-Extends student_id context.term_id after id s e)
    ]

write_drop-Extends :
    (env : Env) (actor : Actor) (id section_id : ℕ) (seat : SectionCapacity) (ids : List ℕ)
    (db : Db)
    → Extends db (write_drop env actor id section_id seat ids db)
unfolding write_drop section_of
write_drop-Extends env actor id section_id seat ids db j s h =
    find-dropped env.tx_now id j db.enrollment ∙ h

-- A drop loses no enrollment and moves none to another section.
pub drop_for-Extends :
    (env : Env) (actor : Actor) (student_id id : ℕ) (before after d : Db)
    → drop_for env actor student_id id before after ≡ ok d
    → Extends after d
unfolding drop_for
drop_for-Extends env actor student_id id before after d h j s e =
    elim (Result-cases (require_can_register_for actor student_id)) [
      | inr (x, refused) ↦ absurd (ground arith)
      | inl (_, allowed) ↦
          elim (Result-cases (drop_context actor.institution_id student_id id before)) [
            | inr (x, missing) ↦ absurd (ground arith)
            | inl (row, known) ↦
                let db = ensure_lock_row student_id row.term_id after in
                let (_, _, _, _, seat, _, ids, written) =
                  drop_locked_inv env actor student_id id row db d (ground arith) in
                subst (λ (k : Db). section_of j k ≡ some s) (sym written)
                  (write_drop-Extends env actor id row.section_id seat ids db j s
                    (ensure_lock_row-Extends student_id row.term_id after j s e))
          ]
    ]

pub grant_override-SameSeats :
    (env : Env) (actor : Actor) (student_id : ℕ) (command : GrantOverrideCommand) (db : Db)
    (out : ℕ × Db)
    → grant_override env actor student_id command db ≡ ok out
    → SameSeats db out.1
unfolding grant_override
grant_override-SameSeats env actor student_id command db out h = ground arith

pub place_hold-SameSeats :
    (actor : Actor) (student_id term_id : ℕ) (flag reason : String) (db d : Db)
    → place_hold actor student_id term_id flag reason db ≡ ok d
    → SameSeats db d
unfolding place_hold write_flags
place_hold-SameSeats actor student_id term_id flag reason db d h = ground arith

pub release_hold-SameSeats :
    (actor : Actor) (student_id term_id : ℕ) (flag : String) (db d : Db)
    → release_hold actor student_id term_id flag db ≡ ok d
    → SameSeats db d
unfolding release_hold write_flags
release_hold-SameSeats actor student_id term_id flag db d h = ground arith

pub set_academic_status-SameSeats :
    (actor : Actor) (student_id : ℕ) (status : String) (db d : Db)
    → set_academic_status actor student_id status db ≡ ok d
    → SameSeats db d
unfolding set_academic_status
set_academic_status-SameSeats actor student_id status db d h = ground arith
