-- ===== src/Enrollment/Replay.antt =====
-- Submitting a registration again: what the idempotency key promises
-- (backend/src/enrollment/service.rs, `register_for` and its two lookups by the key).
use ubedtech.Prelude.{ℕ, ◌≡◌, refl, some, List, ◌++◌, arith, Option-cases, inl, inr, ap, Option}
use ubedtech.Shared.Actor.{Actor}
use ubedtech.Shared.Error.{ok, Result-cases}
use ubedtech.Enrollment.State.{
  Db, Env, EnrollmentRow, RegisterCommand, EnrollmentReceipt, RegistrationContext, OverrideType,
  Denial,
}
use ubedtech.Enrollment.Claim.{claim_override, claim_if}
use ubedtech.Enrollment.Register.{
  write_registration, register_new, register_locked, register_for, ensure_lock_row,
  existing_enrollment, term_state, claim_key, is_held, check_window, registration_context,
  require_can_register_for, receipt_of,
}
use ubedtech.Enrollment.Consistency.Registration.{register_new_inv}
use ubedtech.Enrollment.History.{Reaches}
use ubedtech.Enrollment.Keys.{Identity, key_in, Reaches-KeepsKeys}

-- What of a receipt stays true.
abbrev pub identity : EnrollmentReceipt → Identity
identity r = (r.enrollment_id, r.section_id, r.registered_at)

-- The enrollment that the key of the command names.
abbrev pub under_key : Actor → ℕ → RegisterCommand → Db → Option Identity
under_key actor student_id command db =
    key_in actor.institution_id student_id command.idempotency_key db.enrollment

under_key_found :
    (actor : Actor) (student_id : ℕ) (command : RegisterCommand) (db : Db) (e : EnrollmentRow)
    → existing_enrollment actor.institution_id student_id command.idempotency_key db ≡ some e
    → under_key actor student_id command db ≡ some (identity (receipt_of e))
unfolding key_in
under_key_found actor student_id command db e found = ground arith

under_key_row :
    (actor : Actor) (student_id : ℕ) (command : RegisterCommand) (db : Db) (t : Identity)
    → under_key actor student_id command db ≡ some t
    → (e : EnrollmentRow) × (existing_enrollment actor.institution_id student_id
          command.idempotency_key db
        ≡ some e)
      × (identity (receipt_of e) ≡ t)
unfolding key_in
under_key_row actor student_id command db t h =
    elim (Option-cases
      (existing_enrollment actor.institution_id student_id command.idempotency_key db)) [
        | inl nothing ↦ absurd (ground arith)
        | inr (e, found) ↦ (e, found, ground arith)
      ]

-- A row that is found by its key answers a registration with that key at once.
register_for-existing :
    (env : Env) (actor : Actor) (student_id : ℕ) (command : RegisterCommand) (b a : Db)
    (e : EnrollmentRow)
    → require_can_register_for actor student_id ≡ ok tt
    → existing_enrollment actor.institution_id student_id command.idempotency_key b ≡ some e
    → register_for env actor student_id command b a ≡ ok (receipt_of e, a)
unfolding register_for
register_for-existing env actor student_id command b a e allowed found = ground arith

register_for_allowed :
    (env : Env) (actor : Actor) (student_id : ℕ) (command : RegisterCommand) (b a : Db)
    (out : EnrollmentReceipt × Db)
    → register_for env actor student_id command b a ≡ ok out
    → require_can_register_for actor student_id ≡ ok tt
unfolding register_for require_can_register_for
register_for_allowed env actor student_id command b a out h = ground arith

-- What a new registration leaves under its key.
register_new-under_key :
    (env : Env) (actor : Actor) (student_id : ℕ) (command : RegisterCommand)
    (context : RegistrationContext) (ids : List ℕ) (db : Db) (out : EnrollmentReceipt × Db)
    → register_new env actor student_id command context ids db ≡ ok out
    → under_key actor student_id command out.1 ≡ some (identity out.0)
unfolding write_registration key_in
register_new-under_key env actor student_id command context ids db out h =
    let (r, passed, fresh, written) =
      register_new_inv env actor student_id command context ids db out h in
    ground arith

-- Behind the lock, the key names the enrollment of the receipt: the one that was there, if there was
-- one, and then nothing is written.
register_locked-under_key :
    (env : Env) (actor : Actor) (student_id : ℕ) (command : RegisterCommand)
    (context : RegistrationContext) (ids : List ℕ) (db : Db) (out : EnrollmentReceipt × Db)
    → register_locked env actor student_id command context ids db ≡ ok out
    → (under_key actor student_id command out.1 ≡ some (identity out.0))
      × ((t : Identity) → under_key actor student_id command db ≡ some t → out.1 ≡ db)
unfolding register_locked
register_locked-under_key env actor student_id command context ids db out h =
    elim (Result-cases (
      claim_if (is_held (term_state student_id context.term_id db))
        (claim_override env
          (claim_key actor student_id context.term_id command.section_id OverrideType.hold) db)
        Denial.hold)) [
          | inl (hold_ids, e) ↦
              elim (Option-cases
                (existing_enrollment actor.institution_id student_id command.idempotency_key db)) [
                  | inl new ↦ (
                    register_new-under_key env actor student_id command context (ids ++ hold_ids) db
                        out (ground arith),
                    λ t named.
                        let (row, found, _) = under_key_row actor student_id command db t named in
                        absurd (ground arith),
                  )
                  | inr (old, found) ↦
                      let same : out ≡ (receipt_of old, db) = ground arith in
                      (
                        rw same (under_key_found actor student_id command db old found),
                        λ t named. rw same refl,
                      )
                ]
          | inr (x, refused) ↦ absurd (ground arith)
        ]

-- After a registration its key names the enrollment of its receipt. If the key named one behind the
-- lock before, no enrollment is written.
register_for-under_key :
    (env : Env) (actor : Actor) (student_id : ℕ) (command : RegisterCommand) (b a : Db)
    (out : EnrollmentReceipt × Db)
    → Reaches b a
    → register_for env actor student_id command b a ≡ ok out
    → (under_key actor student_id command out.1 ≡ some (identity out.0))
      × ((t : Identity)
          → under_key actor student_id command a ≡ some t
          → out.1.enrollment ≡ a.enrollment)
unfolding register_for ensure_lock_row
register_for-under_key env actor student_id command b a out q h =
    elim (Result-cases (require_can_register_for actor student_id)) [
      | inr (x, refused) ↦ absurd (ground arith)
      | inl (_, allowed) ↦
          elim (Option-cases
            (existing_enrollment actor.institution_id student_id command.idempotency_key b)) [
              | inr (old, found) ↦
                  let same : out ≡ (receipt_of old, a) = ground arith in
                  (
                    rw same (
                        Reaches-KeepsKeys q actor.institution_id student_id command.idempotency_key
                          (identity (receipt_of old))
                          (under_key_found actor student_id command b old found)),
                    λ t named. rw same refl,
                  )
              | inl new ↦
                  elim (Result-cases
                    (registration_context actor.institution_id command.section_id b)) [
                      | inr (x, missing) ↦ absurd (ground arith)
                      | inl (context, known) ↦
                          elim (Result-cases
                            (check_window env actor student_id command context b)) [
                              | inr (x, shut) ↦ absurd (ground arith)
                              | inl (ids, in_window) ↦
                                  let db = ensure_lock_row student_id context.term_id a in
                                  let (named, kept) =
                                    register_locked-under_key env actor student_id command context
                                      ids db out (ground arith) in
                                  (named, λ t there. rw (kept t there) refl)
                            ]
                    ]
            ]
    ]

-- A registration that succeeded, its second read after its first in one history, answers every
-- repetition by its actor that reads at a later state: whatever transactions have committed in
-- between, drops and changes of the registrar included, and whatever there is by the time that it
-- ends, the repetition succeeds and writes nothing. Its receipt is that of the row under the key,
-- with the id, the section and the time of registration of the first receipt, and the status that
-- the row has by then.
pub register_for-register_for :
    (env later : Env) (actor : Actor) (student_id : ℕ) (command : RegisterCommand)
    (before after b a : Db) (out : EnrollmentReceipt × Db)
    → Reaches before after
    → register_for env actor student_id command before after ≡ ok out
    → Reaches out.1 b
    → (e : EnrollmentRow) × (existing_enrollment actor.institution_id student_id
          command.idempotency_key b
        ≡ some e)
      × (register_for later actor student_id command b a ≡ ok (receipt_of e, a))
      × (e.id ≡ out.0.enrollment_id)
      × (e.section_id ≡ out.0.section_id)
      × (e.registered_at ≡ out.0.registered_at)
register_for-register_for env later actor student_id command before after b a out q h run =
    let (named, _) = register_for-under_key env actor student_id command before after out q h in
    let (e, found, same) = under_key_row actor student_id command b (identity out.0) (
      Reaches-KeepsKeys run actor.institution_id student_id command.idempotency_key (identity out.0)
        named) in
    let allowed = register_for_allowed env actor student_id command before after out h in
    (
      e,
      found,
      register_for-existing later actor student_id command b a e allowed found,
      ap (λ (t : Identity). t.0) same,
      ap (λ (t : Identity). t.1) same,
      ap (λ (t : Identity). t.2) same,
    )

-- A second submission never makes a second enrollment. Once a registration has committed, a
-- submission of the same command by the same actor that locks at a later state, whatever earlier
-- state it had read before its lock, names the enrollment, the section and the time of registration
-- of the first if it succeeds, and leaves the enrollments as they were.
pub register_for_concurrent :
    (env later : Env) (actor : Actor) (student_id : ℕ) (command : RegisterCommand)
    (before after b a : Db) (out again : EnrollmentReceipt × Db)
    → Reaches before after
    → register_for env actor student_id command before after ≡ ok out
    → Reaches out.1 a
    → Reaches b a
    → register_for later actor student_id command b a ≡ ok again
    → (again.0.enrollment_id ≡ out.0.enrollment_id)
      × (again.0.section_id ≡ out.0.section_id)
      × (again.0.registered_at ≡ out.0.registered_at)
      × (again.1.enrollment ≡ a.enrollment)
register_for_concurrent env later actor student_id command before after b a out again q h run q'
      h' =
    let (named, _) = register_for-under_key env actor student_id command before after out q h in
    let there =
      Reaches-KeepsKeys run actor.institution_id student_id command.idempotency_key (identity out.0)
        named in
    let (named', kept) = register_for-under_key later actor student_id command b a again q' h' in
    let same = kept (identity out.0) there in
    let one : identity again.0 ≡ identity out.0 = ground arith in
    (
      ap (λ (t : Identity). t.0) one,
      ap (λ (t : Identity). t.1) one,
      ap (λ (t : Identity). t.2) one,
      same,
    )
