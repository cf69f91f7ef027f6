-- ===== src/Enrollment/Consistency/Registration.antt =====
-- A registration keeps the tables of enrollment consistent.
use mathlib.Core.Path.{subst}
use ubedtech.Prelude.{
  ℕ, ◌+◌, ◌≤◌, ◌≡◌, sym, true, some, List, ◌++◌, arith, Option-cases, inl, inr, ◌⊎◌,
}
use ubedtech.Shared.Actor.{Actor}
use ubedtech.Shared.Error.{ok, Result-cases}
use ubedtech.Enrollment.State.{
  Db, Env, SectionCapacity, RegisterCommand, EnrollmentReceipt, RegistrationContext, OverrideType,
  Denial,
}
use ubedtech.Enrollment.Claim.{claim_override, claim_if}
use ubedtech.Enrollment.Register.{
  is_insertable, take_seat, write_registration, new_enrollment, check_rules, register_new,
  register_locked, register_for, ensure_lock_row, existing_enrollment, receipt_of, term_state,
  claim_key, is_held, check_window, registration_context, require_can_register_for,
}
use ubedtech.Enrollment.Consistency.{
  IsConsistent, ensure_lock_row-IsConsistent, write_registration-IsConsistent,
}

module _ (env : Env) (actor : Actor) (student_id : ℕ) (command : RegisterCommand)
    (context : RegistrationContext) (ids : List ℕ) where
  -- The rules pass only where the section has a capacity row.
  check_rules_row :
      (db : Db) (r : SectionCapacity × List ℕ)
      → check_rules env actor student_id command context ids db ≡ ok r
      → (c : SectionCapacity) × (db.section_capacity command.section_id ≡ some c)
  unfolding check_rules take_seat
  check_rules_row db r h = elim (Option-cases (db.section_capacity command.section_id)) [
    | inl missing ↦ absurd (ground arith)
    | inr (c, e) ↦ (c, e)
  ]

  -- The seat that they take is one more, and within the capacity.
  check_rules_seat :
      (db : Db) (r : SectionCapacity × List ℕ) (c : SectionCapacity)
      → check_rules env actor student_id command context ids db ≡ ok r
      → db.section_capacity command.section_id ≡ some c
      → c.enrolled_count ≤ c.capacity
      → (r.0.enrolled_count ≡ c.enrolled_count + 1) × (r.0.enrolled_count ≤ r.0.capacity)
  unfolding check_rules take_seat
  check_rules_seat db r c h e w = ground arith

  -- What a new registration has passed, and what it wrote.
  pub register_new_inv :
      (db : Db) (out : EnrollmentReceipt × Db)
      → register_new env actor student_id command context ids db ≡ ok out
      → (r : SectionCapacity × List ℕ) × (check_rules env actor student_id command context ids db
          ≡ ok r)
        × (is_insertable (new_enrollment env actor student_id command) db.enrollment ≡ true)
        × (out ≡ (
          receipt_of (new_enrollment env actor student_id command),
          write_registration env actor student_id command r.0 r.1 db,
        ))
  unfolding register_new
  register_new_inv db out h =
      elim (Result-cases (check_rules env actor student_id command context ids db)) [
        | inl (r, passed) ↦ (r, passed, ground arith, ground arith)
        | inr (x, refused) ↦ absurd (ground arith)
      ]

  register_new-IsConsistent :
      (db : Db) (out : EnrollmentReceipt × Db)
      → IsConsistent db
      → register_new env actor student_id command context ids db ≡ ok out
      → IsConsistent out.1
  register_new-IsConsistent db out v h =
      let (r, passed, fresh, written) = register_new_inv db out h in
      let (c, found) = check_rules_row db r passed in
      let (more, fits) =
        check_rules_seat db r c passed found (v.within command.section_id c found) in
      subst (λ (o : EnrollmentReceipt × Db). IsConsistent o.1) (sym written)
        (write_registration-IsConsistent env actor student_id command c r.0 r.1 db v found more fits
          fresh)

  -- Behind the lock either an earlier enrollment is returned, or a new one is made.
  register_locked_inv :
      (db : Db) (out : EnrollmentReceipt × Db)
      → register_locked env actor student_id command context ids db ≡ ok out
      → (out.1 ≡ db)
        ⊎ ((used : List ℕ) × (register_new env actor student_id command context used db ≡ ok out))
  unfolding register_locked
  register_locked_inv db out h =
      elim (Result-cases (
        claim_if (is_held (term_state student_id context.term_id db))
          (claim_override env
            (claim_key actor student_id context.term_id command.section_id OverrideType.hold) db)
          Denial.hold)) [
            | inl (hold_ids, e) ↦
                elim (Option-cases (
                  existing_enrollment actor.institution_id student_id command.idempotency_key db)) [
                    | inl new ↦ inr (ids ++ hold_ids, ground arith)
                    | inr (old, found) ↦ inl (ground arith)
                  ]
            | inr (x, refused) ↦ absurd (ground arith)
          ]

-- How a registration ends: with the state that it found, or with a new enrollment on top of it.
pub register_for_inv :
    (env : Env) (actor : Actor) (student_id : ℕ) (command : RegisterCommand) (before after : Db)
    (out : EnrollmentReceipt × Db)
    → register_for env actor student_id command before after ≡ ok out
    → (out.1 ≡ after)
      ⊎ ((context : RegistrationContext) × ((out.1
              ≡ ensure_lock_row student_id context.term_id after)
            ⊎ ((used : List ℕ) × (register_new env actor student_id command context used
                    (ensure_lock_row student_id context.term_id after)
                  ≡ ok out))))
unfolding register_for
register_for_inv env actor student_id command before after out h =
    elim (Result-cases (require_can_register_for actor student_id)) [
      | inr (x, refused) ↦ absurd (ground arith)
      | inl (_, allowed) ↦
          elim (Option-cases
            (existing_enrollment actor.institution_id student_id command.idempotency_key before)) [
              | inr (old, found) ↦ inl (ground arith)
              | inl new ↦
                  elim (Result-cases
                    (registration_context actor.institution_id command.section_id before)) [
                      | inr (x, missing) ↦ absurd (ground arith)
                      | inl (context, known) ↦
                          elim (Result-cases
                            (check_window env actor student_id command context before)) [
                              | inr (x, shut) ↦ absurd (ground arith)
                              | inl (ids, in_window) ↦ inr (
                                context,
                                register_locked_inv env actor student_id command context ids
                                    (ensure_lock_row student_id context.term_id after) out
                                    (ground arith),
                              )
                            ]
                    ]
            ]
    ]

-- A registration that succeeds commits a consistent state, whatever other transactions have
-- committed between its two reads, if they left one.
pub register_for-IsConsistent :
    (env : Env) (actor : Actor) (student_id : ℕ) (command : RegisterCommand) (before after : Db)
    (out : EnrollmentReceipt × Db)
    → IsConsistent after
    → register_for env actor student_id command before after ≡ ok out
    → IsConsistent out.1
register_for-IsConsistent env actor student_id command before after out v h =
    elim (register_for_inv env actor student_id command before after out h) [
      | inl same ↦ subst (λ (d : Db). IsConsistent d) (sym same) v
      | inr (context, inl same) ↦
          subst (λ (d : Db). IsConsistent d) (sym same)
            (ensure_lock_row-IsConsistent student_id context.term_id after v)
      | inr (context, inr (used, made)) ↦
          register_new-IsConsistent env actor student_id command context used
            (ensure_lock_row student_id context.term_id after) out
            (ensure_lock_row-IsConsistent student_id context.term_id after v) made
    ]
