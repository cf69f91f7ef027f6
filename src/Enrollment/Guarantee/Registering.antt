-- ===== src/Enrollment/Guarantee/Registering.antt =====
-- A registration never finds its section without a row of capacity
-- (backend/src/enrollment/service.rs, `reserve_seat`).
use ubedtech.Prelude.{
  ℕ, String, ◌≡◌, ◌≢◌, refl, Option, none, some, List, ◌++◌, arith, Option-cases, inl, inr,
}
use ubedtech.Shared.Actor.{Actor}
use ubedtech.Shared.Error.{ok, err, integrity, Result-cases}
use ubedtech.Enrollment.State.{
  Db, Env, SectionCapacity, RegisterCommand, app, OverrideType, Denial, RegistrationContext,
}
use ubedtech.Enrollment.Claim.{claim_override, claim_if}
use ubedtech.Enrollment.Register.{
  register_for, register_locked, register_new, check_rules, take_seat, ensure_lock_row,
  registration_context, check_window, require_can_register_for, existing_enrollment, claim_key,
  is_held, term_state,
}
use ubedtech.Enrollment.Guarantee.{IsGuaranteed, Keeps-IsGuaranteed}
use ubedtech.Enrollment.Guarantee.Operations.{Reaches-Keeps}
use ubedtech.Enrollment.History.{Reaches}

take_seat_refusal :
    (c : SectionCapacity) (claim : Option ℕ) (message : String)
    → take_seat (some c) claim ≢ err (app (integrity message))
unfolding take_seat
take_seat_refusal c claim message h = ground arith

module _ (env : Env) (actor : Actor) (student_id : ℕ) (command : RegisterCommand)
    (message : String) where
  check_rules_refusal :
      (context : RegistrationContext) (ids : List ℕ) (db : Db)
      → db.section_capacity command.section_id ≢ none
      → check_rules env actor student_id command context ids db ≢ err (app (integrity message))
  unfolding check_rules
  check_rules_refusal context ids db present h =
      elim (Option-cases (db.section_capacity command.section_id)) [
        | inl missing ↦ present missing
        | inr (c, found) ↦
            let claim =
              claim_override env
                (claim_key actor student_id context.term_id command.section_id
                  OverrideType.capacity)
                db in
            ground (arith, take_seat_refusal c claim message)
      ]

  register_new_refusal :
      (context : RegistrationContext) (ids : List ℕ) (db : Db)
      → db.section_capacity command.section_id ≢ none
      → register_new env actor student_id command context ids db ≢ err (app (integrity message))
  unfolding register_new
  register_new_refusal context ids db present h =
      elim (Result-cases (check_rules env actor student_id command context ids db)) [
        | inl (r, passed) ↦ ground arith
        | inr (e, refused) ↦ ground (arith, check_rules_refusal context ids db present)
      ]

  register_locked_refusal :
      (context : RegistrationContext) (ids : List ℕ) (db : Db)
      → db.section_capacity command.section_id ≢ none
      → register_locked env actor student_id command context ids db ≢ err (app (integrity message))
  unfolding register_locked
  register_locked_refusal context ids db present h =
      elim (Result-cases (
        claim_if (is_held (term_state student_id context.term_id db))
          (claim_override env
            (claim_key actor student_id context.term_id command.section_id OverrideType.hold) db)
          Denial.hold)) [
            | inr (e, refused) ↦ ground arith
            | inl (hold_ids, lifted) ↦
                elim (Option-cases (
                  existing_enrollment actor.institution_id student_id command.idempotency_key db)) [
                    | inr (old, found) ↦ ground arith
                    | inl new ↦
                        register_new_refusal context (ids ++ hold_ids) db present (ground arith)
                  ]
          ]

  context_section :
      (db : Db) (context : RegistrationContext)
      → registration_context actor.institution_id command.section_id db ≡ ok context
      → db.section command.section_id ≢ none
  unfolding registration_context
  context_section db context h missing = ground arith

  check_window_refusal :
      (context : RegistrationContext) (db : Db)
      → check_window env actor student_id command context db ≢ err (app (integrity message))
  unfolding check_window
  check_window_refusal context db h = ground arith

  capacity_behind_lock :
      (term_id : ℕ) (after : Db)
      → (ensure_lock_row student_id term_id after).section_capacity ≡ after.section_capacity
  unfolding ensure_lock_row
  capacity_behind_lock term_id after = refl

  -- Where every section starts with its row of capacity, a registration never fails with an
  -- integrity error, whatever students and registrars have committed before it and between its two
  -- reads: new sections and other capacities too.
  pub register_for_guaranteed :
      {s b a : Db}
      → IsGuaranteed s
      → Reaches s b
      → Reaches b a
      → register_for env actor student_id command b a ≢ err (app (integrity message))
  unfolding register_for require_can_register_for registration_context
  register_for_guaranteed {s} {b} {a} g r q h =
      let all =
        Keeps-IsGuaranteed b a (Reaches-Keeps q) (Keeps-IsGuaranteed s b (Reaches-Keeps r) g) in
      elim (Option-cases
        (existing_enrollment actor.institution_id student_id command.idempotency_key b)) [
          | inr (old, found) ↦ ground arith
          | inl new ↦
              elim (Result-cases (registration_context actor.institution_id command.section_id b)) [
                | inr (e, missing) ↦ ground arith
                | inl (context, known) ↦
                    elim (Result-cases (check_window env actor student_id command context b)) [
                      | inr (e, shut) ↦ ground (arith, check_window_refusal context b)
                      | inl (ids, in_window) ↦ elim (Option-cases (a.section command.section_id)) [
                        | inl gone ↦
                            (Reaches-Keeps q).sections command.section_id
                              (context_section b context known) gone
                        | inr (x, there) ↦
                            register_locked_refusal context ids
                              (ensure_lock_row student_id context.term_id a)
                              (rw (capacity_behind_lock context.term_id a)
                                (all.guaranteed command.section_id x there))
                              (ground arith)
                      ]
                    ]
              ]
        ]
