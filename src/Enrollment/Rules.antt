-- ===== src/Enrollment/Rules.antt =====
-- The rules of a registration: what a new one has passed, and that passing them is enough.
use ubedtech.Prelude.{
  ℕ, ◌≤◌, ◌≡◌, refl, ◌∙◌, Bool, false, not, Option, none, some, List, ◌++◌, arith, exists_where,
  inl, inr, leb, ◌⊎◌,
}
use ubedtech.Shared.Actor.{Actor}
use ubedtech.Shared.Error.{ok, Result-cases}
use ubedtech.Enrollment.State.{
  Db, Env, SectionCapacity, RegisterCommand, EnrollmentReceipt, RegistrationContext, OverrideType,
  Denial,
}
use ubedtech.Enrollment.Claim.{claim_override, claim_if}
use ubedtech.Enrollment.Register.{
  take_seat, check_rules, register_new, register_locked, register_for, ensure_lock_row,
  existing_enrollment, term_state, claim_key, is_held, check_window, registration_context,
  require_can_register_for,
}
use ubedtech.Enrollment.State.{SectionStatus, active_for}
use ubedtech.Prelude.{◌≢◌}
use ubedtech.Enrollment.Consistency.Registration.{register_new_inv}
use ubedtech.Enrollment.Register.{already_completed, prerequisites_met, has_time_conflict}

-- A rule holds, or an override that lifts it could be claimed.
abbrev pub Lifted : Bool → Option ℕ → Type 0
Lifted broken claim = (broken ≡ false) ⊎ (claim ≢ none)

-- What the rules ask before the lock.
pub record InWindow (env : Env) (actor : Actor) (student_id : ℕ) (command : RegisterCommand)
    (context : RegistrationContext) (before : Db) : Type 0 where
  pub section_open : context.section_status ≡ SectionStatus.opened
  pub opened : context.registration_opens_at ≤ env.now
  pub not_closed : Lifted (leb context.add_drop_closes_at env.now) (
      claim_override env
        (claim_key actor student_id context.term_id command.section_id OverrideType.deadline)
        before)

check_window-InWindow :
    (env : Env) (actor : Actor) (student_id : ℕ) (command : RegisterCommand)
    (context : RegistrationContext) (before : Db) (ids : List ℕ)
    → check_window env actor student_id command context before ≡ ok ids
    → InWindow env actor student_id command context before
unfolding check_window
check_window-InWindow env actor student_id command context before ids h = ground arith

-- What they ask behind it.
pub record MeetsRules (env : Env) (actor : Actor) (student_id : ℕ) (command : RegisterCommand)
    (context : RegistrationContext) (db : Db) : Type 0 where
  pub not_duplicate : exists_where (active_for student_id command.section_id) db.enrollment ≡ false
  pub not_completed : already_completed student_id context.course_id db ≡ false
  pub prepared : Lifted (not (prerequisites_met student_id context.course_id db)) (
      claim_override env
        (claim_key actor student_id context.term_id command.section_id OverrideType.prerequisite)
        db)
  pub no_conflict : Lifted (has_time_conflict student_id command.section_id context.term_id db) (
      claim_override env
        (claim_key actor student_id context.term_id command.section_id
          OverrideType.schedule_conflict)
        db)
  pub seat_left :
      (c : SectionCapacity)
      → db.section_capacity command.section_id ≡ some c
      → Lifted (leb c.capacity c.enrolled_count) (
          claim_override env
            (claim_key actor student_id context.term_id command.section_id OverrideType.capacity)
            db)

check_rules-MeetsRules :
    (env : Env) (actor : Actor) (student_id : ℕ) (command : RegisterCommand)
    (context : RegistrationContext) (ids : List ℕ) (db : Db) (r : SectionCapacity × List ℕ)
    → check_rules env actor student_id command context ids db ≡ ok r
    → MeetsRules env actor student_id command context db
unfolding check_rules take_seat
check_rules-MeetsRules env actor student_id command context ids db r h = record {
  not_duplicate = ground arith;
  not_completed = ground arith;
  prepared = ground arith;
  no_conflict = ground arith;
  seat_left = λ c e. ground arith;
}

-- The lock row changes nothing that is read behind it.
ensure_lock_row_same :
    (env : Env) (actor : Actor) (student_id : ℕ) (command : RegisterCommand)
    (context : RegistrationContext) (after : Db)
    → let db = ensure_lock_row student_id context.term_id after in
      let key = claim_key actor student_id context.term_id command.section_id OverrideType.hold in
      (term_state student_id context.term_id db ≡ term_state student_id context.term_id after)
      × (claim_override env key db ≡ claim_override env key after)
      × (existing_enrollment actor.institution_id student_id command.idempotency_key db
          ≡ existing_enrollment actor.institution_id student_id command.idempotency_key after)
unfolding ensure_lock_row term_state claim_override
ensure_lock_row_same env actor student_id command context after = (ground arith, refl, refl)

register_locked_new :
    (env : Env) (actor : Actor) (student_id : ℕ) (command : RegisterCommand)
    (context : RegistrationContext) (ids hold_ids : List ℕ) (db : Db) (out : EnrollmentReceipt × Db)
    → existing_enrollment actor.institution_id student_id command.idempotency_key db ≡ none
    → claim_if
        (is_held (term_state student_id context.term_id db))
        (claim_override env
          (claim_key actor student_id context.term_id command.section_id OverrideType.hold)
          db)
        Denial.hold
      ≡ ok hold_ids
    → register_locked env actor student_id command context ids db ≡ ok out
    → register_new env actor student_id command context (ids ++ hold_ids) db ≡ ok out
unfolding register_locked
register_locked_new env actor student_id command context ids hold_ids db out new e h = ground arith

register_locked_rules :
    (env : Env) (actor : Actor) (student_id : ℕ) (command : RegisterCommand)
    (context : RegistrationContext) (ids : List ℕ) (after : Db) (out : EnrollmentReceipt × Db)
    → existing_enrollment actor.institution_id student_id command.idempotency_key after ≡ none
    → register_locked env actor student_id command context ids
        (ensure_lock_row student_id context.term_id after)
      ≡ ok out
    → Lifted (is_held (term_state student_id context.term_id after)) (
        claim_override env
          (claim_key actor student_id context.term_id command.section_id OverrideType.hold)
          after)
      × MeetsRules env actor student_id command context
          (ensure_lock_row student_id context.term_id after)
unfolding register_locked
register_locked_rules env actor student_id command context ids after out still h =
    let db = ensure_lock_row student_id context.term_id after in
    let claim =
      claim_override env
        (claim_key actor student_id context.term_id command.section_id OverrideType.hold) db in
    let same = ensure_lock_row_same env actor student_id command context after in
    elim (Result-cases
      (claim_if (is_held (term_state student_id context.term_id db)) claim Denial.hold)) [
        | inr (x, refused) ↦ absurd (ground arith)
        | inl (hold_ids, e) ↦
            let lifted : Lifted (is_held (term_state student_id context.term_id db)) claim =
              ground arith in
            let (r, passed, _, _) =
              register_new_inv env actor student_id command context (ids ++ hold_ids) db out (
                register_locked_new env actor student_id command context ids hold_ids db out
                  (same.2 ∙ still) e h) in
            (
              rw (← same.0, ← same.1) lifted,
              check_rules-MeetsRules env actor student_id command context (ids ++ hold_ids) db r
                  passed,
            )
      ]

-- A registration whose key is new before and behind the lock makes an enrollment only in an open
-- section of the actor's institution, within the window, of a student who is not held, not enrolled
-- there, has not completed the course, meets the prerequisites, has no conflict in time and finds a
-- seat; where a rule that an override can lift is broken, such an override could be claimed.
pub register_for_rules :
    (env : Env) (actor : Actor) (student_id : ℕ) (command : RegisterCommand) (before after : Db)
    (out : EnrollmentReceipt × Db)
    → existing_enrollment actor.institution_id student_id command.idempotency_key before ≡ none
    → existing_enrollment actor.institution_id student_id command.idempotency_key after ≡ none
    → register_for env actor student_id command before after ≡ ok out
    → (context : RegistrationContext) × (registration_context actor.institution_id
          command.section_id before
        ≡ ok context)
      × InWindow env actor student_id command context before
      × Lifted (is_held (term_state student_id context.term_id after)) (
          claim_override env
            (claim_key actor student_id context.term_id command.section_id OverrideType.hold)
            after)
      × MeetsRules env actor student_id command context
          (ensure_lock_row student_id context.term_id after)
unfolding register_for
register_for_rules env actor student_id command before after out new still h =
    elim (Result-cases (require_can_register_for actor student_id)) [
      | inr (x, refused) ↦ absurd (ground arith)
      | inl (_, allowed) ↦
          elim (Result-cases
            (registration_context actor.institution_id command.section_id before)) [
              | inr (x, missing) ↦ absurd (ground arith)
              | inl (context, known) ↦
                  elim (Result-cases (check_window env actor student_id command context before)) [
                    | inr (x, shut) ↦ absurd (ground arith)
                    | inl (ids, in_window) ↦
                        let (lifted, rules) =
                          register_locked_rules env actor student_id command context ids after out
                            still (ground arith) in
                        (
                          context,
                          known,
                          check_window-InWindow env actor student_id command context before ids
                              in_window,
                          lifted,
                          rules,
                        )
                  ]
            ]
    ]
