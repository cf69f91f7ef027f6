-- ===== src/Enrollment/Examples.antt =====
-- A small registration season, and the theorems of enrollment at it.
use ubedtech.Prelude.{
  ℕ, ◌≤◌, ◌≡◌, refl, true, false, ◌&&◌, Option, none, some, [], ◌∷◌, arith, ◌==◌, if◌then◌else◌,
  count_where, exists_where, ◌⊎◌,
}
use ubedtech.Shared.Actor.{Actor, Role}
use ubedtech.Shared.Error.{ok, err, not_found, forbidden, database}
use ubedtech.Enrollment.State.{
  Db, Env, Section, SectionStatus, AcademicTerm, SectionCapacity, EnrollmentStatus,
  RegistrationOverride, OverrideType, TermStatus, RegisterCommand, Denial, EnrollmentReceipt,
  RegistrationContext, denied, app, active_in, EnrollmentRow,
}
use ubedtech.Enrollment.Claim.{
  comes_before, first_claimable, claim_override, stamp_overrides_consumed,
}
use ubedtech.Enrollment.Claim.Order.{claimable, claim_override_lem}
use ubedtech.Enrollment.Register.{
  register_for, registration_context, check_window, register_locked, register_new, check_rules,
  take_seat, is_insertable, write_registration, ensure_lock_row, term_state, is_held,
  already_completed, prerequisites_met, has_time_conflict, require_can_register_for, claim_key,
  can_lock, existing_enrollment, receipt_of,
}
use ubedtech.Enrollment.Drop.{
  drop_for, drop_context, drop_locked, release_seat, consumed_capacity_override, write_drop,
}
use ubedtech.Enrollment.Drop.Refusals.{drop_for_refusal}
use ubedtech.Enrollment.Consistency.{IsConsistent}
use ubedtech.Enrollment.Consistency.Registration.{register_for-IsConsistent}
use ubedtech.Enrollment.Consistency.Dropping.{section_of, section_in}
use ubedtech.Enrollment.History.{
  Reaches, here, registered, unregistered, Reaches-IsConsistent, active-le-capacity,
}
use ubedtech.Enrollment.Replay.{register_for-register_for, register_for_concurrent}
use ubedtech.Enrollment.Rules.{Lifted, InWindow, MeetsRules, register_for_rules}

abbrev dana : Actor
dana = record { user_id = 7; institution_id = 1; student_id = some 42; roles = Role.student ∷ [] }

abbrev cs_section : Section
cs_section = record {
  institution_id = 1;
  term_id = 10;
  course_id = 20;
  status = SectionStatus.opened;
}

abbrev fall : AcademicTerm
fall = record { institution_id = 1; registration_opens_at = 100; add_drop_closes_at = 200 }

abbrev one_seat : SectionCapacity
one_seat = record { capacity = 1; enrolled_count = 0; version = 1 }

-- Section 5 of term 10 has one seat; nobody is enrolled.
abbrev empty_db : Db
empty_db = record {
  section = λ s. if s == 5 then some cs_section else none;
  academic_term = λ t. if t == 10 then some fall else none;
  section_capacity = λ s. if s == 5 then some one_seat else none;
  enrollment = [];
  registration_override = [];
  student_term_registration = λ s t. none;
  section_meeting = [];
  course_prerequisite = [];
  best_grade_points = λ s c. none;
  student_profile = λ s.
      if s == 42
      then some (record { institution_id = 1; academic_status = "good_standing" })
      else none;
  audit_event = [];
}

abbrev env : Env
env = record { now = 150; tx_now = 150; new_id = 900; locked = [] }

abbrev later : Env
later = record { now = 160; tx_now = 160; new_id = 901; locked = [] }

abbrev command : RegisterCommand
command = record { section_id = 5; idempotency_key = 77 }

abbrev receipt : EnrollmentReceipt
receipt = record {
  enrollment_id = 900;
  section_id = 5;
  status = EnrollmentStatus.enrolled;
  registered_at = 150;
}

-- What the registration of Dana in section 5 commits.
abbrev registered_db : Db
registered_db =
    write_registration env dana 42 command
      (record { capacity = 1; enrolled_count = 1; version = 2 }) [] (ensure_lock_row 42 10 empty_db)

dana_registers : register_for env dana 42 command empty_db empty_db ≡ ok (receipt, registered_db)
unfolding register_for can_lock require_can_register_for registration_context check_window
    register_locked register_new check_rules take_seat is_insertable write_registration
    ensure_lock_row term_state is_held already_completed prerequisites_met has_time_conflict
    claim_override
dana_registers = refl

empty_db-IsConsistent : IsConsistent empty_db
empty_db-IsConsistent = record {
  counted = λ s c h. ground arith;
  within = λ s c h. ground arith;
  placed = λ s h. refl;
  single = λ st s. omega arith;
  keyed = λ i st k. omega arith;
  identified = λ id. omega arith;
}

registered_db-IsConsistent : IsConsistent registered_db
registered_db-IsConsistent =
    register_for-IsConsistent env dana 42 command empty_db empty_db (receipt, registered_db)
      empty_db-IsConsistent dana_registers

dana_in : Reaches empty_db registered_db
dana_in = registered env dana 42 command (receipt, registered_db) here here dana_registers

Reaches-IsConsistent_example : IsConsistent registered_db
Reaches-IsConsistent_example = Reaches-IsConsistent empty_db-IsConsistent dana_in

active-le-capacity_example : count_where (active_in 5) registered_db.enrollment ≤ 1
unfolding write_registration ensure_lock_row
active-le-capacity_example =
    active-le-capacity 5 (record { capacity = 1; enrolled_count = 1; version = 2 })
      empty_db-IsConsistent dana_in refl

register_for_rules_example :
    (c : RegistrationContext) × (registration_context 1 5 empty_db ≡ ok c)
    × InWindow env dana 42 command c empty_db
    × Lifted
        (is_held (term_state 42 c.term_id empty_db))
        (claim_override env (claim_key dana 42 c.term_id 5 OverrideType.hold) empty_db)
    × MeetsRules env dana 42 command c (ensure_lock_row 42 c.term_id empty_db)
register_for_rules_example =
    register_for_rules env dana 42 command empty_db empty_db (receipt, registered_db) refl refl
      dana_registers

-- An override of Dana's for the whole term, and one for section 5 that is newer.
abbrev waiver : ℕ → Option ℕ → ℕ → RegistrationOverride
waiver id section_id at = record {
  id = id;
  institution_id = 1;
  student_id = 42;
  term_id = 10;
  section_id = section_id;
  override_type = OverrideType.hold;
  granted_by_user_id = 3;
  expires_at = none;
  note = "advised";
  created_at = at;
  consumed_at = none;
  consumed_by_enrollment_id = none;
}

abbrev waived_db : Db
waived_db = record empty_db { registration_override = waiver 1 none 10 ∷ waiver 2 (some 5) 20 ∷ [] }

claims_section_first :
    claim_override env (claim_key dana 42 10 5 OverrideType.hold) waived_db ≡ some 2
unfolding claim_override first_claimable
claims_section_first = refl

claim_override_lem_example :
    (o : RegistrationOverride) × (o.id ≡ 2)
    × mathlib.Core.List.Memᴰ o waived_db.registration_override
    × (claimable 150 [] (claim_key dana 42 10 5 OverrideType.hold) o ≡ true)
    × (exists_where
          (λ x. claimable 150 [] (claim_key dana 42 10 5 OverrideType.hold) x && comes_before x o)
          waived_db.registration_override
        ≡ false)
claim_override_lem_example =
    (claim_override_lem env (claim_key dana 42 10 5 OverrideType.hold) waived_db).0 2
      claims_section_first

-- After the window a drop of Dana's is refused.
abbrev too_late : Env
too_late = record { now = 300; tx_now = 300; new_id = 902; locked = [] }

late_drop :
    drop_for too_late dana 42 900 registered_db registered_db ≡ err (denied Denial.window_closed)
unfolding drop_for drop_context drop_locked require_can_register_for write_registration
    ensure_lock_row claim_override first_claimable stamp_overrides_consumed
late_drop = refl

drop_for_refusal_example :
    (denied Denial.window_closed ≡ app forbidden)
    ⊎ (denied Denial.window_closed ≡ app not_found)
    ⊎ (denied Denial.window_closed ≡ denied Denial.window_closed)
unfolding section_of section_in write_registration ensure_lock_row
drop_for_refusal_example =
    drop_for_refusal too_late dana 42 900 registered_db registered_db (denied Denial.window_closed)
      registered_db-IsConsistent registered_db-IsConsistent (λ id s h. h) (λ s h. ground arith)
      late_drop

-- Within it the seat is free again.
abbrev dropped_db : Db
dropped_db =
    write_drop later dana 900 5 (record { capacity = 1; enrolled_count = 0; version = 3 }) []
      (ensure_lock_row 42 10 registered_db)

dana_drops : drop_for later dana 42 900 registered_db registered_db ≡ ok dropped_db
unfolding drop_for drop_context drop_locked release_seat consumed_capacity_override write_drop
    require_can_register_for write_registration ensure_lock_row claim_override first_claimable
    stamp_overrides_consumed
dana_drops = refl

-- Dana submits her registration once more after the drop: the same enrollment answers.
register_for-register_for_example :
    (e : EnrollmentRow) × (existing_enrollment 1 42 77 dropped_db ≡ some e)
    × (register_for later dana 42 command dropped_db dropped_db ≡ ok (receipt_of e, dropped_db))
    × (e.id ≡ 900)
    × (e.section_id ≡ 5)
    × (e.registered_at ≡ 150)
register_for-register_for_example =
    register_for-register_for env later dana 42 command empty_db empty_db dropped_db dropped_db
      (receipt, registered_db) here dana_registers
      (unregistered later dana 42 900 here here dana_drops)

-- A second submission that had read before the first one committed.
second_submission :
    register_for later dana 42 command empty_db registered_db
    ≡ ok (receipt, ensure_lock_row 42 10 registered_db)
unfolding register_for register_locked can_lock require_can_register_for registration_context
    check_window is_held term_state ensure_lock_row write_registration
second_submission = refl

register_for_concurrent_example :
    (receipt.enrollment_id ≡ 900)
    × (receipt.section_id ≡ 5)
    × (receipt.registered_at ≡ 150)
    × ((ensure_lock_row 42 10 registered_db).enrollment ≡ registered_db.enrollment)
register_for_concurrent_example =
    register_for_concurrent env later dana 42 command empty_db empty_db empty_db registered_db
      (receipt, registered_db) (receipt, ensure_lock_row 42 10 registered_db) here dana_registers
      here dana_in second_submission

-- A registrar cannot register a student who is not there.
abbrev ron : Actor
ron = record { user_id = 8; institution_id = 1; student_id = none; roles = Role.registrar ∷ [] }

unknown_student : register_for env ron 43 command empty_db empty_db ≡ err (app database)
unfolding register_for can_lock require_can_register_for registration_context check_window
unknown_student = refl

-- Dana's term is held after all: a second submission that had read before the first one committed is
-- denied, since the hold is tested before the second lookup by the key.
abbrev held_db : Db
held_db = record registered_db {
  student_term_registration =
      λ s t. some (record { status = TermStatus.eligible; hold_flags = "advising" ∷ [] });
}

held_submission : register_for later dana 42 command empty_db held_db ≡ err (denied Denial.hold)
unfolding register_for register_locked can_lock require_can_register_for registration_context
    check_window is_held term_state ensure_lock_row write_registration claim_override
    first_claimable stamp_overrides_consumed
held_submission = refl
