-- ===== src/Enrollment/Register/Context.antt =====
-- backend/src/enrollment/service.rs, policy.rs: who may register, the lookups of a registration by its
-- key and its section, the window, and the row that it locks.
use ubedtech.Prelude.{
  ℕ, Bool, true, false, ◌&&◌, ◌||◌, not, Option, none, some, List, [], ltb, leb, ◌==◌,
  if◌then◌else◌, is_some_eq, find_where,
}
use ubedtech.Shared.Actor.{Actor, Role, has_role}
use ubedtech.Shared.Error.{Result, ok, err, ◌>>◌, guard, forbidden, not_found}
use ubedtech.Enrollment.State.{
  Db, Env, SectionStatus, EnrollmentRow, OverrideType, StudentTermState, TermStatus,
  RegisterCommand, Denial, EnrollError, denied, app, EnrollmentReceipt, RegistrationContext,
  has_key,
}
use ubedtech.Enrollment.Claim.{ClaimKey, claim_override, claim_if}

abbrev pub registers_self : Actor → ℕ → Bool
registers_self actor student_id = is_some_eq actor.student_id student_id

unfoldable pub require_can_register_for : Actor → ℕ → Result EnrollError (Unit {0})
require_can_register_for actor student_id =
    if registers_self actor student_id || has_role actor Role.registrar
    then ok tt
    else err (app forbidden)

-- The lookup by idempotency key.
abbrev pub existing_enrollment : ℕ → ℕ → ℕ → Db → Option EnrollmentRow
existing_enrollment institution_id student_id key db =
    find_where (has_key institution_id student_id key) db.enrollment

abbrev pub receipt_of : EnrollmentRow → EnrollmentReceipt
receipt_of e = record {
  enrollment_id = e.id;
  section_id = e.section_id;
  status = e.status;
  registered_at = e.registered_at;
}

-- The join of the section, in the actor's institution, with its term.
unfoldable pub registration_context : ℕ → ℕ → Db → Result EnrollError RegistrationContext
registration_context institution_id section_id db = elim (db.section section_id) [
  | none ↦ err (app not_found)
  | some s ↦
      if s.institution_id == institution_id
      then elim (db.academic_term s.term_id) [
        | none ↦ err (app not_found)
        | some t ↦ ok (record {
          term_id = s.term_id;
          course_id = s.course_id;
          section_status = s.status;
          registration_opens_at = t.registration_opens_at;
          add_drop_closes_at = t.add_drop_closes_at;
        })
      ]
      else err (app not_found)
]

abbrev pub is_open : SectionStatus → Bool
is_open s = elim s [ SectionStatus.opened ↦ true | _ ↦ false ]

abbrev pub claim_key : Actor → ℕ → ℕ → ℕ → OverrideType → ClaimKey
claim_key actor student_id term_id section_id rule = record {
  institution_id = actor.institution_id;
  student_id = student_id;
  term_id = term_id;
  section_id = section_id;
  override_type = rule;
}

-- The checks before the lock: the section is open, and the window is open or a `deadline` override
-- lifts its end.
unfoldable pub check_window :
    Env → Actor → ℕ → RegisterCommand → RegistrationContext → Db → Result EnrollError (List ℕ)
check_window env actor student_id command context before = do
  guard (is_open context.section_status) (denied Denial.section_not_open)
  guard (not (ltb env.now context.registration_opens_at)) (denied Denial.window_closed)
  claim_if (leb context.add_drop_closes_at env.now)
      (claim_override env
        (claim_key actor student_id context.term_id command.section_id OverrideType.deadline)
        before)
      Denial.window_closed

-- The row that `INSERT … ON CONFLICT DO NOTHING` leaves and `SELECT … FOR UPDATE` reads.
abbrev pub new_term_state : StudentTermState
new_term_state = record { status = TermStatus.eligible; hold_flags = [] }

unfoldable pub term_state : ℕ → ℕ → Db → StudentTermState
term_state student_id term_id db = elim (db.student_term_registration student_id term_id) [
  | none ↦ new_term_state
  | some t ↦ t
]

unfoldable pub ensure_lock_row : ℕ → ℕ → Db → Db
unfolding term_state
ensure_lock_row student_id term_id db = record db {
  student_term_registration = λ s t.
      if (s == student_id) && (t == term_id)
      then some (term_state student_id term_id db)
      else db.student_term_registration s t;
}
