-- ===== src/Enrollment/Drop.antt =====
-- backend/src/enrollment/service.rs: `drop_self` and `drop_for`. As for a registration, `before` is
-- what the statements before the lock see, and `after` what those behind it see.
pub mod Refusals
use ubedtech.Prelude.{
  ℕ, ◌+◌, ◌-◌, Bool, ◌&&◌, Option, none, some, List, ◌∷◌, ltb, leb, ◌==◌, if◌then◌else◌, is_some_eq,
  find_where, exists_where, update_where, upsert,
}
use ubedtech.Shared.Actor.{Actor, require_student_self}
use ubedtech.Shared.Error.{Result, ok, err, ◌>>=◌, ◌>>◌, not_found, integrity, database}
use ubedtech.Enrollment.State.{
  Db, Env, SectionCapacity, EnrollmentRow, EnrollmentStatus, OverrideType, override_type_eq,
  RegistrationOverride, Denial, EnrollError, app, is_enrolled, has_id,
}
use ubedtech.Enrollment.Claim.{claim_override, claim_if, stamp_overrides_consumed}
use ubedtech.Enrollment.Register.{require_can_register_for, ensure_lock_row, claim_key}

pub record DropContext : Type 0 where
  pub section_id : ℕ
  pub term_id : ℕ
  pub add_drop_closes_at : ℕ

-- The `WHERE` of both reads of the enrollment.
abbrev pub droppable : ℕ → ℕ → ℕ → EnrollmentRow → Bool
droppable institution_id student_id enrollment_id e =
    (e.id == enrollment_id)
    && (e.student_id == student_id)
    && (e.institution_id == institution_id)
    && is_enrolled e

unfoldable pub drop_context : ℕ → ℕ → ℕ → Db → Result EnrollError DropContext
drop_context institution_id student_id enrollment_id db =
    elim (find_where (droppable institution_id student_id enrollment_id) db.enrollment) [
      | none ↦ err (app not_found)
      | some e ↦ elim (db.section e.section_id) [
        | none ↦ err (app not_found)
        | some s ↦ elim (db.academic_term s.term_id) [
          | none ↦ err (app not_found)
          | some t ↦ ok (record {
            section_id = e.section_id;
            term_id = s.term_id;
            add_drop_closes_at = t.add_drop_closes_at;
          })
        ]
      ]
    ]

-- Did the enrollment get in on a capacity override?
abbrev pub capacity_consumed_by : ℕ → RegistrationOverride → Bool
capacity_consumed_by enrollment_id o =
    is_some_eq o.consumed_by_enrollment_id enrollment_id
    && override_type_eq o.override_type OverrideType.capacity

unfoldable pub consumed_capacity_override : ℕ → List RegistrationOverride → ℕ
consumed_capacity_override enrollment_id rows =
    if exists_where (capacity_consumed_by enrollment_id) rows then 1 else 0

-- The update of the seat, with the table's CHECK that no more seats are taken than there are.
unfoldable pub release_seat : Option SectionCapacity → ℕ → Result EnrollError SectionCapacity
release_seat none extra = err (
    app (integrity "drop could not release a seat: capacity row missing or enrolled_count drifted"))
release_seat (some c) extra =
    if ltb 0 c.enrolled_count && leb extra c.capacity
    then if leb (c.enrolled_count - 1) (c.capacity - extra)
      then ok (record {
        capacity = c.capacity - extra;
        enrolled_count = c.enrolled_count - 1;
        version = c.version + 1;
      })
      else err (app database)
    else err (
        app (
          integrity
            "drop could not release a seat: capacity row missing or enrolled_count drifted"))

abbrev pub mark_dropped : ℕ → EnrollmentRow → EnrollmentRow
mark_dropped tx_now e = record e { status = EnrollmentStatus.dropped; dropped_at = some tx_now }

unfoldable pub write_drop : Env → Actor → ℕ → ℕ → SectionCapacity → List ℕ → Db → Db
write_drop env actor enrollment_id section_id seat consumed db = record db {
  section_capacity = upsert section_id seat db.section_capacity;
  enrollment = update_where (has_id enrollment_id) (mark_dropped env.tx_now) db.enrollment;
  registration_override =
      stamp_overrides_consumed env.tx_now consumed enrollment_id db.registration_override;
  audit_event =
      record {
        institution_id = actor.institution_id;
        actor_user_id = actor.user_id;
        action = "enrollment.dropped";
        resource_type = "enrollment";
        resource_id = enrollment_id;
      }
      ∷ db.audit_event;
}

-- What follows the insert of the lock row.
unfoldable pub drop_locked : Env → Actor → ℕ → ℕ → DropContext → Db → Result EnrollError Db
drop_locked env actor student_id enrollment_id row db =
    elim (find_where (droppable actor.institution_id student_id enrollment_id) db.enrollment) [
      | none ↦ err (app not_found)
      | some e ↦
          claim_if (leb row.add_drop_closes_at env.now)
            (claim_override env
              (claim_key actor student_id row.term_id row.section_id OverrideType.deadline) db)
            Denial.window_closed
          >>= λ ids.
              release_seat (db.section_capacity row.section_id)
                (consumed_capacity_override enrollment_id db.registration_override)
              >>= λ seat. ok (write_drop env actor enrollment_id row.section_id seat ids db)
    ]

-- The student of an enrollment exists by the enrollment's own foreign key: the lock row can be made.
unfoldable pub drop_for : Env → Actor → ℕ → ℕ → Db → Db → Result EnrollError Db
drop_for env actor student_id enrollment_id before after = do
  require_can_register_for actor student_id
  row ← drop_context actor.institution_id student_id enrollment_id before
  drop_locked env actor student_id enrollment_id row (ensure_lock_row student_id row.term_id after)

unfoldable pub drop_self : Env → Actor → ℕ → Db → Db → Result EnrollError Db
drop_self env actor enrollment_id before after = elim (require_student_self actor) [
  | err e ↦ err (app e)
  | ok student_id ↦ drop_for env actor student_id enrollment_id before after
]
