-- ===== src/Academics/Teaching.antt =====
-- backend/src/academics/service.rs: the meetings and the instructors of a section.
use ubedtech.Prelude.{
  ℕ, Bool, true, false, ◌&&◌, not, Option, none, some, ◌∷◌, ltb, leb, ◌==◌, if◌then◌else◌,
  exists_where,
}
use ubedtech.Shared.Actor.{Actor, Role}
use ubedtech.Shared.Error.{Result, ok, err, ◌>>◌, guard, AppError, not_found, validation, database}
use ubedtech.Identity.Accounts.{role_code, holds_code}
use ubedtech.Academics.State.{
  ℤ, MeetingDetail, InstructorAssignment, AcademicsDb, AddMeetingCommand,
  require_can_manage_academics, write_audit, has_section, is_room_of,
}

-- `(1..=7).contains(&day_of_week)`
abbrev pub weekday : ℤ → Option ℕ
weekday (ℤ.pos n) = if leb 1 n && leb n 7 then some n else none
weekday (ℤ.negsuc n) = none

abbrev pub room_ok : ℕ → Option ℕ → AcademicsDb → Bool
room_ok institution_id none db = true
room_ok institution_id (some room_id) db = exists_where (is_room_of institution_id room_id) db.room

abbrev pub has_meeting_id : ℕ → MeetingDetail → Bool
has_meeting_id id m = m.id == id

-- A row of `section_meeting` is in both tables.
unfoldable pub insert_meeting : ℕ → ℕ → ℕ → AddMeetingCommand → AcademicsDb → AcademicsDb
insert_meeting meeting_id section_id day command db = record db {
  registration = record db.registration {
    section_meeting =
        record {
          section_id = section_id;
          day_of_week = day;
          starts_at = command.starts_at;
          ends_at = command.ends_at;
        }
        ∷ db.registration.section_meeting;
  };
  meeting_detail = record { id = meeting_id; room_id = command.room_id } ∷ db.meeting_detail;
}

unfoldable pub add_meeting :
    ℕ → Actor → ℕ → AddMeetingCommand → AcademicsDb → Result AppError (ℕ × AcademicsDb)
unfolding insert_meeting
add_meeting new_id actor section_id command db =
    require_can_manage_academics actor >> elim (weekday command.day_of_week) [
      | none ↦ err (validation "day_of_week must be 1 (Monday) through 7 (Sunday)")
      | some day ↦
          guard (ltb command.starts_at command.ends_at)
            (validation "meeting must start before it ends")
          >> guard (has_section actor.institution_id section_id db) not_found
          >> guard (room_ok actor.institution_id command.room_id db) not_found
          >> guard (not (exists_where (has_meeting_id new_id) db.meeting_detail)) database
          >> ok (
            new_id,
            write_audit actor "academics.meeting_added" "section_meeting" new_id
                (insert_meeting new_id section_id day command db),
          )
    ]

-- Does the account of the institution hold the role of an instructor?
abbrev pub target_is_instructor : ℕ → ℕ → AcademicsDb → Option Bool
target_is_instructor institution_id user_id db = elim (db.user_account user_id) [
  | none ↦ none
  | some account ↦
      if account.institution_id == institution_id
      then some (holds_code (role_code Role.instructor) account.role_codes)
      else none
]

abbrev pub is_assignment : ℕ → ℕ → InstructorAssignment → Bool
is_assignment section_id user_id a =
    (a.section_id == section_id) && (a.instructor_user_id == user_id)

-- `INSERT … ON CONFLICT DO NOTHING`; an assignment that was there is not audited again.
unfoldable pub write_assignment : Actor → ℕ → ℕ → AcademicsDb → AcademicsDb
write_assignment actor section_id user_id db =
    if exists_where (is_assignment section_id user_id) db.instructor_assignment
    then db
    else write_audit actor "academics.instructor_assigned" "section" section_id (record db {
      instructor_assignment =
          record { section_id = section_id; instructor_user_id = user_id }
          ∷ db.instructor_assignment;
    })

unfoldable pub assign_instructor : Actor → ℕ → ℕ → AcademicsDb → Result AppError AcademicsDb
unfolding write_assignment role_code holds_code
assign_instructor actor section_id instructor_user_id db = do
  require_can_manage_academics actor
  guard (has_section actor.institution_id section_id db) not_found
  elim (target_is_instructor actor.institution_id instructor_user_id db) [
    | none ↦ err not_found
    | some false ↦ err (validation "the user does not hold the instructor role")
    | some true ↦ ok (write_assignment actor section_id instructor_user_id db)
  ]
