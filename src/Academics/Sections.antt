-- ===== src/Academics/Sections.antt =====
-- backend/src/academics/service.rs: sections and their capacity, with the
-- trigger of backend/migrations/0010_capacity_guarantee.sql.
use Prim.Native.String.{String}
use text.Mathlib.Text.{◌==◌ as str_eq}
use ubedtech.Prelude.{
  ℕ, ◌+◌, Bool, ◌&&◌, ◌||◌, not, Option, none, some, ◌∷◌, leb, ◌==◌, if◌then◌else◌, is_none,
  exists_where, upsert,
}
use ubedtech.Shared.Actor.{Actor}
use ubedtech.Shared.Error.{
  Result, ok, err, ◌>>=◌, ◌>>◌, guard, AppError, not_found, validation, conflict, database,
}
use ubedtech.Enrollment.State.{SectionStatus, SectionCapacity}
use ubedtech.Academics.State.{
  ℤ, I32, SectionKey, AcademicsDb, CreateSectionCommand, require_can_manage_academics,
  required_trimmed, with_registration, write_audit, has_term, has_section, is_course_of,
}

unfoldable pub non_negative : I32 → Result AppError ℕ
non_negative capacity = elim capacity.value [
  | ℤ.pos n ↦ ok n
  | ℤ.negsuc n ↦ err (validation "capacity cannot be negative")
]

abbrev pub clashes_section : ℕ → ℕ → ℕ → ℕ → String → SectionKey → Bool
clashes_section id institution_id term_id course_id section_code s =
    (s.id == id)
    || ((s.institution_id == institution_id)
        && (s.term_id == term_id)
        && (s.course_id == course_id)
        && str_eq s.section_code section_code)

-- The trigger `section_capacity_guarantee`.
unfoldable pub section_capacity_guarantee :
    ℕ → (ℕ → Option SectionCapacity) → ℕ → Option SectionCapacity
section_capacity_guarantee id rows = elim (rows id) [
  | some c ↦ rows
  | none ↦ upsert id (record { capacity = 0; enrolled_count = 0; version = 1 }) rows
]

-- The insert of the section, which is open from the start, with its trigger.
unfoldable pub insert_section : ℕ → ℕ → String → CreateSectionCommand → AcademicsDb → AcademicsDb
unfolding section_capacity_guarantee
insert_section section_id institution_id section_code command db = record db {
  registration = record db.registration {
    section =
        upsert section_id
          (record {
            institution_id = institution_id;
            term_id = command.term_id;
            course_id = command.course_id;
            status = SectionStatus.opened;
          })
          db.registration.section;
    section_capacity = section_capacity_guarantee section_id db.registration.section_capacity;
  };
  section_key =
      record {
        id = section_id;
        institution_id = institution_id;
        term_id = command.term_id;
        course_id = command.course_id;
        section_code = section_code;
      }
      ∷ db.section_key;
}

abbrev pub with_capacity : ℕ → SectionCapacity → AcademicsDb → AcademicsDb
with_capacity section_id c db =
    with_registration
      (record db.registration {
        section_capacity = upsert section_id c db.registration.section_capacity;
      })
      db

-- `UPDATE section_capacity SET capacity = $2 WHERE section_id = $1`, under the CHECK on the count.
unfoldable pub update_capacity : ℕ → ℕ → AcademicsDb → Result AppError AcademicsDb
update_capacity section_id capacity db = elim (db.registration.section_capacity section_id) [
  | none ↦ ok db
  | some c ↦
      if leb c.enrolled_count capacity
      then ok (with_capacity section_id (record c { capacity = capacity }) db)
      else err database
]

unfoldable pub create_section :
    ℕ → Actor → CreateSectionCommand → AcademicsDb → Result AppError (ℕ × AcademicsDb)
create_section new_id actor command db = do
  require_can_manage_academics actor
  section_code ← required_trimmed command.section_code "section code"
  capacity ← non_negative command.capacity
  guard
      (has_term actor.institution_id command.term_id db
        && exists_where (is_course_of actor.institution_id command.course_id) db.course)
      not_found
  guard
      (is_none (db.registration.section new_id)
        && not (
            exists_where
              (clashes_section new_id actor.institution_id command.term_id command.course_id
                section_code)
              db.section_key))
      (conflict "this section already exists for the course")
  done ←
      update_capacity new_id capacity
        (insert_section new_id actor.institution_id section_code command db)
  ok (new_id, write_audit actor "academics.section_created" "section" new_id done)

-- Why no row was updated.
abbrev pub capacity_refused : ℕ → ℕ → AcademicsDb → AppError
capacity_refused institution_id section_id db =
    if has_section institution_id section_id db
    then conflict "capacity cannot drop below current enrollment"
    else not_found

abbrev pub capacity_set : Actor → ℕ → ℕ → SectionCapacity → AcademicsDb → AcademicsDb
capacity_set actor section_id capacity c db =
    write_audit actor "academics.capacity_set" "section" section_id
      (with_capacity section_id (record c { capacity = capacity; version = c.version + 1 }) db)

-- The update joins the capacity with its section.
unfoldable pub write_capacity : Actor → ℕ → ℕ → AcademicsDb → Result AppError AcademicsDb
write_capacity actor section_id capacity db = elim (db.registration.section_capacity section_id) [
  | none ↦ err (capacity_refused actor.institution_id section_id db)
  | some c ↦
      if has_section actor.institution_id section_id db && leb c.enrolled_count capacity
      then ok (capacity_set actor section_id capacity c db)
      else err (capacity_refused actor.institution_id section_id db)
]

unfoldable pub set_section_capacity : Actor → ℕ → I32 → AcademicsDb → Result AppError AcademicsDb
unfolding write_capacity
set_section_capacity actor section_id capacity db = do
  require_can_manage_academics actor
  seats ← non_negative capacity
  write_capacity actor section_id seats db
