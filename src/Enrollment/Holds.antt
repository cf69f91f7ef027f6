-- ===== src/Enrollment/Holds.antt =====
-- backend/src/enrollment/service.rs: `place_hold`, `release_hold`, `own_holds` and
-- `set_academic_status`, with `valid_hold_flag` and `check_hold_target`.
use text.Mathlib.Text.{◌==◌ as str_eq}
use Prim.Native.String.{len}
use ubedtech.Prelude.{
  ℕ, String, Bool, false, not, ◌&&◌, ◌||◌, none, some, List, [], ◌∷◌, ◌++◌, leb, ltb, ◌==◌,
  if◌then◌else◌, upsert,
}
use ubedtech.Shared.Actor.{Actor, require_student_self}
use ubedtech.Shared.Text.{is_blank, trim, all_chars}
use ubedtech.Shared.Error.{Result, ok, err, ◌>>=◌, ◌>>◌, guard, AppError, not_found, validation}
use ubedtech.Enrollment.State.{Db, StudentTermState}
use ubedtech.Enrollment.Register.{term_state}
use ubedtech.Enrollment.Grant.{require_can_grant_override, student_exists, term_exists}

abbrev pub require_can_manage_holds : Actor → Result AppError (Unit {0})
require_can_manage_holds actor = require_can_grant_override actor

-- `is_ascii_lowercase() || is_ascii_digit() || c == '_'`
unfoldable pub is_flag_char : ℕ → Bool
is_flag_char c = (leb b'a' c && leb c b'z') || (leb b'0' c && leb c b'9') || (c == b'_')

-- The test of `valid_hold_flag` on the trimmed flag; `len` counts bytes, as Rust's does.
unfoldable pub is_hold_flag : String → Bool
unfolding is_flag_char all_chars
is_hold_flag flag = not (str_eq flag "") && not (ltb 40 (len flag)) && all_chars is_flag_char flag

unfoldable pub valid_hold_flag : String → Result AppError String
unfolding is_hold_flag trim
valid_hold_flag flag =
    if is_hold_flag (trim flag)
    then ok (trim flag)
    else err (validation "hold flag must be a short lowercase token")

-- `$3 = ANY(hold_flags)`
unfoldable pub has_flag : String → List String → Bool
has_flag flag [] = false
has_flag flag (f ∷ fs) = str_eq f flag || has_flag flag fs

-- `array_remove(hold_flags, $3)`
unfoldable pub array_remove : String → List String → List String
array_remove flag [] = []
array_remove flag (f ∷ fs) =
    let rest = array_remove flag fs in if str_eq f flag then rest else f ∷ rest

unfoldable pub check_hold_target : Actor → ℕ → ℕ → Db → Result AppError (Unit {0})
check_hold_target actor student_id term_id db =
    guard
      (student_exists student_id actor.institution_id db
        && term_exists term_id actor.institution_id db)
      not_found

-- The rewritten flags of one student and term, and the audit row.
unfoldable pub write_flags : Actor → String → ℕ → ℕ → StudentTermState → List String → Db → Db
write_flags actor action student_id term_id t flags db = record db {
  student_term_registration = λ s k.
      if (s == student_id) && (k == term_id)
      then some (record t { hold_flags = flags })
      else db.student_term_registration s k;
  audit_event =
      record {
        institution_id = actor.institution_id;
        actor_user_id = actor.user_id;
        action = action;
        resource_type = "student_profile";
        resource_id = student_id;
      }
      ∷ db.audit_event;
}

-- Where the flag is there already the transaction is rolled back, its insert of the row included.
unfoldable pub place_hold : Actor → ℕ → ℕ → String → String → Db → Result AppError Db
place_hold actor student_id term_id flag reason db = do
  require_can_manage_holds actor
  token ← valid_hold_flag flag
  guard (not (is_blank reason)) (validation "a hold requires a reason")
  check_hold_target actor student_id term_id db
  let t = term_state student_id term_id db
  if has_flag token t.hold_flags
      then ok db
      else ok (
          write_flags actor "enrollment.hold_placed" student_id term_id t
            (t.hold_flags ++ token ∷ []) db)

unfoldable pub release_hold : Actor → ℕ → ℕ → String → Db → Result AppError Db
release_hold actor student_id term_id flag db = do
  require_can_manage_holds actor
  token ← valid_hold_flag flag
  check_hold_target actor student_id term_id db
  elim (db.student_term_registration student_id term_id) [
    | none ↦ ok db
    | some t ↦
        if has_flag token t.hold_flags
        then ok (
            write_flags actor "enrollment.hold_released" student_id term_id t
              (array_remove token t.hold_flags) db)
        else ok db
  ]

unfoldable pub own_holds : Actor → ℕ → Db → Result AppError (List String)
own_holds actor term_id db = do
  student_id ← require_student_self actor
  elim (db.student_term_registration student_id term_id) [ none ↦ ok [] | some t ↦ ok t.hold_flags ]

abbrev pub is_academic_status : String → Bool
is_academic_status s =
    str_eq s "good_standing"
    || str_eq s "probation"
    || str_eq s "suspended"
    || str_eq s "withdrawn"
    || str_eq s "graduated"

unfoldable pub set_academic_status : Actor → ℕ → String → Db → Result AppError Db
set_academic_status actor student_id status db = do
  require_can_manage_holds actor
  guard (is_academic_status status) (
      validation
        "academic status must be one of: good_standing, probation, suspended, withdrawn, graduated")
  elim (db.student_profile student_id) [
    | none ↦ err not_found
    | some s ↦
        if s.institution_id == actor.institution_id
        then ok (record db {
          student_profile =
              upsert student_id (record s { academic_status = status }) db.student_profile;
          audit_event =
              record {
                institution_id = actor.institution_id;
                actor_user_id = actor.user_id;
                action = "enrollment.academic_status_set";
                resource_type = "student_profile";
                resource_id = student_id;
              }
              ∷ db.audit_event;
        })
        else err not_found
  ]
