-- ===== src/Identity/Accounts.antt =====
-- backend/src/identity_access/service.rs: what changes accounts, credentials and roles, with the
-- decisions of backend/src/identity_access/policy.rs.
mod State
pub mod Codes
pub mod Login
pub mod History
pub mod Runs
pub mod Revocation
pub mod Roles
pub mod Renewal
pub mod Actors
mod Examples
use Prim.Native.String.{String}
use text.Mathlib.Text.{◌==◌ as str_eq}
use ubedtech.Prelude.{
  ℕ, ◌+◌, ◌≡◌, Bool, true, false, ◌&&◌, ◌||◌, not, Option, none, some, List, [], ◌∷◌, ◌==◌,
  if◌then◌else◌, update_where, upsert, is_none,
}
use ubedtech.Shared.Actor.{Actor, Role, has_role}
use ubedtech.Shared.Audit.{AuditEvent}
use ubedtech.Shared.Text.{is_blank}
use ubedtech.Shared.Error.{
  Result, ok, err, ◌>>=◌, ◌>>◌, guard, ok_or, AppError, forbidden, not_found, validation, database,
  internal,
}
use ubedtech.Identity.Sessions.{
  Account, UserStatus, UserSession, SessionDb, SessionEnv, SessionService, set_revoked,
  create_session,
}
use ubedtech.Identity.Throttle.{LoginThrottle, validate_new_password}
unfoldable pub use State.*

unfoldable pub suspended_account : Actor → ℕ → ℕ → Account → AuthDb → AuthDb
unfolding bump_and_revoke
suspended_account actor tx_now target_user_id account db =
    write_audit actor.institution_id actor.user_id "identity.user_suspended" target_user_id (
      with_sessions
        (bump_and_revoke tx_now target_user_id (record account { status = UserStatus.suspended })
          db.sessions)
        db)

unfoldable pub suspend_user : AuthEnv → Actor → ℕ → String → AuthDb → Result AppError AuthDb
suspend_user env actor target_user_id reason db = do
  require_can_manage_accounts actor
  guard (not (is_blank reason)) (validation "reason is required")
  guard (not (target_user_id == actor.user_id)) (validation "you cannot suspend your own account")
  account ← target_account target_user_id actor.institution_id db
  ok (suspended_account actor env.tx_now target_user_id account db)

-- The shared head of both role changes.
unfoldable pub check_role_change : Actor → ℕ → Role → AuthDb → Result AppError Account
check_role_change actor target_user_id role db = do
  require_can_manage_roles actor
  guard (assignable_by_institution_admin role) forbidden
  guard (not (target_user_id == actor.user_id)) (validation "you cannot change your own roles")
  target_account target_user_id actor.institution_id db

unfoldable pub holds_code : String → List String → Bool
holds_code code [] = false
holds_code code (c ∷ cs) = str_eq c code || holds_code code cs

unfoldable pub remove_code : String → List String → List String
remove_code code [] = []
remove_code code (c ∷ cs) =
    let rest = remove_code code cs in if str_eq c code then rest else c ∷ rest

-- The shared tail of both role changes; `role_codes` are those that the statement before it left.
unfoldable pub finish_role_change :
    AuthEnv → Actor → ℕ → String → Account → List String → AuthDb → AuthDb
unfolding bump_and_revoke
finish_role_change env actor target_user_id action account role_codes db =
    write_audit actor.institution_id actor.user_id action target_user_id (
      with_sessions
        (bump_and_revoke env.tx_now target_user_id (record account { role_codes = role_codes })
          db.sessions)
        db)

-- Every role has its row in the table `role`. No statement of the repository writes the columns
-- `scope_type` and `scope_id` of `user_role`, so that an account has a role at most once.
unfoldable pub assign_role : AuthEnv → Actor → ℕ → Role → AuthDb → Result AppError AuthDb
unfolding role_code holds_code
assign_role env actor target_user_id role db =
    check_role_change actor target_user_id role db >>= λ account. ok (
      if holds_code (role_code role) account.role_codes
      then db
      else finish_role_change env actor target_user_id "identity.role_granted" account
          (role_code role ∷ account.role_codes) db)

unfoldable pub revoke_role : AuthEnv → Actor → ℕ → Role → AuthDb → Result AppError AuthDb
unfolding role_code holds_code remove_code
revoke_role env actor target_user_id role db =
    check_role_change actor target_user_id role db >>= λ account. ok (
      if holds_code (role_code role) account.role_codes
      then finish_role_change env actor target_user_id "identity.role_revoked" account
          (remove_code (role_code role) account.role_codes) db
      else db)

-- The transaction of both password paths, with the new version. Without an account the credential
-- violates its foreign key.
unfoldable pub replace_credential_and_revoke :
    AuthEnv → ℕ → ℕ → ℕ → String → String → AuthDb → Result AppError (ℕ × AuthDb)
unfolding bump_and_revoke
replace_credential_and_revoke env target_user_id institution_id acting_user_id new_hash action db =
    elim (db.sessions.user_account target_user_id) [
      | none ↦ err database
      | some account ↦ ok (
        account.session_version + 1,
        write_audit institution_id acting_user_id action target_user_id (record db {
          sessions = bump_and_revoke env.tx_now target_user_id account db.sessions;
          password_credential = upsert target_user_id new_hash db.password_credential;
        }),
      )
    ]

module _ (lib : AuthLibrary) where
  -- The target is looked up in `before`, outside of the transaction.
  unfoldable pub reset_password :
      AuthEnv → Actor → ℕ → String → AuthDb → AuthDb → Result AppError AuthDb
  reset_password env actor target_user_id new_password before db = do
    require_can_manage_accounts actor
    validate_new_password new_password
    _ ← target_account target_user_id actor.institution_id before
    new_hash ← ok_or (lib.hash env.salt new_password) internal
    done ←
        replace_credential_and_revoke env target_user_id actor.institution_id actor.user_id new_hash
          "identity.password_reset" db
    ok done.1

  -- A session for a user, after what the caller has committed.
  unfoldable pub open_session :
      SessionService → AuthEnv → ℕ → ℕ → ℕ → AuthDb → Result AppError NewSession × AuthDb
  open_session service env user_id institution_id session_version db =
      elim (create_session lib.sha256 service env.session user_id institution_id session_version
        env.token env.csrf_token db.sessions) [
          | err e ↦ (err e, db)
          | ok made ↦ (
            ok (record { session_id = made.0; token = env.token; csrf_token = env.csrf_token }),
            with_sessions made.1 db,
          )
        ]

  abbrev pub incorrect_current_password : AppError
  incorrect_current_password = validation "current password is incorrect"

  abbrev pub is_verified : Option Bool → Bool
  is_verified none = false
  is_verified (some b) = b

  -- The checks of `change_own_password`, with the hash of the new password. The current password is
  -- checked against `before`.
  unfoldable pub prepare_change :
      AuthEnv → Actor → String → String → AuthDb → Result AppError String
  prepare_change env actor current_password new_password before = do
    validate_new_password new_password
    stored ← ok_or (before.password_credential actor.user_id) incorrect_current_password
    guard (is_verified (lib.verify stored current_password)) incorrect_current_password
    ok_or (lib.hash env.salt new_password) internal

  unfoldable pub change_credential :
      AuthEnv → Actor → String → String → AuthDb → AuthDb → Result AppError (ℕ × AuthDb)
  unfolding prepare_change
  change_credential env actor current_password new_password before db =
      prepare_change env actor current_password new_password before >>= λ new_hash.
      replace_credential_and_revoke env actor.user_id actor.institution_id actor.user_id new_hash
        "identity.password_changed" db

  -- The password stays changed where the new session cannot be created.
  unfoldable pub rotate_session :
      SessionService
      → AuthEnv
      → Actor
      → Result AppError (ℕ × AuthDb)
      → AuthDb
      → Result AppError NewSession × AuthDb
  rotate_session service env actor (err e) db = (err e, db)
  rotate_session service env actor (ok (version, changed)) db =
      open_session service env actor.user_id actor.institution_id version changed

  unfoldable pub change_own_password :
      SessionService
      → AuthEnv
      → Actor
      → String
      → String
      → AuthDb
      → AuthDb
      → Result AppError NewSession × AuthDb
  change_own_password service env actor current_password new_password before db =
      rotate_session service env actor
        (change_credential env actor current_password new_password before db) db
