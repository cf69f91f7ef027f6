-- ===== src/Identity/Accounts/State.antt =====
-- The tables of backend/src/identity_access/service.rs, its policy (policy.rs beside it), and what its
-- operations share: the target of an administrator, and the new version of an account.
use Prim.Native.String.{String}
use ubedtech.Prelude.{
  ℕ, ◌+◌, Bool, true, false, ◌&&◌, Option, none, some, List, ◌∷◌, ◌==◌, if◌then◌else◌, update_where,
  upsert, is_none,
}
use ubedtech.Shared.Actor.{Actor, Role, has_role}
use ubedtech.Shared.Audit.{AuditEvent}
use ubedtech.Shared.Error.{Result, ok, err, AppError, forbidden, not_found}
use ubedtech.Identity.Sessions.{Account, UserSession, SessionDb, SessionEnv, set_revoked}
use ubedtech.Identity.Throttle.{LoginThrottle}

-- The tables of the service. `username` finds an account by its institution and its name, which are
-- unique together and which no operation changes.
pub record AuthDb : Type 0 where
  pub sessions : SessionDb
  pub username : ℕ → String → Option ℕ
  pub password_credential : ℕ → Option String
  pub login_throttle : List LoginThrottle
  pub audit_event : List AuditEvent

-- The digest, the lower case of a text, and Argon2 with the salt that it draws; `verify` gives
-- nothing where the stored value is not usable.
pub record AuthLibrary : Type 0 where
  pub sha256 : String → ℕ
  pub to_lowercase : String → String
  pub verify : String → String → Option Bool
  pub hash : ℕ → String → Option String

pub record AuthEnv : Type 0 where
  pub session : SessionEnv
  pub tx_now : ℕ
  pub token : String
  pub csrf_token : String
  pub salt : ℕ

pub record NewSession : Type 0 where
  pub session_id : ℕ
  pub token : String
  pub csrf_token : String

abbrev pub with_sessions : SessionDb → AuthDb → AuthDb
with_sessions sessions db = record db { sessions = sessions }

abbrev pub write_audit : ℕ → ℕ → String → ℕ → AuthDb → AuthDb
write_audit institution_id actor_user_id action target_user_id db = record db {
  audit_event =
      record {
        institution_id = institution_id;
        actor_user_id = actor_user_id;
        action = action;
        resource_type = "user_account";
        resource_id = target_user_id;
      }
      ∷ db.audit_event;
}

-- `Role::code`
unfoldable pub role_code : Role → String
role_code Role.student = "student"
role_code Role.instructor = "instructor"
role_code Role.registrar = "registrar"
role_code Role.records_officer = "records_officer"
role_code Role.document_officer = "document_officer"
role_code Role.institution_admin = "institution_admin"
role_code Role.platform_licensing_admin = "platform_licensing_admin"

abbrev pub require_can_manage_accounts : Actor → Result AppError (Unit {0})
require_can_manage_accounts actor =
    if has_role actor Role.institution_admin then ok tt else err forbidden

abbrev pub require_can_manage_roles : Actor → Result AppError (Unit {0})
require_can_manage_roles actor =
    if has_role actor Role.institution_admin then ok tt else err forbidden

abbrev pub assignable_by_institution_admin : Role → Bool
assignable_by_institution_admin role = elim role [
  | Role.platform_licensing_admin ↦ false
  | _ ↦ true
]

-- `SELECT id FROM user_account WHERE id = $1 AND institution_id = $2`
unfoldable pub target_account : ℕ → ℕ → AuthDb → Result AppError Account
target_account target_user_id institution_id db = elim (db.sessions.user_account target_user_id) [
  | none ↦ err not_found
  | some account ↦ if account.institution_id == institution_id then ok account else err not_found
]

-- `UPDATE user_session SET revoked_at = now() WHERE user_id = $1 AND revoked_at IS NULL`
abbrev pub is_open_session_of : ℕ → UserSession → Bool
is_open_session_of user_id s = (s.user_id == user_id) && is_none s.revoked_at

-- An account is changed to one of the next version, and its sessions are revoked.
unfoldable pub bump_and_revoke : ℕ → ℕ → Account → SessionDb → SessionDb
bump_and_revoke tx_now user_id account db = record {
  user_account =
      upsert user_id (record account { session_version = account.session_version + 1 })
        db.user_account;
  user_session = update_where (is_open_session_of user_id) (set_revoked tx_now) db.user_session;
}
