-- ===== src/Identity/Sessions.antt =====
-- backend/src/identity_access/sessions.rs: the table user_session and its three operations. `sha256`
-- is a parameter, and so are the two random tokens of a new session.
pub mod Resolution
use text.Mathlib.Text.{◌==◌ as str_eq}
use ubedtech.Prelude.{
  ℕ, String, ◌+◌, Bool, ◌&&◌, ◌||◌, not, Option, none, some, List, [], ◌∷◌, leb, ◌==◌,
  if◌then◌else◌, find_where, exists_where, update_where, is_none, true, false, arith, ◌≡◌,
  Option-cases, Bool-cases, inl, inr, ap,
}
use ubedtech.Shared.Actor.{Actor, Role}
use ubedtech.Shared.Error.{
  Result, ok, err, ◌>>=◌, ◌>>◌, guard, AppError, internal, database, Result-cases,
}

-- `Role::from_code`
unfoldable pub from_code : String → Option Role
from_code code =
    if str_eq code "student"
    then some Role.student
    else if str_eq code "instructor"
    then some Role.instructor
    else if str_eq code "registrar"
    then some Role.registrar
    else if str_eq code "records_officer"
    then some Role.records_officer
    else if str_eq code "document_officer"
    then some Role.document_officer
    else if str_eq code "institution_admin"
    then some Role.institution_admin
    else if str_eq code "platform_licensing_admin"
    then some Role.platform_licensing_admin
    else none

-- The loop over the role codes: one that is unknown fails the request.
unfoldable pub roles_of : List String → Result AppError (List Role)
roles_of [] = ok []
roles_of (c ∷ cs) = elim (from_code c) [
  | none ↦ err internal
  | some r ↦ roles_of cs >>= λ rs. ok (r ∷ rs)
]

pub record UserSession : Type 0 where
  pub id : ℕ
  pub institution_id : ℕ
  pub user_id : ℕ
  pub session_version : ℕ
  pub token_hash : ℕ
  pub csrf_secret_hash : ℕ
  pub csrf_secret : Option String
  pub expires_at : ℕ
  pub idle_expires_at : ℕ
  pub last_seen_at : ℕ
  pub revoked_at : Option ℕ

-- `user_status`
pub data UserStatus : Type 0 where
  active : UserStatus
  suspended : UserStatus
  closed : UserStatus

-- A row of `user_account`, with its student profile and its role codes in its institution.
pub record Account : Type 0 where
  pub institution_id : ℕ
  pub status : UserStatus
  pub session_version : ℕ
  pub student_id : Option ℕ
  pub role_codes : List String

pub record SessionDb : Type 0 where
  pub user_account : ℕ → Option Account
  pub user_session : List UserSession

pub record SessionEnv : Type 0 where
  pub now : ℕ
  pub new_id : ℕ
  pub locked : Bool

-- The deadlines that the service is configured with.
pub record SessionService : Type 0 where
  pub idle : ℕ
  pub absolute : ℕ

-- The text of the CSRF token, that forms carry, is left out.
pub record ResolvedSession : Type 0 where
  pub session_id : ℕ
  pub actor : Actor
  pub csrf_token_hash : ℕ

abbrev pub has_active_status : Account → Bool
has_active_status account = elim account.status [ UserStatus.active ↦ true | _ ↦ false ]

abbrev pub has_token : ℕ → UserSession → Bool
has_token hash s = s.token_hash == hash

abbrev pub has_session_id : ℕ → UserSession → Bool
has_session_id id s = s.id == id

-- `WHERE token_hash = $1 AND revoked_at IS NULL AND csrf_secret IS NOT NULL`
abbrev pub is_resolvable : ℕ → UserSession → Bool
is_resolvable hash s = has_token hash s && is_none s.revoked_at && not (is_none s.csrf_secret)

abbrev pub last_seen_refresh_secs : ℕ
last_seen_refresh_secs = 60

abbrev pub is_expired : ℕ → UserSession → Account → Bool
is_expired now s account =
    leb s.expires_at now
    || leb s.idle_expires_at now
    || not (s.session_version == account.session_version)
    || not (has_active_status account)

-- The staleness guard, in the program and again in the `WHERE` of the refresh.
abbrev pub needs_refresh : ℕ → UserSession → Bool
needs_refresh now s = leb (s.last_seen_at + last_seen_refresh_secs) now

abbrev pub is_refreshed : ℕ → ℕ → UserSession → Bool
is_refreshed now id s = has_session_id id s && is_none s.revoked_at && needs_refresh now s

abbrev pub set_seen : ℕ → ℕ → UserSession → UserSession
set_seen now idle s = record s { last_seen_at = now; idle_expires_at = now + idle }

-- The update that slides the idle deadline; a row that is locked is skipped.
unfoldable pub refresh : SessionService → SessionEnv → ℕ → SessionDb → SessionDb
refresh service env id db = record db {
  user_session =
      if env.locked
      then db.user_session
      else update_where (is_refreshed env.now id) (set_seen env.now service.idle) db.user_session;
}

unfoldable pub resolved : UserSession → Account → List Role → ResolvedSession
resolved s account roles = record {
  session_id = s.id;
  actor = record {
    user_id = s.user_id;
    institution_id = s.institution_id;
    student_id = account.student_id;
    roles = roles;
  };
  csrf_token_hash = s.csrf_secret_hash;
}

-- From the deadlines on. The row was joined with its account.
unfoldable pub resolve_row :
    SessionService
    → SessionEnv
    → UserSession
    → Account
    → SessionDb
    → Result AppError (Option ResolvedSession × SessionDb)
resolve_row service env s account db =
    if is_expired env.now s account
    then ok (none, db)
    else (roles_of account.role_codes >>= λ roles. ok (
      some (resolved s account roles),
      (if needs_refresh env.now s then refresh service env s.id db else db),
    ))

unfoldable pub resolve_hash :
    SessionService
    → SessionEnv
    → ℕ
    → SessionDb
    → Result AppError (Option ResolvedSession × SessionDb)
resolve_hash service env hash db = elim (find_where (is_resolvable hash) db.user_session) [
  | none ↦ ok (none, db)
  | some s ↦ elim (db.user_account s.user_id) [
    | none ↦ ok (none, db)
    | some account ↦ resolve_row service env s account db
  ]
]

abbrev pub set_revoked : ℕ → UserSession → UserSession
set_revoked now s = record s { revoked_at = some now }

abbrev pub is_revocable : ℕ → UserSession → Bool
is_revocable id s = has_session_id id s && is_none s.revoked_at

unfoldable pub revoke : SessionEnv → ℕ → SessionDb → SessionDb
revoke env id db = record db {
  user_session = update_where (is_revocable id) (set_revoked env.now) db.user_session;
}

module _ (sha256 : String → ℕ) where
  unfoldable pub resolve :
      SessionService
      → SessionEnv
      → String
      → SessionDb
      → Result AppError (Option ResolvedSession × SessionDb)
  unfolding resolve_hash
  resolve service env raw_token db = resolve_hash service env (sha256 raw_token) db

  unfoldable pub new_session :
      SessionService → SessionEnv → ℕ → ℕ → ℕ → String → String → UserSession
  new_session service env user_id institution_id session_version token csrf_token = record {
    id = env.new_id;
    institution_id = institution_id;
    user_id = user_id;
    session_version = session_version;
    token_hash = sha256 token;
    csrf_secret_hash = sha256 csrf_token;
    csrf_secret = some csrf_token;
    expires_at = env.now + service.absolute;
    idle_expires_at = env.now + service.idle;
    last_seen_at = env.now;
    revoked_at = none;
  }

  -- The id is the primary key, and the hash of the token is unique; the account is a foreign key.
  unfoldable pub create_session :
      SessionService
      → SessionEnv
      → ℕ
      → ℕ
      → ℕ
      → String
      → String
      → SessionDb
      → Result AppError (ℕ × SessionDb)
  unfolding new_session
  create_session service env user_id institution_id session_version token csrf_token db = do
    guard (not (is_none (db.user_account user_id))) database
    guard (not (exists_where (has_session_id env.new_id) db.user_session)) database
    guard (not (exists_where (has_token (sha256 token)) db.user_session)) database
    ok (
      env.new_id,
      record db {
        user_session =
            new_session service env user_id institution_id session_version token csrf_token
            ∷ db.user_session;
      },
    )
