-- ===== src/Identity/Accounts/Login.antt =====
-- backend/src/identity_access/service.rs: `login`.
use Prim.Native.String.{String}
use ubedtech.Prelude.{
  ℕ, ◌≡◌, Bool, true, false, ◌&&◌, not, Option, none, some, arith, if◌then◌else◌, is_none,
  Option-cases, inl, inr,
}
use ubedtech.Shared.Error.{
  Result, ok, err, ◌>>=◌, AppError, rate_limited, unauthenticated, internal,
}
use ubedtech.Identity.Sessions.{Account, has_active_status, SessionService}
use ubedtech.Identity.Throttle.{ThrottleKey, throttled, record_failure, clear_throttle}
use ubedtech.Identity.Accounts.{AuthDb, AuthLibrary, AuthEnv, NewSession, open_session}

pub record AuthService : Type 0 where
  pub session_service : SessionService
  pub dummy_hash : String
  pub max_failures : ℕ
  pub window_secs : ℕ

-- The row that a login reads of the account.
pub record Candidate : Type 0 where
  pub id : ℕ
  pub account : Account
  pub password_hash : Option String

pub record LoginOutcome : Type 0 where
  pub user_id : ℕ
  pub session : NewSession

unfoldable pub candidate : ℕ → String → AuthDb → Option Candidate
candidate institution_id username db = elim (db.username institution_id username) [
  | none ↦ none
  | some id ↦ elim (db.sessions.user_account id) [
    | none ↦ none
    | some account ↦
        some (record { id = id; account = account; password_hash = db.password_credential id })
  ]
]

pub candidate_found :
    (institution_id : ℕ) (username : String) (db : AuthDb) (c : Candidate)
    → candidate institution_id username db ≡ some c
    → db.sessions.user_account c.id ≡ some c.account
unfolding candidate
candidate_found institution_id username db c h =
    elim (Option-cases (db.username institution_id username)) [
      | inl unknown ↦ absurd (ground arith)
      | inr (id, named) ↦ elim (Option-cases (db.sessions.user_account id)) [
        | inl missing ↦ absurd (ground arith)
        | inr (account, of) ↦ ground arith
      ]
    ]

abbrev pub stored_password : Option Candidate → Option String
stored_password none = none
stored_password (some c) = c.password_hash

abbrev pub or_dummy : Option String → String → String
or_dummy none dummy = dummy
or_dummy (some h) dummy = h

abbrev pub verified_and : Option Bool → Bool → Bool
verified_and none exists = false
verified_and (some b) exists = b && exists

abbrev pub account_active : Option Candidate → Bool
account_active none = false
account_active (some c) = has_active_status c.account

unfoldable pub failed_login : AuthService → AuthEnv → ThrottleKey → AuthDb → AuthDb
failed_login service env key db = record db {
  login_throttle = record_failure service.window_secs key env.tx_now db.login_throttle;
}

unfoldable pub cleared_login : ThrottleKey → AuthDb → AuthDb
cleared_login key db = record db { login_throttle = clear_throttle key db.login_throttle }

module _ (lib : AuthLibrary) where
  abbrev pub throttle_key : ℕ → String → String → ThrottleKey
  throttle_key institution_id username client_ip = record {
    institution_id = institution_id;
    username_lower = lib.to_lowercase username;
    client_ip = client_ip;
  }

  -- The verification always runs, on a dummy where there is no credential.
  unfoldable pub password_ok : AuthService → Option Candidate → String → Bool
  password_ok service user password =
      verified_and (lib.verify (or_dummy (stored_password user) service.dummy_hash) password)
        (not (is_none (stored_password user)))

  -- What follows the verification: a failure is recorded, a success clears the throttle and opens a
  -- session with the version that was read. `expect` on a missing user would be a panic.
  unfoldable pub finish_login :
      AuthService
      → AuthEnv
      → ThrottleKey
      → ℕ
      → Option Candidate
      → Bool
      → AuthDb
      → Result AppError LoginOutcome × AuthDb
  finish_login service env key institution_id user passed db =
      if passed
      then elim user [
        | none ↦ (err internal, db)
        | some c ↦
            let opened =
              open_session lib service.session_service env c.id institution_id
                c.account.session_version (cleared_login key db) in
            (opened.0 >>= λ session. ok (record { user_id = c.id; session = session }), opened.1)
      ]
      else (err unauthenticated, failed_login service env key db)

  -- The throttle, the account and its credential are read in `before`; others may commit until the
  -- writes find `db`.
  unfoldable pub login :
      AuthService
      → AuthEnv
      → ℕ
      → String
      → String
      → String
      → AuthDb
      → AuthDb
      → Result AppError LoginOutcome × AuthDb
  login service env institution_id username password client_ip before db =
      let key = throttle_key institution_id username client_ip in
      let user = candidate institution_id username before in
      if throttled service.max_failures service.window_secs key env.tx_now before.login_throttle
      then (err rate_limited, db)
      else finish_login service env key institution_id user
          (password_ok service user password && account_active user) db

  -- What a login that succeeds has passed.
  pub login_inv :
      (service : AuthService) (env : AuthEnv) (institution_id : ℕ)
      (username password client_ip : String) (before db : AuthDb) (out : LoginOutcome)
      → (login service env institution_id username password client_ip before db).0 ≡ ok out
      → (c : Candidate) × (h : String) × (candidate institution_id username before ≡ some c)
        × (throttled service.max_failures service.window_secs
              (throttle_key institution_id username client_ip)
              env.tx_now
              before.login_throttle
            ≡ false)
        × (c.password_hash ≡ some h)
        × (lib.verify h password ≡ some true)
        × (has_active_status c.account ≡ true)
        × (out.user_id ≡ c.id)
        × ((open_session lib service.session_service env c.id institution_id
              c.account.session_version
              (cleared_login (throttle_key institution_id username client_ip) db)).0
            ≡ ok out.session)
        × ((login service env institution_id username password client_ip before db).1
            ≡ (open_session lib service.session_service env c.id institution_id
                c.account.session_version
                (cleared_login (throttle_key institution_id username client_ip) db)).1)
  unfolding login finish_login password_ok
  login_inv service env institution_id username password client_ip before db out h =
      elim (Option-cases (candidate institution_id username before)) [
        | inl nobody ↦ absurd (ground arith)
        | inr (c, found) ↦ elim (Option-cases c.password_hash) [
          | inl without ↦ absurd (ground arith)
          | inr (stored, e) ↦ elim (Option-cases (lib.verify stored password)) [
            | inl unusable ↦ absurd (ground arith)
            | inr (b, v) ↦ (
              c,
              stored,
              found,
              ground arith,
              e,
              ground arith,
              ground arith,
              ground arith,
              ground arith,
              ground arith,
            )
          ]
        ]
      ]
