-- ===== src/Identity/Accounts/Revocation.antt =====
-- What suspensions, role changes and new passwords do to sessions, whatever is served afterwards
-- (backend/src/identity_access/service.rs).
use Prim.Native.String.{String}
use ubedtech.Prelude.{ℕ, ◌+◌, ◌<◌, ◌≡◌, ◌≢◌, refl, true, false, some, arith, inl, inr, find_where}
use ubedtech.Shared.Actor.{Actor}
use ubedtech.Shared.Error.{ok, Result-cases}
use ubedtech.Identity.Sessions.{
  Account, UserStatus, UserSession, SessionDb, SessionEnv, SessionService, ResolvedSession,
  has_active_status, is_resolvable, resolve,
}
use ubedtech.Identity.Sessions.Resolution.{resolve_found}
use ubedtech.Identity.Accounts.{
  AuthDb, AuthLibrary, AuthEnv, target_account, bump_and_revoke, suspended_account, suspend_user,
}
use ubedtech.Identity.Accounts.Login.{
  AuthService, LoginOutcome, login, login_inv, candidate_found, candidate,
}
use ubedtech.Identity.Accounts.History.{account_at}
use ubedtech.Identity.Accounts.Renewal.{Renews, Renews-version}
use ubedtech.Identity.Accounts.Runs.{Attends, Attends-Preserves}

suspend_user_account :
    (env : AuthEnv) (actor : Actor) (target : ℕ) (reason : String) (db d : AuthDb)
    → suspend_user env actor target reason db ≡ ok d
    → (account : Account) × (account_at target d ≡ some account)
      × (has_active_status account ≡ false)
unfolding suspend_user suspended_account bump_and_revoke
suspend_user_account env actor target reason db d h =
    elim (Result-cases (target_account target actor.institution_id db)) [
      | inr (e, missing) ↦ absurd (ground arith)
      | inl (account, found) ↦ (
        record account {
          status = UserStatus.suspended;
          session_version = account.session_version + 1;
        },
        ground arith,
        refl,
      )
    ]

module _ (lib : AuthLibrary) where
  -- A login that succeeds is of an account that was active where it was read.
  login_active :
      (service : AuthService) (env : AuthEnv) (institution_id : ℕ)
      (username password client_ip : String) (before db : AuthDb) (out : LoginOutcome)
      → (login lib service env institution_id username password client_ip before db).0 ≡ ok out
      → (account : Account) × (account_at out.user_id before ≡ some account)
        × (has_active_status account ≡ true)
  unfolding candidate
  login_active service env institution_id username password client_ip before db out h =
      let (c, stored, found, _, _, _, live, own, _, _) =
        login_inv lib service env institution_id username password client_ip before db out h in
      (c.account, rw own (candidate_found institution_id username before c found), live)

  -- A suspension is final: whatever is served after it, no token resolves to the suspended user.
  pub suspend_user-resolve :
      (env : AuthEnv) (actor : Actor) (target : ℕ) (reason : String) (db d e : AuthDb)
      (service : SessionService) (later : SessionEnv) (raw_token : String) (r : ResolvedSession)
      (after : SessionDb)
      → suspend_user env actor target reason db ≡ ok d
      → Attends lib d e
      → resolve lib.sha256 service later raw_token e.sessions ≡ ok (some r, after)
      → r.actor.user_id ≢ target
  suspend_user-resolve env actor target reason db d e service later raw_token r after h run seen
        same =
      let (old, at, closed) = suspend_user_account env actor target reason db d h in
      let (new, at', f) = (Attends-Preserves lib run).follows target old at in
      let shut = f.stays_closed closed in
      let (s, account, found, of, live, version, own) =
        resolve_found lib.sha256 service later raw_token e.sessions r after seen in
      ground arith

  -- Nor does a login succeed for the suspended user that reads the account after the suspension,
  -- whatever is served in between.
  pub suspend_user-login :
      (env : AuthEnv) (actor : Actor) (target : ℕ) (reason : String) (db d e e' : AuthDb)
      (service : AuthService) (later : AuthEnv) (institution_id : ℕ)
      (username password client_ip : String) (out : LoginOutcome)
      → suspend_user env actor target reason db ≡ ok d
      → Attends lib d e
      → (login lib service later institution_id username password client_ip e e').0 ≡ ok out
      → out.user_id ≢ target
  suspend_user-login env actor target reason db d e e' service later institution_id username
        password client_ip out h run done same =
      let (old, at, closed) = suspend_user_account env actor target reason db d h in
      let (new, at', f) = (Attends-Preserves lib run).follows target old at in
      let shut = f.stays_closed closed in
      let (account, of, live) =
        login_active service later institution_id username password client_ip e e' out done in
      ground arith

  -- A role that an account did not have, one that is taken from it, a reset of its password and a change
  -- of it that returns a new session end what was opened before. Whatever is served afterwards, no
  -- token resolves to the user but by a session that was opened with a later version than the account
  -- had before: not by one of a login either that was under way and had read the account before.
  pub Attends-resolve :
      (target : ℕ) (old : Account) (db d e : AuthDb) (service : SessionService) (env : SessionEnv)
      (raw_token : String) (r : ResolvedSession) (after : SessionDb)
      → account_at target db ≡ some old
      → Renews lib target old db d
      → Attends lib d e
      → resolve lib.sha256 service env raw_token e.sessions ≡ ok (some r, after)
      → r.actor.user_id ≡ target
      → (s : UserSession) × (find_where
            (is_resolvable (lib.sha256 raw_token))
            e.sessions.user_session
          ≡ some s)
        × (s.user_id ≡ target)
        × (old.session_version < s.session_version)
  Attends-resolve target old db d e service env raw_token r after at renewal run seen same =
      let (new, there, next) = Renews-version lib renewal at in
      let (last, at', f) = (Attends-Preserves lib run).follows target new there in
      let (s, account, found, of, live, current, own) =
        resolve_found lib.sha256 service env raw_token e.sessions r after seen in
      (s, found, ground arith, ground (arith, f.version_le))
