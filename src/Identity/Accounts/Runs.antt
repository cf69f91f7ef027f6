-- ===== src/Identity/Accounts/Runs.antt =====
-- The states that the services of backend/src/identity_access lead to.
use Prim.Native.String.{String}
use mathlib.Core.Path.{subst}
use ubedtech.Prelude.{ℕ, ◌≡◌, refl, Option, arith, inl, inr}
use ubedtech.Shared.Actor.{Actor, Role}
use ubedtech.Shared.Error.{Result, ok, err, AppError, Result-cases, ok_or, internal}
use ubedtech.Identity.Sessions.{
  SessionDb, SessionEnv, SessionService, ResolvedSession, resolve, revoke, create_session,
}
use ubedtech.Identity.Sessions.Resolution.{resolve-user_account}
use ubedtech.Identity.Accounts.{
  AuthDb, AuthLibrary, AuthEnv, with_sessions, suspend_user, assign_role, revoke_role,
  replace_credential_and_revoke, reset_password, open_session, prepare_change, change_own_password,
  rotate_session, change_credential,
}
use ubedtech.Identity.Accounts.Login.{AuthService, login, finish_login, failed_login, cleared_login}
use ubedtech.Identity.Accounts.History.{
  Preserves, Preserves-refl, Preserves-trans, Preserves-same, suspend_user-Preserves,
  assign_role-Preserves, revoke_role-Preserves, replace_credential-Preserves,
}

module _ (lib : AuthLibrary) where
  -- `Attends s d`: the state `d` follows from `s`. A login and a change of a password write at a state
  -- `a` that follows from `s`, and what they read may come from any state `b` at all: from one that is
  -- older than `a`, and older than `s` too, where they were under way.
  pub data Attends : AuthDb → AuthDb → Type 0 where
    here : {s : AuthDb} → Attends s s
    logged_in :
        {s a : AuthDb} (b : AuthDb) (service : AuthService) (env : AuthEnv) (institution_id : ℕ)
        (username password client_ip : String)
        → Attends s a
        → Attends s (login lib service env institution_id username password client_ip b a).1
    password_changed :
        {s a : AuthDb} (b : AuthDb) (service : SessionService) (env : AuthEnv) (actor : Actor)
        (current_password new_password : String)
        → Attends s a
        → Attends s (change_own_password lib service env actor current_password new_password b a).1
    password_reset :
        {s a d : AuthDb} (b : AuthDb) (env : AuthEnv) (actor : Actor) (target : ℕ)
        (new_password : String)
        → Attends s a
        → reset_password lib env actor target new_password b a ≡ ok d
        → Attends s d
    suspension :
        {s a d : AuthDb} (env : AuthEnv) (actor : Actor) (target : ℕ) (reason : String)
        → Attends s a
        → suspend_user env actor target reason a ≡ ok d
        → Attends s d
    role_granted :
        {s a d : AuthDb} (env : AuthEnv) (actor : Actor) (target : ℕ) (role : Role)
        → Attends s a
        → assign_role env actor target role a ≡ ok d
        → Attends s d
    role_revoked :
        {s a d : AuthDb} (env : AuthEnv) (actor : Actor) (target : ℕ) (role : Role)
        → Attends s a
        → revoke_role env actor target role a ≡ ok d
        → Attends s d
    visited :
        {s a : AuthDb} (service : SessionService) (env : SessionEnv) (raw_token : String)
        (out : Option ResolvedSession × SessionDb)
        → Attends s a
        → resolve lib.sha256 service env raw_token a.sessions ≡ ok out
        → Attends s (with_sessions out.1 a)
    logged_out :
        {s a : AuthDb} (env : SessionEnv) (session_id : ℕ)
        → Attends s a
        → Attends s (with_sessions (revoke env session_id a.sessions) a)

  resolve-Preserves :
      (service : SessionService) (env : SessionEnv) (raw_token : String) (db : AuthDb)
      (out : Option ResolvedSession × SessionDb)
      → resolve lib.sha256 service env raw_token db.sessions ≡ ok out
      → Preserves db (with_sessions out.1 db)
  resolve-Preserves service env raw_token db out h =
      Preserves-same db (with_sessions out.1 db)
        (resolve-user_account lib.sha256 service env raw_token db.sessions out h)

  open_session-Preserves :
      (service : SessionService) (env : AuthEnv) (user_id institution_id version : ℕ) (db : AuthDb)
      → Preserves db (open_session lib service env user_id institution_id version db).1
  unfolding open_session create_session
  open_session-Preserves service env user_id institution_id version db =
      Preserves-same db (open_session lib service env user_id institution_id version db).1
        (ground arith)

  login-Preserves :
      (service : AuthService) (env : AuthEnv) (institution_id : ℕ)
      (username password client_ip : String) (before db : AuthDb)
      → Preserves db (login lib service env institution_id username password client_ip before db).1
  unfolding login finish_login failed_login cleared_login open_session create_session
  login-Preserves service env institution_id username password client_ip before db =
      Preserves-same db
        (login lib service env institution_id username password client_ip before db).1
        (ground arith)

  rotate_session-Preserves :
      (service : SessionService) (env : AuthEnv) (actor : Actor)
      (change : Result AppError (ℕ × AuthDb)) (db : AuthDb)
      → ((out : ℕ × AuthDb) → change ≡ ok out → Preserves db out.1)
      → Preserves db (rotate_session lib service env actor change db).1
  unfolding rotate_session
  rotate_session-Preserves service env actor (err e) db h = Preserves-refl db
  rotate_session-Preserves service env actor (ok (version, changed)) db h =
      Preserves-trans db changed
        (open_session lib service env actor.user_id actor.institution_id version changed).1
        (h (version, changed) refl)
        (open_session-Preserves service env actor.user_id actor.institution_id version changed)

  change_credential-Preserves :
      (env : AuthEnv) (actor : Actor) (current new : String) (before db : AuthDb) (out : ℕ × AuthDb)
      → change_credential lib env actor current new before db ≡ ok out
      → Preserves db out.1
  unfolding change_credential
  change_credential-Preserves env actor current new before db out h =
      elim (Result-cases (prepare_change lib env actor current new before)) [
        | inr (e, refused) ↦ absurd (ground arith)
        | inl (new_hash, ready) ↦
            replace_credential-Preserves env actor.user_id actor.institution_id actor.user_id
              new_hash "identity.password_changed" db out (ground arith)
      ]

  change_own_password-Preserves :
      (service : SessionService) (env : AuthEnv) (actor : Actor) (current new : String)
      (before db : AuthDb)
      → Preserves db (change_own_password lib service env actor current new before db).1
  unfolding change_own_password
  change_own_password-Preserves service env actor current new before db =
      rotate_session-Preserves service env actor
        (change_credential lib env actor current new before db) db
        (change_credential-Preserves env actor current new before db)

  reset_password-Preserves :
      (env : AuthEnv) (actor : Actor) (target : ℕ) (new : String) (before db d : AuthDb)
      → reset_password lib env actor target new before db ≡ ok d
      → Preserves db d
  unfolding reset_password
  reset_password-Preserves env actor target new before db d h =
      elim (Result-cases (ok_or (lib.hash env.salt new) internal)) [
        | inr (e, refused) ↦ absurd (ground arith)
        | inl (new_hash, hashed) ↦
            let replaced =
              replace_credential_and_revoke env target actor.institution_id actor.user_id new_hash
                "identity.password_reset" db in
            elim (Result-cases replaced) [
              | inr (e, refused) ↦ absurd (ground arith)
              | inl (out, done) ↦ subst (Preserves db) (ground arith) (
                  replace_credential-Preserves env target actor.institution_id actor.user_id
                    new_hash "identity.password_reset" db out done)
            ]
      ]

  pub Attends-Preserves : {s d : AuthDb} → Attends s d → Preserves s d
  unfolding revoke
  Attends-Preserves {s} {d} here = Preserves-refl s
  Attends-Preserves {s} {d}
        (logged_in {a = a} b service env institution_id username password client_ip r) =
      Preserves-trans s a d (Attends-Preserves r)
        (login-Preserves service env institution_id username password client_ip b a)
  Attends-Preserves {s} {d} (password_changed {a = a} b service env actor current new r) =
      Preserves-trans s a d (Attends-Preserves r)
        (change_own_password-Preserves service env actor current new b a)
  Attends-Preserves {s} {d} (password_reset {a = a} b env actor target new r h) =
      Preserves-trans s a d (Attends-Preserves r)
        (reset_password-Preserves env actor target new b a d h)
  Attends-Preserves {s} {d} (suspension {a = a} env actor target reason r h) =
      Preserves-trans s a d (Attends-Preserves r)
        (suspend_user-Preserves env actor target reason a d h)
  Attends-Preserves {s} {d} (role_granted {a = a} env actor target role r h) =
      Preserves-trans s a d (Attends-Preserves r)
        (assign_role-Preserves env actor target role a d h)
  Attends-Preserves {s} {d} (role_revoked {a = a} env actor target role r h) =
      Preserves-trans s a d (Attends-Preserves r)
        (revoke_role-Preserves env actor target role a d h)
  Attends-Preserves {s} {d} (visited {a = a} service env raw_token out r h) =
      Preserves-trans s a d (Attends-Preserves r) (resolve-Preserves service env raw_token a out h)
  Attends-Preserves {s} {d} (logged_out {a = a} env session_id r) =
      Preserves-trans s a d (Attends-Preserves r) (Preserves-same a d refl)
