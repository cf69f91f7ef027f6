-- ===== src/Identity/Accounts/Renewal.antt =====
-- What gives an account a new version (backend/src/identity_access/service.rs): a role that is
-- granted or revoked, and a new password.
use Prim.Native.String.{String}
use ubedtech.Prelude.{ℕ, ◌+◌, ◌≡◌, true, false, some, arith, inl, inr}
use ubedtech.Shared.Actor.{Actor, Role}
use ubedtech.Shared.Error.{ok, Result-cases, ok_or, internal}
use ubedtech.Identity.Sessions.{Account, SessionService, create_session}
use ubedtech.Identity.Accounts.{
  AuthDb, AuthLibrary, AuthEnv, NewSession, bump_and_revoke, assign_role, revoke_role,
  reset_password, change_own_password, replace_credential_and_revoke, open_session, prepare_change,
  change_credential, rotate_session,
}
use ubedtech.Identity.Accounts.History.{account_at}
use ubedtech.Identity.Accounts.Roles.{held_roles, assign_role-held_roles, revoke_role-held_roles}

replace_credential-version :
    (env : AuthEnv) (target institution_id acting_user_id : ℕ) (new_hash action : String)
    (db : AuthDb) (out : ℕ × AuthDb) (old : Account)
    → replace_credential_and_revoke env target institution_id acting_user_id new_hash action db
      ≡ ok out
    → account_at target db ≡ some old
    → (new : Account) × (account_at target out.1 ≡ some new)
      × (new.session_version ≡ old.session_version + 1)
unfolding replace_credential_and_revoke bump_and_revoke
replace_credential-version env target institution_id acting_user_id new_hash action db out old h
      at =
    (record old { session_version = old.session_version + 1 }, ground arith, ground arith)

module _ (lib : AuthLibrary) where
  -- `Renews target old a d`: an operation leads from `a`, where `old` is the account of the target, to
  -- `d`, by a role that the target did not hold, one that it held, or a new password. A change of a
  -- password reads at any state `b`.
  pub data Renews (target : ℕ) (old : Account) : AuthDb → AuthDb → Type 0 where
    granted :
        {a d : AuthDb} (env : AuthEnv) (actor : Actor) (role : Role)
        → held_roles old role ≡ false
        → assign_role env actor target role a ≡ ok d
        → Renews target old a d
    revoked :
        {a d : AuthDb} (env : AuthEnv) (actor : Actor) (role : Role)
        → held_roles old role ≡ true
        → revoke_role env actor target role a ≡ ok d
        → Renews target old a d
    reset :
        {a d : AuthDb} (b : AuthDb) (env : AuthEnv) (actor : Actor) (new_password : String)
        → reset_password lib env actor target new_password b a ≡ ok d
        → Renews target old a d
    changed :
        {a : AuthDb} (b : AuthDb) (service : SessionService) (env : AuthEnv) (actor : Actor)
        (current_password new_password : String) (made : NewSession)
        → actor.user_id ≡ target
        → (change_own_password lib service env actor current_password new_password b a).0 ≡ ok made
        → Renews target old a
            (change_own_password lib service env actor current_password new_password b a).1

  reset_password-version :
      (env : AuthEnv) (actor : Actor) (target : ℕ) (new : String) (before db d : AuthDb)
      (old : Account)
      → reset_password lib env actor target new before db ≡ ok d
      → account_at target db ≡ some old
      → (account : Account) × (account_at target d ≡ some account)
        × (account.session_version ≡ old.session_version + 1)
  unfolding reset_password
  reset_password-version env actor target new before db d old h at =
      elim (Result-cases (ok_or (lib.hash env.salt new) internal)) [
        | inr (e, refused) ↦ absurd (ground arith)
        | inl (new_hash, hashed) ↦
            let replaced =
              replace_credential_and_revoke env target actor.institution_id actor.user_id new_hash
                "identity.password_reset" db in
            elim (Result-cases replaced) [
              | inr (e, refused) ↦ absurd (ground arith)
              | inl (out, done) ↦
                  let same : out.1 ≡ d = ground arith in
                  let (account, there, next) =
                    replace_credential-version env target actor.institution_id actor.user_id
                      new_hash "identity.password_reset" db out old done at in
                  (account, rw (← same) there, next)
            ]
      ]

  change_own_password-version :
      (service : SessionService) (env : AuthEnv) (actor : Actor) (current new : String)
      (before db : AuthDb) (made : NewSession) (old : Account)
      → (change_own_password lib service env actor current new before db).0 ≡ ok made
      → account_at actor.user_id db ≡ some old
      → (account : Account) × (account_at actor.user_id
            (change_own_password lib service env actor current new before db).1
          ≡ some account)
        × (account.session_version ≡ old.session_version + 1)
  unfolding change_own_password change_credential rotate_session open_session create_session
  change_own_password-version service env actor current new before db made old h at =
      elim (Result-cases (prepare_change lib env actor current new before)) [
        | inr (e, refused) ↦ absurd (ground arith)
        | inl (new_hash, ready) ↦
            let replaced =
              replace_credential_and_revoke env actor.user_id actor.institution_id actor.user_id
                new_hash "identity.password_changed" db in
            elim (Result-cases replaced) [
              | inr (e, refused) ↦ absurd (ground arith)
              | inl (out, done) ↦
                  let (account, there, next) =
                    replace_credential-version env actor.user_id actor.institution_id actor.user_id
                      new_hash "identity.password_changed" db out old done at in
                  (account, ground arith, next)
            ]
      ]

  -- The account then has the version after the one that it had.
  pub Renews-version :
      {target : ℕ} {old : Account} {a d : AuthDb}
      → Renews target old a d
      → account_at target a ≡ some old
      → (new : Account) × (account_at target d ≡ some new)
        × (new.session_version ≡ old.session_version + 1)
  Renews-version {target} {old} {a} {d} (granted env actor role fresh h) at =
      let (was, new, at', there, _, next) = assign_role-held_roles env actor target role a d h in
      (new, there, ground arith)
  Renews-version {target} {old} {a} {d} (revoked env actor role held h) at =
      let (was, new, at', there, _, next) = revoke_role-held_roles env actor target role a d h in
      (new, there, ground arith)
  Renews-version {target} {old} {a} {d} (reset b env actor new h) at =
      reset_password-version env actor target new b a d old h at
  Renews-version {target} {old} {a} {d} (changed b service env actor current new made own h) at =
      let (account, there, next) =
        change_own_password-version service env actor current new b a made old h (rw own at) in
      (account, rw (← own) there, next)
