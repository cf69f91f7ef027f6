-- ===== src/Identity/Sessions/Resolution.antt =====
-- What a visit (backend/src/identity_access/sessions.rs, `resolve`) has read and left alone.
use ubedtech.Prelude.{
  ℕ, String, Option, some, List, find_where, true, false, arith, ◌≡◌, Option-cases, Bool-cases, inl,
  inr, ap,
}
use ubedtech.Shared.Actor.{Role}
use ubedtech.Shared.Error.{ok, Result-cases}
use ubedtech.Identity.Sessions.{
  Account, UserSession, SessionDb, SessionEnv, SessionService, ResolvedSession, has_active_status,
  is_resolvable, is_expired, refresh, roles_of, resolved, resolve_row, resolve_hash, resolve,
}

module _ (sha256 : String → ℕ) where
  -- A visit changes no account.
  pub resolve-user_account :
      (service : SessionService) (env : SessionEnv) (raw_token : String) (db : SessionDb)
      (out : Option ResolvedSession × SessionDb)
      → resolve sha256 service env raw_token db ≡ ok out
      → out.1.user_account ≡ db.user_account
  unfolding resolve resolve_hash resolve_row refresh
  resolve-user_account service env raw_token db out h = ground arith

  -- What a visit that resolves has read.
  pub resolve_inv :
      (service : SessionService) (env : SessionEnv) (raw_token : String) (db : SessionDb)
      (r : ResolvedSession) (d : SessionDb)
      → resolve sha256 service env raw_token db ≡ ok (some r, d)
      → (s : UserSession) × (account : Account) × (roles : List Role) × (find_where
            (is_resolvable (sha256 raw_token))
            db.user_session
          ≡ some s)
        × (db.user_account s.user_id ≡ some account)
        × (is_expired env.now s account ≡ false)
        × (roles_of account.role_codes ≡ ok roles)
        × (r ≡ resolved s account roles)
  unfolding resolve resolve_hash resolve_row
  resolve_inv service env raw_token db r d h =
      elim (Option-cases (find_where (is_resolvable (sha256 raw_token)) db.user_session)) [
        | inl unknown ↦ absurd (ground arith)
        | inr (s, found) ↦ elim (Option-cases (db.user_account s.user_id)) [
          | inl orphan ↦ absurd (ground arith)
          | inr (account, of) ↦ elim (Bool-cases (is_expired env.now s account)) [
            | inl over ↦ absurd (ground arith)
            | inr fresh ↦ elim (Result-cases (roles_of account.role_codes)) [
              | inr (e, bad) ↦ absurd (ground arith)
              | inl (roles, good) ↦ (s, account, roles, found, of, fresh, good, ground arith)
            ]
          ]
        ]
      ]

  -- Whom a token resolves to: the active account of one of its sessions, opened with the version that
  -- the account still has.
  pub resolve_found :
      (service : SessionService) (env : SessionEnv) (raw_token : String) (db : SessionDb)
      (r : ResolvedSession) (d : SessionDb)
      → resolve sha256 service env raw_token db ≡ ok (some r, d)
      → (s : UserSession) × (account : Account) × (find_where
            (is_resolvable (sha256 raw_token))
            db.user_session
          ≡ some s)
        × (db.user_account r.actor.user_id ≡ some account)
        × (has_active_status account ≡ true)
        × (s.session_version ≡ account.session_version)
        × (r.actor.user_id ≡ s.user_id)
  unfolding resolved
  resolve_found service env raw_token db r d h =
      let (s, account, roles, found, of, fresh, good, e) =
        resolve_inv service env raw_token db r d h in
      let own : r.actor.user_id ≡ s.user_id = ap (λ (q : ResolvedSession). q.actor.user_id) e in
      (s, account, found, rw own of, ground arith, ground arith, own)
