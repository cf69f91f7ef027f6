-- ===== src/Identity/Lifetime.antt =====
-- How long a token is good for (backend/src/identity_access/sessions.rs).
use mathlib.Core.Path.{subst}
use ubedtech.Prelude.{
  ℕ, String, ◌≤◌, ◌≡◌, refl, Bool, true, false, ◌&&◌, Option, none, List, [], ◌∷◌, arith, ltb,
  find_where, count_where, exists_where, update_where, is_none, Option-cases, Bool-cases, inl, inr,
}
use ubedtech.Prelude.Counts.{find-holds, count-update_zero, count-exists, find-count}
use ubedtech.Shared.Error.{ok, Result-cases}
use ubedtech.Identity.Sessions.{
  UserSession, Account, SessionDb, SessionEnv, SessionService, ResolvedSession, has_token,
  is_resolvable, is_expired, needs_refresh, is_refreshed, set_seen, refresh, roles_of, resolve_row,
  resolve_hash, resolve, set_revoked, is_revocable, revoke, new_session, create_session,
}

-- A row of the token that is not revoked and whose absolute deadline is after `limit`.
abbrev pub outlives : ℕ → ℕ → UserSession → Bool
outlives hash limit s = has_token hash s && is_none s.revoked_at && ltb limit s.expires_at

module _ (sha256 : String → ℕ) where
  -- `Serves s d`: the requests of a service lead from `s` to `d`, and so do the changes of accounts.
  pub data Serves (service : SessionService) (s : SessionDb) : SessionDb → Type 0 where
    here : Serves service s s
    opened :
        {a : SessionDb} (env : SessionEnv) (user_id institution_id session_version : ℕ)
        (token csrf_token : String) (out : ℕ × SessionDb)
        → Serves service s a
        → create_session sha256 service env user_id institution_id session_version token csrf_token
            a
          ≡ ok out
        → Serves service s out.1
    visited :
        {a : SessionDb} (env : SessionEnv) (raw_token : String)
        (out : Option ResolvedSession × SessionDb)
        → Serves service s a
        → resolve sha256 service env raw_token a ≡ ok out
        → Serves service s out.1
    closed :
        {a : SessionDb} (env : SessionEnv) (id : ℕ)
        → Serves service s a
        → Serves service s (revoke env id a)
    account_changed :
        {a : SessionDb} (accounts : ℕ → Option Account)
        → Serves service s a
        → Serves service s (record a { user_account = accounts })

  -- What a state says of a token: it is known, and no row of it outlives the limit.
  pub record IsBounded (hash limit : ℕ) (db : SessionDb) : Type 0 where
    pub known : exists_where (has_token hash) db.user_session ≡ true
    pub none_outlives : count_where (outlives hash limit) db.user_session ≡ 0

  exists-update :
      (p q : UserSession → Bool) (f : UserSession → UserSession) (xs : List UserSession)
      → ((x : UserSession) → p (f x) ≡ p x)
      → exists_where p (update_where q f xs) ≡ exists_where p xs
  exists-update p q f [] h = refl
  exists-update p q f (x ∷ xs) h = ground (arith, exists-update p q f xs h, h x)

  update-IsBounded :
      (hash limit : ℕ) (q : UserSession → Bool) (f : UserSession → UserSession) (db : SessionDb)
      → ((x : UserSession) → (f x).token_hash ≡ x.token_hash)
      → ((x : UserSession) → outlives hash limit x ≡ false → outlives hash limit (f x) ≡ false)
      → IsBounded hash limit db
      → IsBounded hash limit (record db { user_session = update_where q f db.user_session })
  update-IsBounded hash limit q f db keeps h b = record {
    known = ground (
      arith,
      b.known,
      exists-update (has_token hash) q f db.user_session (λ x. ground (arith, keeps x)),
    );
    none_outlives = count-update_zero (outlives hash limit) q f db.user_session h b.none_outlives;
  }

  refresh-IsBounded :
      (hash limit : ℕ) (service : SessionService) (env : SessionEnv) (id : ℕ) (db : SessionDb)
      → IsBounded hash limit db
      → IsBounded hash limit (refresh service env id db)
  unfolding refresh
  refresh-IsBounded hash limit service env id db b = elim (Bool-cases env.locked) [
    | inl skipped ↦ rw skipped b
    | inr free ↦ rw free (
        update-IsBounded hash limit (is_refreshed env.now id) (set_seen env.now service.idle) db
          (λ x. refl) (λ x h. ground arith) b)
  ]

  -- Every visit leaves the state, or refreshes one session.
  resolve-IsBounded :
      (hash limit : ℕ) (service : SessionService) (env : SessionEnv) (raw_token : String)
      (db : SessionDb) (out : Option ResolvedSession × SessionDb)
      → resolve sha256 service env raw_token db ≡ ok out
      → IsBounded hash limit db
      → IsBounded hash limit out.1
  unfolding resolve resolve_hash resolve_row
  resolve-IsBounded hash limit service env raw_token db out h b =
      elim (Option-cases (find_where (is_resolvable (sha256 raw_token)) db.user_session)) [
        | inl unknown ↦ subst (IsBounded hash limit) (ground arith) b
        | inr (s, found) ↦ elim (Option-cases (db.user_account s.user_id)) [
          | inl orphan ↦ subst (IsBounded hash limit) (ground arith) b
          | inr (account, of) ↦ elim (Bool-cases (is_expired env.now s account)) [
            | inl over ↦ subst (IsBounded hash limit) (ground arith) b
            | inr fresh ↦ elim (Result-cases (roles_of account.role_codes)) [
              | inr (e, bad) ↦ absurd (ground arith)
              | inl (roles, good) ↦ elim (Bool-cases (needs_refresh env.now s)) [
                | inr recent ↦ subst (IsBounded hash limit) (ground arith) b
                | inl stale ↦
                    let moved : refresh service env s.id db ≡ out.1 = ground arith in
                    subst (IsBounded hash limit) moved
                      (refresh-IsBounded hash limit service env s.id db b)
              ]
            ]
          ]
        ]
      ]

  Serves-IsBounded :
      (hash limit : ℕ) (service : SessionService) {s d : SessionDb}
      → IsBounded hash limit s
      → Serves service s d
      → IsBounded hash limit d
  unfolding revoke create_session new_session
  Serves-IsBounded hash limit service b here = b
  Serves-IsBounded hash limit service b
        (opened {a = a} env user_id institution_id session_version token csrf_token out r h) =
      let before = Serves-IsBounded hash limit service b r in
      record {
        known = ground (arith, before.known);
        none_outlives = ground (
          arith,
          before.known,
          before.none_outlives,
          count-exists (has_token (sha256 token)) a.user_session,
        );
      }
  Serves-IsBounded hash limit service b (visited {a = a} env raw_token out r h) =
      resolve-IsBounded hash limit service env raw_token a out h
        (Serves-IsBounded hash limit service b r)
  Serves-IsBounded hash limit service b (closed {a = a} env id r) =
      update-IsBounded hash limit (is_revocable id) (set_revoked env.now) a (λ x. refl)
        (λ x h. ground arith) (Serves-IsBounded hash limit service b r)
  Serves-IsBounded hash limit service b (account_changed {a = a} accounts r) =
      let before = Serves-IsBounded hash limit service b r in
      record { known = before.known; none_outlives = before.none_outlives }

  -- A token has an end: if at some time each of its sessions is revoked or ends by `limit`, then
  -- whatever is served since, it resolves to nobody from `limit` on. No activity moves the absolute
  -- deadline, and no new session takes up an old token.
  pub resolve-ended :
      (service : SessionService) (limit : ℕ) (env : SessionEnv) (raw_token : String)
      {s d : SessionDb} (out : Option ResolvedSession × SessionDb)
      → exists_where (has_token (sha256 raw_token)) s.user_session ≡ true
      → count_where (outlives (sha256 raw_token) limit) s.user_session ≡ 0
      → Serves service s d
      → limit ≤ env.now
      → resolve sha256 service env raw_token d ≡ ok out
      → out.0 ≡ none
  unfolding resolve resolve_hash resolve_row
  resolve-ended service limit env raw_token {s} {d} out known ends run late h =
      let hash = sha256 raw_token in
      let b =
        Serves-IsBounded hash limit service (record { known = known; none_outlives = ends }) run in
      elim (Option-cases (find_where (is_resolvable hash) d.user_session)) [
        | inl unknown ↦ ground arith
        | inr (r, found) ↦ elim (Option-cases (d.user_account r.user_id)) [
          | inl orphan ↦ ground arith
          | inr (account, of) ↦ elim (Bool-cases (is_expired env.now r account)) [
            | inl over ↦ ground arith
            | inr fresh ↦
                let alive = find-holds (is_resolvable hash) d.user_session found in
                let out_of =
                  find-count (is_resolvable hash) (outlives hash limit) d.user_session found
                    (ground arith) in
                absurd (ground (arith, b.none_outlives))
          ]
        ]
      ]
