-- ===== src/Identity/Accounts/Roles.antt =====
-- Roles (backend/src/identity_access/service.rs): the codes of an account as a set of roles, and who
-- can change which.
use Prim.Native.String.{String}
use ubedtech.Prelude.{
  ℕ, ◌+◌, ◌≡◌, ◌∙◌, refl, Bool, true, false, ◌&&◌, ◌||◌, not, some, List, ◌∷◌, arith, if◌then◌else◌,
  Bool-cases, inl, inr,
}
use ubedtech.Shared.Actor.{Actor, Role}
use ubedtech.Shared.Error.{ok, Result-cases}
use ubedtech.Identity.Sessions.{Account}
use ubedtech.Identity.Accounts.{
  AuthDb, AuthLibrary, AuthEnv, target_account, bump_and_revoke, check_role_change, role_code,
  holds_code, remove_code, finish_role_change, assign_role, revoke_role,
}
use ubedtech.Shared.Actor.{role_eq}
use ubedtech.Identity.Accounts.Codes.{
  str_eq-role_code, holds_code-remove_code, holds_code-removed, holds_code-same,
}
use ubedtech.Identity.Accounts.History.{account_at, target_account_found}
use ubedtech.Identity.Accounts.Runs.{Attends, Attends-Preserves}

-- What an account holds, as a set of roles.
unfoldable pub held_roles : Account → Role → Bool
held_roles account role = holds_code (role_code role) account.role_codes

already :
    (role other : Role) (codes : List String)
    → holds_code (role_code role) codes ≡ true
    → holds_code (role_code other) codes
      ≡ (role_eq role other || holds_code (role_code other) codes)
already role other codes held = elim (Bool-cases (role_eq role other)) [
  | inl same ↦ ground (arith, holds_code-same role other codes same)
  | inr apart ↦ rw apart refl
]

without :
    (role other : Role) (codes : List String)
    → holds_code (role_code role) codes ≡ false
    → holds_code (role_code other) codes
      ≡ (not (role_eq role other) && holds_code (role_code other) codes)
without role other codes not_held = elim (Bool-cases (role_eq role other)) [
  | inl same ↦ ground (arith, holds_code-same role other codes same)
  | inr apart ↦ rw apart refl
]

removed :
    (role other : Role) (codes : List String)
    → holds_code (role_code other) (remove_code (role_code role) codes)
      ≡ (not (role_eq role other) && holds_code (role_code other) codes)
removed role other codes = elim (Bool-cases (role_eq role other)) [
  | inl same ↦ ground (
    arith,
    holds_code-removed (role_code role) codes,
    holds_code-same role other (remove_code (role_code role) codes) same,
  )
  | inr apart ↦ rw apart (
      holds_code-remove_code (role_code role) (role_code other) codes
        (str_eq-role_code role other ∙ apart))
]

-- Granting a role is the insertion into the set of the target's roles, and changes the version of the
-- target's account exactly where the role is new.
pub assign_role-held_roles :
    (env : AuthEnv) (actor : Actor) (target : ℕ) (role : Role) (db d : AuthDb)
    → assign_role env actor target role db ≡ ok d
    → (old new : Account) × (account_at target db ≡ some old)
      × (account_at target d ≡ some new)
      × ((other : Role) → held_roles new other ≡ (role_eq role other || held_roles old other))
      × (new.session_version
          ≡ (if held_roles old role then old.session_version else old.session_version + 1))
unfolding assign_role check_role_change finish_role_change bump_and_revoke held_roles holds_code
assign_role-held_roles env actor target role db d h =
    elim (Result-cases (check_role_change actor target role db)) [
      | inr (e, refused) ↦ absurd (ground arith)
      | inl (account, passed) ↦
          let found : target_account target actor.institution_id db ≡ ok account = ground arith in
          let at = target_account_found target actor.institution_id db account found in
          elim (Bool-cases (holds_code (role_code role) account.role_codes)) [
            | inl held ↦ (
              account,
              account,
              at,
              ground arith,
              λ other. already role other account.role_codes held,
              ground arith,
            )
            | inr fresh ↦ (
              account,
              record account {
                role_codes = role_code role ∷ account.role_codes;
                session_version = account.session_version + 1;
              },
              at,
              ground arith,
              λ other. rw (str_eq-role_code role other) refl,
              ground arith,
            )
          ]
    ]

-- Revoking a role is the removal from that set.
pub revoke_role-held_roles :
    (env : AuthEnv) (actor : Actor) (target : ℕ) (role : Role) (db d : AuthDb)
    → revoke_role env actor target role db ≡ ok d
    → (old new : Account) × (account_at target db ≡ some old)
      × (account_at target d ≡ some new)
      × ((other : Role) → held_roles new other ≡ (not (role_eq role other) && held_roles old other))
      × (new.session_version
          ≡ (if held_roles old role then old.session_version + 1 else old.session_version))
unfolding revoke_role check_role_change finish_role_change bump_and_revoke held_roles
revoke_role-held_roles env actor target role db d h =
    elim (Result-cases (check_role_change actor target role db)) [
      | inr (e, refused) ↦ absurd (ground arith)
      | inl (account, passed) ↦
          let found : target_account target actor.institution_id db ≡ ok account = ground arith in
          let at = target_account_found target actor.institution_id db account found in
          elim (Bool-cases (holds_code (role_code role) account.role_codes)) [
            | inr not_held ↦ (
              account,
              account,
              at,
              ground arith,
              λ other. without role other account.role_codes not_held,
              ground arith,
            )
            | inl held ↦ (
              account,
              record account {
                role_codes = remove_code (role_code role) account.role_codes;
                session_version = account.session_version + 1;
              },
              at,
              ground arith,
              λ other. removed role other account.role_codes,
              ground arith,
            )
          ]
    ]

-- No operation of the service gives the role of the platform to an account or takes it from one.
pub Attends-platform :
    (lib : AuthLibrary) (user_id : ℕ) (old new : Account) (s d : AuthDb)
    → Attends lib s d
    → account_at user_id s ≡ some old
    → account_at user_id d ≡ some new
    → held_roles new Role.platform_licensing_admin ≡ held_roles old Role.platform_licensing_admin
unfolding held_roles role_code
Attends-platform lib user_id old new s d run at at' =
    let (later, found, f) = (Attends-Preserves lib run).follows user_id old at in
    ground (arith, f.platform_same)
