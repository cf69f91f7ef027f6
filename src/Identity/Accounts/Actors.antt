-- ===== src/Identity/Accounts/Actors.antt =====
-- The roles of the actor that a session resolves to (backend/src/identity_access/sessions.rs) and
-- those that the service has granted (backend/src/identity_access/service.rs).
use Prim.Native.String.{String}
use text.Mathlib.Text.{◌==◌ as str_eq}
use text.Mathlib.TextEquality.{eq_iff}
use ubedtech.Prelude.{
  ℕ, ◌≡◌, sym, ap, ◌∙◌, true, some, List, [], ◌∷◌, arith, Option-cases, Bool-cases, inl, inr,
}
use ubedtech.Shared.Actor.{Role, role_eq, holds_role, has_role}
use ubedtech.Shared.Error.{ok, Result-cases}
use ubedtech.Identity.Sessions.{
  Account, SessionDb, SessionEnv, SessionService, ResolvedSession, from_code, roles_of, resolve,
  resolved,
}
use ubedtech.Identity.Sessions.Resolution.{resolve_inv}
use ubedtech.Identity.Accounts.{role_code, holds_code}
use ubedtech.Identity.Accounts.Codes.{from_code-role_code, str_eq-role_code}
use ubedtech.Identity.Accounts.Roles.{held_roles}

-- A text that names a role is its code.
named :
    (c : String) (role : Role)
    → str_eq c (role_code role) ≡ true
    → (r : Role) → from_code c ≡ some r
    → c ≡ role_code r
named c role h r e =
    let same : c ≡ role_code role = (eq_iff c (role_code role)).0 h in
    let twice : some role ≡ some r = sym (from_code-role_code role) ∙ ap from_code (sym same) ∙ e in
    same ∙ ap role_code (ground arith)

from_code_inv : (c : String) (r : Role) → from_code c ≡ some r → c ≡ role_code r
unfolding from_code role_code
from_code_inv c r h = elim (Bool-cases (str_eq c "student")) [
  | inl a ↦ named c Role.student a r h
  | inr na ↦ elim (Bool-cases (str_eq c "instructor")) [
    | inl b ↦ named c Role.instructor b r h
    | inr nb ↦ elim (Bool-cases (str_eq c "registrar")) [
      | inl d ↦ named c Role.registrar d r h
      | inr nd ↦ elim (Bool-cases (str_eq c "records_officer")) [
        | inl e ↦ named c Role.records_officer e r h
        | inr ne ↦ elim (Bool-cases (str_eq c "document_officer")) [
          | inl f ↦ named c Role.document_officer f r h
          | inr nf ↦ elim (Bool-cases (str_eq c "institution_admin")) [
            | inl g ↦ named c Role.institution_admin g r h
            | inr ng ↦ elim (Bool-cases (str_eq c "platform_licensing_admin")) [
              | inl i ↦ named c Role.platform_licensing_admin i r h
              | inr ni ↦ absurd (ground arith)
            ]
          ]
        ]
      ]
    ]
  ]
]

roles_of-holds_code :
    (codes : List String) (roles : List Role) (role : Role)
    → roles_of codes ≡ ok roles
    → holds_role role roles ≡ holds_code (role_code role) codes
unfolding roles_of holds_code
roles_of-holds_code [] roles role h = ground arith
roles_of-holds_code (c ∷ cs) roles role h = elim (Option-cases (from_code c)) [
  | inl unknown ↦ absurd (ground arith)
  | inr (r, known) ↦ elim (Result-cases (roles_of cs)) [
    | inr (e, bad) ↦ absurd (ground arith)
    | inl (rest, good) ↦
        let ih = roles_of-holds_code cs rest role good in
        let own : str_eq c (role_code role) ≡ role_eq r role =
          ap (λ t. str_eq t (role_code role)) (from_code_inv c r known) ∙ str_eq-role_code r role in
        ground arith
  ]
]

-- The actor that a token resolves to has exactly the roles that its account holds, of all of the
-- account's institution: what the policies read is what has been granted.
pub resolve-held_roles :
    (sha256 : String → ℕ) (service : SessionService) (env : SessionEnv) (raw_token : String)
    (db after : SessionDb) (r : ResolvedSession) (role : Role)
    → resolve sha256 service env raw_token db ≡ ok (some r, after)
    → (account : Account) × (db.user_account r.actor.user_id ≡ some account)
      × (has_role r.actor role ≡ held_roles account role)
unfolding resolved held_roles
resolve-held_roles sha256 service env raw_token db after r role h =
    let (s, account, roles, found, of, fresh, good, e) =
      resolve_inv sha256 service env raw_token db r after h in
    let own : r.actor.user_id ≡ s.user_id = ap (λ (q : ResolvedSession). q.actor.user_id) e in
    let its : r.actor.roles ≡ roles = ap (λ (q : ResolvedSession). q.actor.roles) e in
    (
      account,
      rw own of,
      ap (holds_role role) its ∙ roles_of-holds_code account.role_codes roles role good,
    )
