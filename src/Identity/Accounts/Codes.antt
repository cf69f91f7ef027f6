-- ===== src/Identity/Accounts/Codes.antt =====
-- The role codes of an account (backend/src/identity_access/service.rs, backend/src/shared/actor.rs)
-- as a set.
use Prim.Native.String.{String}
use text.Mathlib.Text.{◌==◌ as str_eq}
use text.Mathlib.TextEquality.{eq_iff}
use ubedtech.Prelude.{
  ◌≡◌, refl, true, false, ◌||◌, some, List, [], ◌∷◌, arith, Bool-cases, inl, inr, ap, ◌∙◌, sym,
}
use ubedtech.Shared.Actor.{Role, role_eq}
use ubedtech.Identity.Sessions.{from_code}
use ubedtech.Identity.Accounts.{role_code, holds_code, remove_code, assignable_by_institution_admin}

abbrev pub platform_code : String
platform_code = "platform_licensing_admin"

-- The code of a role names that role.
pub from_code-role_code : (role : Role) → from_code (role_code role) ≡ some role
unfolding from_code role_code
from_code-role_code Role.student = refl
from_code-role_code Role.instructor = refl
from_code-role_code Role.registrar = refl
from_code-role_code Role.records_officer = refl
from_code-role_code Role.document_officer = refl
from_code-role_code Role.institution_admin = refl
from_code-role_code Role.platform_licensing_admin = refl

role_eq_refl : (r : Role) → role_eq r r ≡ true
role_eq_refl r = ground arith

role_eq_sound : (r s : Role) → role_eq r s ≡ true → r ≡ s
role_eq_sound r s h = ground arith

-- Codes are equal only for equal roles.
pub str_eq-role_code : (r s : Role) → str_eq (role_code r) (role_code s) ≡ role_eq r s
str_eq-role_code r s = elim (Bool-cases (role_eq r s)) [
  | inl same ↦
      (eq_iff (role_code r) (role_code s)).1 (ap role_code (role_eq_sound r s same)) ∙ sym same
  | inr other ↦ elim (Bool-cases (str_eq (role_code r) (role_code s))) [
    | inr apart ↦ apart ∙ sym other
    | inl equal ↦
        let twice : some r ≡ some s =
          sym (from_code-role_code r)
          ∙ ap from_code ((eq_iff (role_code r) (role_code s)).0 equal)
          ∙ from_code-role_code s in
        absurd (ground (arith, role_eq_refl r))
  ]
]

-- Without a code, the others are held as before.
pub holds_code-remove_code :
    (code other : String) (codes : List String)
    → str_eq code other ≡ false
    → holds_code other (remove_code code codes) ≡ holds_code other codes
unfolding holds_code remove_code
holds_code-remove_code code other [] h = refl
holds_code-remove_code code other (c ∷ cs) h =
    let ih = holds_code-remove_code code other cs h in
    elim (Bool-cases (str_eq c code)) [
      | inr kept ↦ rw kept (ap (λ b. str_eq c other || b) ih)
      | inl gone ↦
          let same : c ≡ code = (eq_iff c code).0 gone in
          let apart : str_eq c other ≡ false = rw same h in ground arith
    ]

platform_apart :
    (role : Role)
    → assignable_by_institution_admin role ≡ true
    → str_eq (role_code role) platform_code ≡ false
unfolding from_code
platform_apart role h = elim (Bool-cases (str_eq (role_code role) platform_code)) [
  | inr apart ↦ apart
  | inl same ↦
      let twice : some role ≡ some Role.platform_licensing_admin =
        sym (from_code-role_code role)
        ∙ ap from_code ((eq_iff (role_code role) platform_code).0 same) in
      absurd (ground arith)
]

pub holds_code-add :
    (role : Role) (codes : List String)
    → assignable_by_institution_admin role ≡ true
    → holds_code platform_code (role_code role ∷ codes) ≡ holds_code platform_code codes
unfolding holds_code
holds_code-add role codes h = rw (platform_apart role h) refl

pub holds_code-remove :
    (role : Role) (codes : List String)
    → assignable_by_institution_admin role ≡ true
    → holds_code platform_code (remove_code (role_code role) codes) ≡ holds_code platform_code codes
holds_code-remove role codes h =
    holds_code-remove_code (role_code role) platform_code codes (platform_apart role h)

-- A code that is removed is no longer held.
pub holds_code-removed :
    (code : String) (codes : List String) → holds_code code (remove_code code codes) ≡ false
unfolding holds_code remove_code
holds_code-removed code [] = refl
holds_code-removed code (c ∷ cs) = ground (arith, holds_code-removed code cs)

-- The codes of equal roles are held alike.
pub holds_code-same :
    (role other : Role) (codes : List String)
    → role_eq role other ≡ true
    → holds_code (role_code role) codes ≡ holds_code (role_code other) codes
holds_code-same role other codes h =
    ap (λ r. holds_code (role_code r) codes) (role_eq_sound role other h)
