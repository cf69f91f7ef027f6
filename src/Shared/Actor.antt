-- ===== src/Shared/Actor.antt =====
-- backend/src/shared/actor.rs: roles and the authenticated actor. A UUID is a number that is only
-- compared; the set of roles is a list that is only searched.
use ubedtech.Prelude.{ℕ, Bool, true, false, ◌||◌, Option, none, some, List, [], ◌∷◌, if◌then◌else◌}
use ubedtech.Shared.Error.{AppError, forbidden, Result, ok, err}

pub data Role : Type 0 where
  student : Role
  instructor : Role
  registrar : Role
  records_officer : Role
  document_officer : Role
  institution_admin : Role
  platform_licensing_admin : Role

abbrev pub role_eq : Role → Role → Bool
role_eq student student = true
role_eq instructor instructor = true
role_eq registrar registrar = true
role_eq records_officer records_officer = true
role_eq document_officer document_officer = true
role_eq institution_admin institution_admin = true
role_eq platform_licensing_admin platform_licensing_admin = true
role_eq _ _ = false

pub record Actor : Type 0 where
  pub user_id : ℕ
  pub institution_id : ℕ
  pub student_id : Option ℕ
  pub roles : List Role

abbrev pub holds_role : Role → List Role → Bool
holds_role r [] = false
holds_role r (x ∷ xs) = role_eq x r || holds_role r xs

abbrev pub has_role : Actor → Role → Bool
has_role a r = holds_role r a.roles

abbrev pub require_student_self : Actor → Result AppError ℕ
require_student_self a = elim a.student_id [ some id ↦ ok id | none ↦ err forbidden ]

-- A policy that lets through the actors that hold a role.
abbrev pub require_role : Actor → Role → Result AppError (Unit {0})
require_role a r = if has_role a r then ok tt else err forbidden
