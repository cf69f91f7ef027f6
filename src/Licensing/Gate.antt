-- ===== src/Licensing/Gate.antt =====
-- backend/src/licensing/gate.rs and middleware.rs: the snapshot that the gate holds, and what becomes
-- of a request at it.
use Prim.Native.Char.{code}
use Prim.Native.String.{String}
use text.Mathlib.Text.{◌==◌ as str_eq}
use ubedtech.Prelude.{
  ℕ, ◌≡◌, ◌⊎◌, ◌↔◌, Bool, true, false, ◌&&◌, ◌||◌, Option, none, some, List, [], ◌∷◌, arith, leb,
  ltb, ◌==◌, if◌then◌else◌, Bool-cases, inl, inr,
}
use ubedtech.Shared.Error.{Result, ok, err, AppError, institution_locked, internal}
use ubedtech.Licensing.State.{LicenseStatus, LicenseSnapshot}

abbrev pub is_active : LicenseStatus → Bool
is_active status = elim status [ LicenseStatus.active ↦ true | _ ↦ false ]

-- `LicenseGate::require_deployment_active`
unfoldable pub require_deployment_active : LicenseSnapshot → ℕ → Result AppError (Unit {0})
require_deployment_active snapshot now =
    if is_active snapshot.status && leb snapshot.valid_from now && ltb now snapshot.valid_until
    then ok tt
    else err institution_locked

-- `path.starts_with(prefix)`
unfoldable pub starts_with : String → String → Bool
starts_with path String.[] = true
starts_with String.[] (String.◌∷◌ p prefix) = false
starts_with (String.◌∷◌ c path) (String.◌∷◌ p prefix) =
    (code c == code p) && starts_with path prefix

abbrev pub exact_paths : List String
exact_paths =
    "/health/live" ∷ "/health/ready" ∷ "/license/status" ∷ "/license/import" ∷ "/institution-locked"
    ∷ "/api/v1/session/login" ∷ "/api/v1/session/logout" ∷ "/ui/login" ∷ "/ui/signout" ∷ []

unfoldable pub is_listed : String → List String → Bool
is_listed path [] = false
is_listed path (p ∷ ps) = str_eq p path || is_listed path ps

unfoldable pub is_license_exempt : String → Bool
unfolding is_listed starts_with
is_license_exempt path =
    is_listed path exact_paths || starts_with path "/ui/platform/" || starts_with path "/assets/"

pub record Request : Type 0 where
  pub is_get : Bool
  pub path : String

-- What the middleware does with a request: hand it on, or answer it.
pub data Outcome : Type 0 where
  passed : Outcome
  see_other : String → Outcome
  error_response : AppError → Outcome

-- The gate is missing where it is not registered as app data.
unfoldable pub license_middleware : Option LicenseSnapshot → ℕ → Request → Outcome
unfolding is_license_exempt require_deployment_active
license_middleware gate now req = if is_license_exempt req.path then passed else elim gate [
  | none ↦ error_response internal
  | some snapshot ↦ elim (require_deployment_active snapshot now) [
    | ok _ ↦ passed
    | err locked ↦
        if req.is_get && starts_with req.path "/ui/"
        then see_other "/institution-locked"
        else error_response locked
  ]
]

-- A request is handed on exactly if its path is exempt or the license is active, in its window, at
-- the time of the request.
pub license_middleware-passed :
    (snapshot : LicenseSnapshot) (now : ℕ) (req : Request)
    → (license_middleware (some snapshot) now req ≡ passed) ↔ (
        (is_license_exempt req.path ≡ true)
        ⊎ ((is_active snapshot.status
              && leb snapshot.valid_from now
              && ltb now snapshot.valid_until)
            ≡ true))
unfolding license_middleware require_deployment_active
license_middleware-passed snapshot now req = elim (Bool-cases (is_license_exempt req.path)) [
  | inl exempt ↦ (λ h. inl exempt, λ h. ground arith)
  | inr gated ↦ (λ h. inr (ground arith), λ h. ground arith)
]
