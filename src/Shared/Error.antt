-- ===== src/Shared/Error.antt =====
-- backend/src/shared/error.rs: the error type of the services and the status of its response.
-- A message is kept where the service writes it; the two wrapped library errors carry nothing.
use ubedtech.Prelude.{
  ℕ, String, Bool, true, false, Option, none, some, ◌≡◌, refl, ◌⊎◌, inl, inr, arith,
}

pub data Result {ℓ κ} (E : Type ℓ) (A : Type κ) : Type (ℓ ⊔ κ) where
  ok : A → Result E A
  err : E → Result E A

infixl 5 ◌>>=◌ ◌>>◌
abbrev pub ◌>>=◌ : {E A B : Type 0} → Result E A → (A → Result E B) → Result E B
ok a >>= f = f a
err e >>= f = err e

abbrev pub ◌>>◌ : {E B : Type 0} → Result E (Unit {0}) → Result E B → Result E B
m >> k = m >>= λ _. k

abbrev pub guard : {E : Type 0} → Bool → E → Result E (Unit {0})
guard true e = ok tt
guard false e = err e

abbrev pub ok_or : {E A : Type 0} → Option A → E → Result E A
ok_or (some a) e = ok a
ok_or none e = err e

pub data AppError : Type 0 where
  unauthenticated : AppError
  forbidden : AppError
  not_found : AppError
  institution_locked : AppError
  rate_limited : AppError
  validation : String → AppError
  conflict : String → AppError
  integrity : String → AppError
  database : AppError
  template : AppError
  internal : AppError

unfoldable pub status_code : AppError → ℕ
status_code unauthenticated = 401
status_code forbidden = 403
status_code not_found = 404
status_code institution_locked = 402
status_code rate_limited = 429
status_code (validation m) = 422
status_code (conflict m) = 409
status_code (integrity m) = 500
status_code database = 500
status_code template = 500
status_code internal = 500

-- The `code` of the response's body.
unfoldable pub error_code : AppError → String
error_code unauthenticated = "unauthenticated"
error_code forbidden = "forbidden"
error_code not_found = "not_found"
error_code institution_locked = "institution_locked"
error_code rate_limited = "rate_limited"
error_code (validation m) = "validation_error"
error_code (conflict m) = "conflict"
error_code (integrity m) = "internal_error"
error_code database = "internal_error"
error_code template = "internal_error"
error_code internal = "internal_error"

pub Result-cases :
    {E A : Type 0} (m : Result E A) → ((a : A) × (m ≡ ok a)) ⊎ ((e : E) × (m ≡ err e))
Result-cases (ok a) = inl (a, refl)
Result-cases (err e) = inr (e, refl)

-- A chain that succeeds has passed its first step.
pub bind_inv :
    {E A B : Type 0} (m : Result E A) {f : A → Result E B} {b : B}
    → (m >>= f) ≡ ok b
    → (a : A) × (m ≡ ok a) × (f a ≡ ok b)
bind_inv (ok a) {f} {b} h = (a, refl, h)
bind_inv (err e) {f} {b} h = absurd (ground arith)
