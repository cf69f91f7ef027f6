-- ===== src/Config/Bounds.antt =====
-- What a configuration that is accepted (backend/src/config.rs) lies within.
use Prim.Native.Char.{code}
use Prim.Native.String.{String}
use mathlib.Core.Path.{subst}
use ubedtech.Prelude.{
  ℕ, ◌+◌, ◌-◌, ◌*◌, ◌<◌, ◌≤◌, ◌≡◌, ap, refl, Bool, true, false, Option, some, arith, leb, ◌==◌,
  Option-cases, Bool-cases, inl, inr,
}
use ubedtech.Shared.Error.{Result, ok, err, guard, ok_or, bind_inv}
use ubedtech.Config.{
  missing, AppConfig, ConfigError, ConfigLibrary, u32_range, u64_range, parse_digits,
  parse_unsigned, parse_positive, parse_or_default, read_environment, read_public_key, from_source,
  invalid,
}

-- Digits are read without overflow.
parse_digits-lt :
    (range value : ℕ) (text : String) (n : ℕ)
    → value < range
    → parse_digits range value text ≡ some n
    → n < range
unfolding parse_digits
parse_digits-lt range value String.[] n small h = ground arith
parse_digits-lt range value (String.◌∷◌ c s) n small h =
    ground (arith, parse_digits-lt range (value * 10 + (code c - 48)) s n)

parse_unsigned-lt :
    (range : ℕ) (text : String) (n : ℕ) → 0 < range → parse_unsigned range text ≡ some n → n < range
unfolding parse_unsigned
parse_unsigned-lt range String.[] n pos h = ground arith
parse_unsigned-lt range (String.◌∷◌ c String.[]) n pos h =
    parse_digits-lt range 0 (String.◌∷◌ c String.[]) n pos h
parse_unsigned-lt range (String.◌∷◌ c (String.◌∷◌ d s)) n pos h = elim (Bool-cases (code c == 43)) [
  | inl signed ↦ parse_digits-lt range 0 (String.◌∷◌ d s) n pos (ground arith)
  | inr plain ↦ parse_digits-lt range 0 (String.◌∷◌ c (String.◌∷◌ d s)) n pos (ground arith)
]

pub parse_positive-lt :
    (range : ℕ) (text : String) (n : ℕ)
    → 0 < range
    → parse_positive range text ≡ some n
    → (0 < n) × (n < range)
unfolding parse_positive
parse_positive-lt range text n pos h = elim (Option-cases (parse_unsigned range text)) [
  | inl bad ↦ absurd (ground arith)
  | inr (m, e) ↦ ground (arith, parse_unsigned-lt range text m pos e)
]

parse_or_default_bounds :
    (get : String → Option String) (key default : String) (range n : ℕ)
    → 0 < range
    → parse_or_default get key default (parse_positive range) ≡ ok n
    → (0 < n) × (n < range)
unfolding parse_or_default
parse_or_default_bounds get key default range n pos h = elim (Option-cases (get key)) [
  | inl unset ↦ elim (Option-cases (parse_positive range default)) [
    | inl bad ↦ absurd (ground arith)
    | inr (m, e) ↦ ground (arith, parse_positive-lt range default m pos e)
  ]
  | inr (raw, set) ↦ elim (Option-cases (parse_positive range raw)) [
    | inl bad ↦ absurd (ground arith)
    | inr (m, e) ↦ ground (arith, parse_positive-lt range raw m pos e)
  ]
]

-- A configuration that a process can start with.
pub record IsValid (config : AppConfig) : Type 0 where
  pub pool :
      (0 < config.db_min_connections)
      × (config.db_min_connections ≤ config.db_max_connections)
      × (config.db_max_connections < u32_range)
  pub session :
      (0 < config.session_idle_secs)
      × (config.session_idle_secs ≤ config.session_absolute_secs)
      × (config.session_absolute_secs < u64_range)

value_of : {A : Type 0} → A → Result ConfigError A → A
value_of a (ok b) = b
value_of a (err e) = a

guard_inv : (b : Bool) (e : ConfigError) (u : Unit {0}) → guard b e ≡ ok u → b ≡ true
guard_inv true e u h = refl
guard_inv false e u h = absurd (ground arith)

leb_le : (a b : ℕ) → leb a b ≡ true → a ≤ b
leb_le a b h = ground arith

-- An accepted configuration has a pool of connections and session deadlines that are positive, in
-- order, and within their machine integers.
pub from_source-IsValid :
    (lib : ConfigLibrary) (get : String → Option String) (config : AppConfig)
    → from_source lib get ≡ ok config
    → IsValid config
unfolding from_source value_of
from_source-IsValid lib get config h =
    let (v0, e0, h0) = bind_inv (read_environment (get "APP_ENV")) h in
    let (v1, e1, h1) = bind_inv (ok_or (get "DATABASE_URL") (missing "DATABASE_URL")) h0 in
    let (v2, e2, h2) =
      bind_inv (parse_or_default get "APP_BIND_ADDR" "0.0.0.0:8080" lib.parse_addr) h1 in
    let (most, e3, h3) =
      bind_inv (parse_or_default get "APP_DB_MAX_CONNECTIONS" "64" (parse_positive u32_range)) h2 in
    let (least, e4, h4) =
      bind_inv (parse_or_default get "APP_DB_MIN_CONNECTIONS" "8" (parse_positive u32_range)) h3 in
    let (v5, e5, h5) = bind_inv (guard (leb least most) (invalid "APP_DB_MIN_CONNECTIONS")) h4 in
    let (v6, e6, h6) =
      bind_inv (parse_or_default get "APP_DB_ACQUIRE_TIMEOUT_SECS" "5" (parse_positive u64_range))
        h5 in
    let (v7, e7, h7) =
      bind_inv (parse_or_default get "APP_SHUTDOWN_TIMEOUT_SECS" "30" (parse_positive u64_range))
        h6 in
    let (v8, e8, h8) =
      bind_inv (parse_or_default get "APP_READINESS_INTERVAL_SECS" "5" (parse_positive u64_range))
        h7 in
    let (v9, e9, h9) =
      bind_inv (parse_or_default get "APP_ARGON2_MEMORY_KIB" "19456" (parse_positive u32_range))
        h8 in
    let (v10, e10, h10) =
      bind_inv (parse_or_default get "APP_ARGON2_TIME_COST" "2" (parse_positive u32_range)) h9 in
    let (v11, e11, h11) =
      bind_inv (parse_or_default get "APP_ARGON2_PARALLELISM" "1" (parse_positive u32_range)) h10 in
    let (idle, e12, h12) =
      bind_inv (parse_or_default get "APP_SESSION_IDLE_SECS" "1800" (parse_positive u64_range))
        h11 in
    let (absolute, e13, h13) =
      bind_inv (parse_or_default get "APP_SESSION_ABSOLUTE_SECS" "43200" (parse_positive u64_range))
        h12 in
    let (v14, e14, h14) =
      bind_inv (parse_or_default get "APP_LOGIN_MAX_FAILURES" "10" (parse_positive u32_range))
        h13 in
    let (v15, e15, h15) =
      bind_inv
        (parse_or_default get "APP_LOGIN_THROTTLE_WINDOW_SECS" "900" (parse_positive u64_range))
        h14 in
    let (v16, e16, h16) =
      bind_inv (parse_or_default get "APP_JOB_STALE_SECS" "300" (parse_positive u64_range)) h15 in
    let (v17, e17, h17) = bind_inv (read_public_key lib (get "APP_LICENSE_PUBLIC_KEY")) h16 in
    let (_, ordered, done) =
      bind_inv (guard (leb idle absolute) (invalid "APP_SESSION_IDLE_SECS")) h17 in
    let most_bounds =
      parse_or_default_bounds get "APP_DB_MAX_CONNECTIONS" "64" u32_range most (omega arith) e3 in
    let least_bounds =
      parse_or_default_bounds get "APP_DB_MIN_CONNECTIONS" "8" u32_range least (omega arith) e4 in
    let idle_bounds =
      parse_or_default_bounds get "APP_SESSION_IDLE_SECS" "1800" u64_range idle (omega arith) e12 in
    let absolute_bounds =
      parse_or_default_bounds get "APP_SESSION_ABSOLUTE_SECS" "43200" u64_range absolute
        (omega arith) e13 in
    subst IsValid (ap (value_of config) done) (record {
      pool = (least_bounds.0, leb_le least most (guard_inv (leb least most) _ _ e5), most_bounds.1);
      session = (
        idle_bounds.0,
        leb_le idle absolute (guard_inv (leb idle absolute) _ _ ordered),
        absolute_bounds.1,
      );
    })
