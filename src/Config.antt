-- ===== src/Config.antt =====
-- backend/src/config.rs: the configuration of the process, from a source of texts by name, as
-- environment variables are. The texts of errors are left out. An address and a path are not looked
-- into; the parser of addresses and the decoder of hexadecimal are parameters.
pub mod Bounds
mod Examples
use Prim.Native.Char.{code}
use Prim.Native.String.{String}
use text.Mathlib.Text.{◌==◌ as str_eq}
use ubedtech.Prelude.{
  ℕ, ◌+◌, ◌-◌, ◌*◌, Bool, true, false, ◌&&◌, not, Option, none, some, List, [], ◌∷◌, ltb, leb, ◌==◌,
  if◌then◌else◌, length,
}
use ubedtech.Shared.Text.{trim}
use ubedtech.Shared.Error.{Result, ok, err, ◌>>=◌, ◌>>◌, guard, ok_or}

pub data Environment : Type 0 where
  development : Environment
  production : Environment

pub data ConfigError : Type 0 where
  missing : String → ConfigError
  invalid : String → ConfigError

pub record AppConfig : Type 0 where
  pub environment : Environment
  pub database_url : String
  pub bind_addr : ℕ
  pub db_max_connections : ℕ
  pub db_min_connections : ℕ
  pub db_acquire_timeout_secs : ℕ
  pub document_storage_path : String
  pub worker_id : String
  pub shutdown_timeout_secs : ℕ
  pub readiness_interval_secs : ℕ
  pub argon2_memory_kib : ℕ
  pub argon2_time_cost : ℕ
  pub argon2_parallelism : ℕ
  pub session_idle_secs : ℕ
  pub session_absolute_secs : ℕ
  pub login_max_failures : ℕ
  pub login_throttle_window_secs : ℕ
  pub job_stale_secs : ℕ
  pub license_public_key : Option (List ℕ)

pub record ConfigLibrary : Type 0 where
  pub parse_addr : String → Option ℕ
  pub hex_decode : String → Option (List ℕ)

abbrev pub u32_range : ℕ
u32_range = 4294967296

abbrev pub u64_range : ℕ
u64_range = 18446744073709551616

-- The digits of an unsigned integer below `range`, behind those that make `value`.
unfoldable pub parse_digits : ℕ → ℕ → String → Option ℕ
parse_digits range value String.[] = some value
parse_digits range value (String.◌∷◌ c s) =
    let next = value * 10 + (code c - 48) in
    let rest = parse_digits range next s in
    if leb 48 (code c) && leb (code c) 57 && ltb next range then rest else none

-- `raw.parse::<u32>()` and `raw.parse::<u64>()`: a sign `+` may stand before the digits.
unfoldable pub parse_unsigned : ℕ → String → Option ℕ
unfolding parse_digits
parse_unsigned range String.[] = none
parse_unsigned range (String.◌∷◌ c String.[]) = parse_digits range 0 (String.◌∷◌ c String.[])
parse_unsigned range (String.◌∷◌ c (String.◌∷◌ d s)) =
    if code c == 43
    then parse_digits range 0 (String.◌∷◌ d s)
    else parse_digits range 0 (String.◌∷◌ c (String.◌∷◌ d s))

abbrev pub positive : Option ℕ → Option ℕ
positive none = none
positive (some n) = if n == 0 then none else some n

unfoldable pub parse_positive : ℕ → String → Option ℕ
unfolding parse_unsigned
parse_positive range raw = positive (parse_unsigned range raw)

abbrev pub or_else_text : Option String → String → String
or_else_text none default = default
or_else_text (some text) default = text

unfoldable pub parse_or_default :
    (String → Option String) → String → String → (String → Option ℕ) → Result ConfigError ℕ
parse_or_default get key default parse =
    ok_or (parse (or_else_text (get key) default)) (invalid key)

unfoldable pub read_environment : Option String → Result ConfigError Environment
read_environment none = ok Environment.development
read_environment (some text) =
    if str_eq text "production"
    then ok Environment.production
    else if str_eq text "development"
    then ok Environment.development
    else err (invalid "APP_ENV")

module _ (lib : ConfigLibrary) where
  unfoldable pub read_public_key : Option String → Result ConfigError (Option (List ℕ))
  unfolding trim
  read_public_key none = ok none
  read_public_key (some raw) = elim (lib.hex_decode (trim raw)) [
    | none ↦ err (invalid "APP_LICENSE_PUBLIC_KEY")
    | some bytes ↦
        if length bytes == 32 then ok (some bytes) else err (invalid "APP_LICENSE_PUBLIC_KEY")
  ]

  unfoldable pub from_source : (String → Option String) → Result ConfigError AppConfig
  unfolding parse_or_default parse_positive read_environment read_public_key
  from_source get = do
    environment ← read_environment (get "APP_ENV")
    database_url ← ok_or (get "DATABASE_URL") (missing "DATABASE_URL")
    bind_addr ← parse_or_default get "APP_BIND_ADDR" "0.0.0.0:8080" lib.parse_addr
    db_max_connections ←
        parse_or_default get "APP_DB_MAX_CONNECTIONS" "64" (parse_positive u32_range)
    db_min_connections ←
        parse_or_default get "APP_DB_MIN_CONNECTIONS" "8" (parse_positive u32_range)
    guard (leb db_min_connections db_max_connections) (invalid "APP_DB_MIN_CONNECTIONS")
    db_acquire_timeout_secs ←
        parse_or_default get "APP_DB_ACQUIRE_TIMEOUT_SECS" "5" (parse_positive u64_range)
    shutdown_timeout_secs ←
        parse_or_default get "APP_SHUTDOWN_TIMEOUT_SECS" "30" (parse_positive u64_range)
    readiness_interval_secs ←
        parse_or_default get "APP_READINESS_INTERVAL_SECS" "5" (parse_positive u64_range)
    argon2_memory_kib ←
        parse_or_default get "APP_ARGON2_MEMORY_KIB" "19456" (parse_positive u32_range)
    argon2_time_cost ← parse_or_default get "APP_ARGON2_TIME_COST" "2" (parse_positive u32_range)
    argon2_parallelism ←
        parse_or_default get "APP_ARGON2_PARALLELISM" "1" (parse_positive u32_range)
    session_idle_secs ←
        parse_or_default get "APP_SESSION_IDLE_SECS" "1800" (parse_positive u64_range)
    session_absolute_secs ←
        parse_or_default get "APP_SESSION_ABSOLUTE_SECS" "43200" (parse_positive u64_range)
    login_max_failures ←
        parse_or_default get "APP_LOGIN_MAX_FAILURES" "10" (parse_positive u32_range)
    login_throttle_window_secs ←
        parse_or_default get "APP_LOGIN_THROTTLE_WINDOW_SECS" "900" (parse_positive u64_range)
    job_stale_secs ← parse_or_default get "APP_JOB_STALE_SECS" "300" (parse_positive u64_range)
    license_public_key ← read_public_key (get "APP_LICENSE_PUBLIC_KEY")
    guard (leb session_idle_secs session_absolute_secs) (invalid "APP_SESSION_IDLE_SECS")
    ok (record {
      environment = environment;
      database_url = database_url;
      bind_addr = bind_addr;
      db_max_connections = db_max_connections;
      db_min_connections = db_min_connections;
      db_acquire_timeout_secs = db_acquire_timeout_secs;
      document_storage_path = or_else_text (get "APP_DOCUMENT_STORAGE_PATH") "./var/documents";
      worker_id = or_else_text (get "APP_WORKER_ID") "document-worker-1";
      shutdown_timeout_secs = shutdown_timeout_secs;
      readiness_interval_secs = readiness_interval_secs;
      argon2_memory_kib = argon2_memory_kib;
      argon2_time_cost = argon2_time_cost;
      argon2_parallelism = argon2_parallelism;
      session_idle_secs = session_idle_secs;
      session_absolute_secs = session_absolute_secs;
      login_max_failures = login_max_failures;
      login_throttle_window_secs = login_throttle_window_secs;
      job_stale_secs = job_stale_secs;
      license_public_key = license_public_key;
    })
