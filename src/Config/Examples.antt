-- ===== src/Config/Examples.antt =====
-- Tests of the configuration.
use Prim.Native.String.{String}
use text.Mathlib.Text.{◌==◌ as str_eq}
use ubedtech.Prelude.{◌≡◌, refl, Option, none, some, if◌then◌else◌}
use ubedtech.Shared.Error.{ok, err}
use ubedtech.Config.{
  AppConfig, ConfigLibrary, Environment, missing, u32_range, parse_digits, parse_unsigned,
  parse_positive, parse_or_default, read_environment, read_public_key, from_source,
}

-- Stand for the parser of addresses and the decoder of hexadecimal.
abbrev lib : ConfigLibrary
lib = record { parse_addr = λ s. some 0; hex_decode = λ s. none }

abbrev only_database : String → Option String
only_database key = if str_eq key "DATABASE_URL" then some "postgres" else none

abbrev defaults : AppConfig
defaults = record {
  environment = Environment.development;
  database_url = "postgres";
  bind_addr = 0;
  db_max_connections = 64;
  db_min_connections = 8;
  db_acquire_timeout_secs = 5;
  document_storage_path = "./var/documents";
  worker_id = "document-worker-1";
  shutdown_timeout_secs = 30;
  readiness_interval_secs = 5;
  argon2_memory_kib = 19456;
  argon2_time_cost = 2;
  argon2_parallelism = 1;
  session_idle_secs = 1800;
  session_absolute_secs = 43200;
  login_max_failures = 10;
  login_throttle_window_secs = 900;
  job_stale_secs = 300;
  license_public_key = none;
}

accepts_defaults : from_source lib only_database ≡ ok defaults
unfolding from_source read_environment read_public_key parse_or_default parse_positive
    parse_unsigned parse_digits
accepts_defaults = refl

wants_database : from_source lib (λ key. none) ≡ err (missing "DATABASE_URL")
unfolding from_source read_environment
wants_database = refl

reads_sign : parse_positive u32_range "+7" ≡ some 7
unfolding parse_positive parse_unsigned parse_digits
reads_sign = refl

refuses_overflow : parse_positive u32_range "4294967296" ≡ none
unfolding parse_positive parse_unsigned parse_digits
refuses_overflow = refl
