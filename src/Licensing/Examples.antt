-- ===== src/Licensing/Examples.antt =====
-- A suspended and a lapsed deployment, and the theorems of the licensing service at them.
use ubedtech.Prelude.{
  ℕ, ◌≤◌, ◌<◌, ◌≡◌, ◌⊎◌, ◌↔◌, refl, true, ◌&&◌, none, some, List, [], ◌∷◌, arith, leb, ltb, ◌==◌,
  if◌then◌else◌,
}
use ubedtech.Shared.Actor.{Actor, Role}
use ubedtech.Shared.Text.{is_blank, all_chars, is_whitespace}
use ubedtech.Shared.Error.{ok, err, institution_locked}
use ubedtech.Licensing.State.{
  LicenseStatus, LicenseMode, LicenseRow, LicenseDb, LicenseClaims, SignedLicenseFile,
}
use ubedtech.Licensing.Gate.{
  is_active, require_deployment_active, is_license_exempt, is_listed, starts_with, passed,
  license_middleware, license_middleware-passed,
}
use ubedtech.Licensing.Signed.{SignatureLibrary, verify_signed_license, verify_signed_license_lem}
use ubedtech.Licensing.Service.{
  try_from, license_of, with_status, with_claims, write_license, commit_status, install, set_status,
  commit_import, import_signed,
}
use ubedtech.Licensing.Recovery.{
  import_signed-require_deployment_active, set_status-institution_locked,
}
use ubedtech.Licensing.Staleness.{
  LicenseSystem, IsBehind, by_status, here, installed, Changes, Changes-IsBehind,
}

abbrev paula : Actor
paula = record {
  user_id = 1;
  institution_id = 1;
  student_id = none;
  roles = Role.platform_licensing_admin ∷ [];
}

abbrev hosted_row : LicenseRow
hosted_row = record {
  institution_id = 1;
  deployment_id = 9;
  mode = LicenseMode.hosted;
  status = LicenseStatus.active;
  valid_from = 100;
  valid_until = 200;
  feature_set = "{}";
  version = 1;
}

abbrev hosted_db : LicenseDb
hosted_db = record {
  institution_license = λ i. if i == 1 then some hosted_row else none;
  license_change = [];
  audit_event = [];
}

abbrev suspend : LicenseRow
suspend = with_status LicenseStatus.suspended hosted_row

abbrev suspended_db : LicenseDb
suspended_db = write_license paula "license.status_changed" hosted_row suspend hosted_db

suspends :
    set_status paula 1 LicenseStatus.suspended "unpaid" hosted_db hosted_db (try_from hosted_row)
    ≡ ok (try_from suspend, suspended_db, try_from suspend)
unfolding set_status commit_status license_of install is_blank all_chars is_whitespace
suspends = refl

set_status-institution_locked_example :
    require_deployment_active (try_from suspend) 150 ≡ err institution_locked
set_status-institution_locked_example =
    set_status-institution_locked paula 1 150 LicenseStatus.suspended "unpaid" hosted_db hosted_db
      (try_from hosted_row) (try_from suspend) suspended_db (try_from suspend) refl refl suspends

license_middleware-passed_example :
    (license_middleware (some (try_from suspend)) 150 (record { is_get = true; path = "/ui/login" })
      ≡ passed)
    ↔ ((is_license_exempt "/ui/login" ≡ true)
        ⊎ ((is_active (try_from suspend).status && leb 100 150 && ltb 150 200) ≡ true))
license_middleware-passed_example =
    license_middleware-passed (try_from suspend) 150 (record { is_get = true; path = "/ui/login" })

-- The page that a locked browser is sent to is exempt itself.
no_redirect_loop :
    license_middleware
      (some (try_from suspend))
      150
      (record { is_get = true; path = "/institution-locked" })
    ≡ passed
unfolding license_middleware is_license_exempt is_listed starts_with
no_redirect_loop = refl

-- A self-hosted deployment whose license has lapsed, and a file that renews it.
abbrev lapsed_row : LicenseRow
lapsed_row = record hosted_row { mode = LicenseMode.self_hosted; status = LicenseStatus.expired }

abbrev lapsed_db : LicenseDb
lapsed_db = record hosted_db { institution_license = λ i. if i == 1 then some lapsed_row else none }

abbrev renewal : LicenseClaims
renewal = record {
  institution_id = 1;
  deployment_id = 9;
  license_serial = 5;
  valid_from = 300;
  valid_until = 400;
  feature_set = "{}";
}

abbrev renewal_file : SignedLicenseFile
renewal_file = record { format = 1; claims_json = "claims"; signature_hex = "ab" }

-- Stands for the libraries: a signature is a number, and a key signs what it is asked to.
abbrev sample_library : SignatureLibrary
sample_library = record {
  VerifyingKey = ℕ;
  Signature = ℕ;
  hex_decode = λ s. some (171 ∷ []);
  from_slice = λ bytes. some 171;
  verify = λ key text signature. signature == key;
  from_str = λ text. some renewal;
}

verify_signed_license_lem_example :
    (bytes : List ℕ) × (signature : ℕ) × (sample_library.hex_decode renewal_file.signature_hex
      ≡ some bytes)
    × (sample_library.from_slice bytes ≡ some signature)
    × (sample_library.verify 171 renewal_file.claims_json signature ≡ true)
    × (sample_library.from_str renewal_file.claims_json ≡ some renewal)
    × (renewal.deployment_id ≡ 9)
    × (renewal.valid_from ≤ 350)
    × (350 < renewal.valid_until)
unfolding verify_signed_license
verify_signed_license_lem_example =
    verify_signed_license_lem sample_library renewal_file 171 9 350 renewal refl

abbrev renewed : LicenseRow
renewed = with_claims renewal lapsed_row

abbrev renewed_db : LicenseDb
renewed_db = write_license paula "license.imported" lapsed_row renewed lapsed_db

renews :
    import_signed sample_library paula (some 171) renewal_file 350 lapsed_db (try_from lapsed_row)
    ≡ ok (try_from renewed, renewed_db, try_from renewed)
unfolding import_signed commit_import license_of install verify_signed_license
renews = refl

import_signed-require_deployment_active_example :
    require_deployment_active (try_from renewed) 390 ≡ ok tt
import_signed-require_deployment_active_example =
    import_signed-require_deployment_active sample_library paula (some 171) renewal_file 350 390
      lapsed_db (try_from lapsed_row) (try_from renewed) renewed_db (try_from renewed) refl renews
      (ground arith) (ground arith)

-- Two requests suspend and reactivate the license; the first is late at the gate.
abbrev start : LicenseSystem
start = record { db = hosted_db; gate = try_from hosted_row }

start-IsBehind : IsBehind start.db start.gate
start-IsBehind = record {
  version_le = λ row e. ground arith;
  agrees = λ row e k. record {
    status_agrees = ground arith;
    from_agrees = ground arith;
    until_agrees = ground arith;
  };
}

abbrev reactivate : LicenseRow
reactivate = with_status LicenseStatus.active suspend

abbrev reactivated_db : LicenseDb
reactivated_db = write_license paula "license.status_changed" suspend reactivate suspended_db

suspend_commits :
    commit_status paula 1 LicenseStatus.suspended "unpaid" hosted_db hosted_db
    ≡ ok (try_from suspend, suspended_db)
unfolding commit_status license_of is_blank all_chars is_whitespace
suspend_commits = refl

reactivate_commits :
    commit_status paula 1 LicenseStatus.active "paid" hosted_db suspended_db
    ≡ ok (try_from reactivate, reactivated_db)
unfolding commit_status license_of is_blank all_chars is_whitespace write_license
reactivate_commits = refl

abbrev late : LicenseSystem
late = record { db = reactivated_db; gate = try_from suspend }

-- The database says that the license is active; the gate is left suspended.
late_reached : Changes sample_library start late
unfolding install
late_reached =
    installed (try_from suspend, suspended_db) here
      (by_status paula 1 LicenseStatus.suspended "unpaid" hosted_db (try_from suspend, suspended_db)
        suspend_commits)
      (installed (try_from reactivate, reactivated_db) here
        (by_status paula 1 LicenseStatus.active "paid" hosted_db
          (try_from reactivate, reactivated_db) reactivate_commits)
        here)

Changes-IsBehind_example : IsBehind late.db late.gate
Changes-IsBehind_example = Changes-IsBehind sample_library start-IsBehind late_reached
