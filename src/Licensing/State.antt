-- ===== src/Licensing/State.antt =====
-- The tables of backend/migrations/0006_licensing.sql, the snapshot of the gate and the claims of a
-- license file. A feature set is a JSON value that is only carried along.
use ubedtech.Prelude.{ℕ, String, Option, List}
use ubedtech.Shared.Audit.{AuditEvent}

pub data LicenseStatus : Type 0 where
  active : LicenseStatus
  suspended : LicenseStatus
  expired : LicenseStatus

pub data LicenseMode : Type 0 where
  hosted : LicenseMode
  self_hosted : LicenseMode

-- A row of `institution_license`.
pub record LicenseRow : Type 0 where
  pub institution_id : ℕ
  pub deployment_id : ℕ
  pub mode : LicenseMode
  pub status : LicenseStatus
  pub valid_from : ℕ
  pub valid_until : ℕ
  pub feature_set : String
  pub version : ℕ

pub record LicenseChange : Type 0 where
  pub institution_id : ℕ
  pub old_status : LicenseStatus
  pub new_status : LicenseStatus
  pub changed_by_user_id : ℕ

pub record LicenseDb : Type 0 where
  pub institution_license : ℕ → Option LicenseRow
  pub license_change : List LicenseChange
  pub audit_event : List AuditEvent

pub record LicenseSnapshot : Type 0 where
  pub institution_id : ℕ
  pub deployment_id : ℕ
  pub status : LicenseStatus
  pub valid_from : ℕ
  pub valid_until : ℕ
  pub version : ℕ
  pub feature_set : String

pub record LicenseClaims : Type 0 where
  pub institution_id : ℕ
  pub deployment_id : ℕ
  pub license_serial : ℕ
  pub valid_from : ℕ
  pub valid_until : ℕ
  pub feature_set : String

pub record SignedLicenseFile : Type 0 where
  pub format : ℕ
  pub claims_json : String
  pub signature_hex : String
