-- ===== src/Licensing/Service.antt =====
-- backend/src/licensing/service.rs: the two operations that change the license. Each commits a
-- transaction, and only then puts the snapshot of the committed row into the gate.
use ubedtech.Prelude.{
  ℕ, String, ◌+◌, Bool, true, false, ◌||◌, not, Option, none, some, ◌∷◌, ltb, ◌==◌, if◌then◌else◌,
  upsert,
}
use ubedtech.Shared.Actor.{Actor, Role, has_role, require_role}
use ubedtech.Shared.Text.{is_blank}
use ubedtech.Shared.Error.{
  Result, ok, err, ◌>>=◌, ◌>>◌, guard, ok_or, AppError, forbidden, not_found, validation, database,
}
use ubedtech.Licensing.State.{
  LicenseStatus, LicenseMode, LicenseRow, LicenseDb, LicenseSnapshot, LicenseClaims,
  SignedLicenseFile,
}
use ubedtech.Licensing.Signed.{SignatureLibrary, verify_signed_license}

-- `LicenseSnapshot::try_from`
abbrev pub try_from : LicenseRow → LicenseSnapshot
try_from row = record {
  institution_id = row.institution_id;
  deployment_id = row.deployment_id;
  status = row.status;
  valid_from = row.valid_from;
  valid_until = row.valid_until;
  version = row.version;
  feature_set = row.feature_set;
}

abbrev pub is_self_hosted : LicenseMode → Bool
is_self_hosted mode = elim mode [ LicenseMode.hosted ↦ false | LicenseMode.self_hosted ↦ true ]

-- The update of the row with its change record and its audit event.
unfoldable pub write_license : Actor → String → LicenseRow → LicenseRow → LicenseDb → LicenseDb
write_license actor action old updated db = record {
  institution_license = upsert old.institution_id updated db.institution_license;
  license_change =
      record {
        institution_id = old.institution_id;
        old_status = old.status;
        new_status = updated.status;
        changed_by_user_id = actor.user_id;
      }
      ∷ db.license_change;
  audit_event =
      record {
        institution_id = old.institution_id;
        actor_user_id = actor.user_id;
        action = action;
        resource_type = "institution_license";
        resource_id = old.institution_id;
      }
      ∷ db.audit_event;
}

-- The row of an institution; the key of the table is a column of its rows.
unfoldable pub license_of : ℕ → LicenseDb → Result AppError LicenseRow
license_of institution_id db = elim (db.institution_license institution_id) [
  | none ↦ err not_found
  | some row ↦ ok (record row { institution_id = institution_id })
]

abbrev pub with_status : LicenseStatus → LicenseRow → LicenseRow
with_status new_status row = record row { status = new_status; version = row.version + 1 }

-- `set_status`, up to its commit. The mode is read from `before`, outside of the transaction.
unfoldable pub commit_status :
    Actor
    → ℕ
    → LicenseStatus
    → String
    → LicenseDb
    → LicenseDb
    → Result AppError (LicenseSnapshot × LicenseDb)
unfolding license_of write_license
commit_status actor institution_id new_status reason before db = do
  require_role actor Role.platform_licensing_admin
  guard (not (is_blank reason)) (validation "reason is required")
  read ← license_of institution_id before
  guard (not (is_self_hosted read.mode))
      (validation "self-hosted license state changes only through signed license import")
  old ← license_of institution_id db
  ok (
    try_from (with_status new_status old),
    write_license actor "license.status_changed" old (with_status new_status old) db,
  )

abbrev pub with_claims : LicenseClaims → LicenseRow → LicenseRow
with_claims claims row = record row {
  status = LicenseStatus.active;
  valid_from = claims.valid_from;
  valid_until = claims.valid_until;
  feature_set = claims.feature_set;
  version = row.version + 1;
}

-- `if self.gate.snapshot().institution_id == … { self.gate.replace(snapshot) }`
unfoldable pub install : LicenseSnapshot → LicenseSnapshot → LicenseSnapshot
install snapshot gate = if gate.institution_id == snapshot.institution_id then snapshot else gate

unfoldable pub set_status :
    Actor
    → ℕ
    → LicenseStatus
    → String
    → LicenseDb
    → LicenseDb
    → LicenseSnapshot
    → Result AppError (LicenseSnapshot × LicenseDb × LicenseSnapshot)
unfolding commit_status install
set_status actor institution_id new_status reason before db gate =
    commit_status actor institution_id new_status reason before db >>= λ done.
    ok (done.0, done.1, install done.0 gate)

module _ (lib : SignatureLibrary) where
  -- `import_signed`, up to its commit. The table checks `valid_from < valid_until`.
  unfoldable pub commit_import :
      Actor
      → Option lib.VerifyingKey
      → SignedLicenseFile
      → ℕ
      → LicenseDb
      → Result AppError (LicenseSnapshot × LicenseDb)
  unfolding license_of write_license
  commit_import actor key file now db = do
    guard (has_role actor Role.institution_admin || has_role actor Role.platform_licensing_admin)
        forbidden
    public_key ← ok_or key (validation "this deployment does not accept signed license imports")
    old ← license_of actor.institution_id db
    claims ← verify_signed_license lib file public_key old.deployment_id now
    guard (claims.institution_id == old.institution_id)
        (validation "license is for a different institution")
    guard (ltb claims.valid_from claims.valid_until) database
    ok (
      try_from (with_claims claims old),
      write_license actor "license.imported" old (with_claims claims old) db,
    )

  unfoldable pub import_signed :
      Actor
      → Option lib.VerifyingKey
      → SignedLicenseFile
      → ℕ
      → LicenseDb
      → LicenseSnapshot
      → Result AppError (LicenseSnapshot × LicenseDb × LicenseSnapshot)
  unfolding commit_import install
  import_signed actor key file now db gate =
      commit_import actor key file now db >>= λ done. ok (done.0, done.1, install done.0 gate)
