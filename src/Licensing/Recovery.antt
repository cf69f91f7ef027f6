-- ===== src/Licensing/Recovery.antt =====
-- What a change of the license does to the requests that come after it
-- (backend/src/licensing/service.rs, gate.rs).
use ubedtech.Prelude.{
  ℕ, String, ◌≤◌, ◌<◌, ◌≡◌, ◌≢◌, false, Option, some, arith, Option-cases, inl, inr,
}
use ubedtech.Shared.Actor.{Actor}
use ubedtech.Shared.Error.{ok, err, institution_locked, Result-cases}
use ubedtech.Licensing.State.{
  LicenseStatus, LicenseMode, LicenseRow, LicenseDb, LicenseSnapshot, LicenseClaims,
  SignedLicenseFile,
}
use ubedtech.Licensing.Gate.{is_active, require_deployment_active}
use ubedtech.Licensing.Signed.{SignatureLibrary, verify_signed_license, verify_signed_license_lem}
use ubedtech.Licensing.Service.{
  try_from, license_of, with_claims, write_license, commit_status, install, set_status,
  commit_import, import_signed,
}

module _ (lib : SignatureLibrary) where
  -- What a commit of an import has passed.
  pub commit_import_inv :
      (actor : Actor) (key : Option lib.VerifyingKey) (file : SignedLicenseFile) (now : ℕ)
      (db : LicenseDb) (out : LicenseSnapshot × LicenseDb)
      → commit_import lib actor key file now db ≡ ok out
      → (public_key : lib.VerifyingKey) × (old : LicenseRow) × (claims : LicenseClaims)
        × (license_of actor.institution_id db ≡ ok old)
        × (verify_signed_license lib file public_key old.deployment_id now ≡ ok claims)
        × (claims.institution_id ≡ actor.institution_id)
        × (out.0 ≡ try_from (with_claims claims old))
        × (out.1 ≡ write_license actor "license.imported" old (with_claims claims old) db)
        × (old.institution_id ≡ actor.institution_id)
  unfolding commit_import license_of
  commit_import_inv actor key file now db out h = elim (Option-cases key) [
    | inl without ↦ absurd (ground arith)
    | inr (public_key, e) ↦ elim (Result-cases (license_of actor.institution_id db)) [
      | inr (missing, q) ↦ absurd (ground arith)
      | inl (old, q) ↦
          elim (Result-cases (verify_signed_license lib file public_key old.deployment_id now)) [
            | inr (bad, k) ↦ absurd (ground arith)
            | inl (claims, k) ↦ (
              public_key,
              old,
              claims,
              q,
              k,
              ground arith,
              ground arith,
              ground arith,
              ground arith,
            )
          ]
    ]
  ]

  -- Recovery of a locked deployment: when an import at the gate's own institution succeeds, the gate
  -- is open from then on, for as long as the imported license lasts, whatever its state was before.
  pub import_signed-require_deployment_active :
      (actor : Actor) (key : Option lib.VerifyingKey) (file : SignedLicenseFile) (now later : ℕ)
      (db : LicenseDb) (gate snapshot : LicenseSnapshot) (d : LicenseDb) (gate' : LicenseSnapshot)
      → gate.institution_id ≡ actor.institution_id
      → import_signed lib actor key file now db gate ≡ ok (snapshot, d, gate')
      → now ≤ later
      → later < snapshot.valid_until
      → require_deployment_active gate' later ≡ ok tt
  unfolding import_signed install require_deployment_active
  import_signed-require_deployment_active actor key file now later db gate snapshot d gate' own h p
        q =
      elim (Result-cases (commit_import lib actor key file now db)) [
        | inr (e, k) ↦ absurd (ground arith)
        | inl (out, k) ↦
            let (public_key, old, claims, at, verified, inst, made, wrote, same) =
              commit_import_inv actor key file now db out k in
            let (bytes, signature, _, _, _, _, _, from, until) =
              verify_signed_license_lem lib file public_key old.deployment_id now claims verified in
            ground arith
      ]

-- The status of a self-hosted license is changed by signed files only: whoever asks, and for
-- whatever status, `set_status` refuses.
pub set_status-self_hosted :
    (actor : Actor) (institution_id : ℕ) (new_status : LicenseStatus) (reason : String)
    (before db : LicenseDb) (row : LicenseRow) (gate : LicenseSnapshot)
    (out : LicenseSnapshot × LicenseDb × LicenseSnapshot)
    → before.institution_license institution_id ≡ some row
    → row.mode ≡ LicenseMode.self_hosted
    → set_status actor institution_id new_status reason before db gate ≢ ok out
unfolding set_status commit_status license_of
set_status-self_hosted actor institution_id new_status reason before db row gate out at mode h =
    ground arith

-- A suspension locks at once: after it has returned, every request to the gate is refused, at any
-- time.
pub set_status-institution_locked :
    (actor : Actor) (institution_id now : ℕ) (new_status : LicenseStatus) (reason : String)
    (before db : LicenseDb) (gate snapshot : LicenseSnapshot) (d : LicenseDb)
    (gate' : LicenseSnapshot)
    → is_active new_status ≡ false
    → gate.institution_id ≡ institution_id
    → set_status actor institution_id new_status reason before db gate ≡ ok (snapshot, d, gate')
    → require_deployment_active gate' now ≡ err institution_locked
unfolding set_status commit_status license_of install require_deployment_active
set_status-institution_locked actor institution_id now new_status reason before db gate snapshot d
      gate' off own h =
    ground arith
