-- ===== src/Licensing/Signed.antt =====
-- backend/src/licensing/signed_license.rs: the verification of a signed license file.
use ubedtech.Prelude.{
  ℕ, String, ◌≤◌, ◌<◌, ◌≡◌, Bool, true, ◌||◌, not, Option, some, List, arith, leb, ltb, ◌==◌,
  Option-cases, inl, inr,
}
use ubedtech.Shared.Error.{Result, ok, ◌>>=◌, ◌>>◌, guard, ok_or, AppError, validation}
use ubedtech.Licensing.State.{LicenseClaims, SignedLicenseFile}

-- The libraries that a file is verified with: hexadecimal, Ed25519 and JSON.
pub record SignatureLibrary : Type 1 where
  pub VerifyingKey : Type 0
  pub Signature : Type 0
  pub hex_decode : String → Option (List ℕ)
  pub from_slice : List ℕ → Option Signature
  pub verify : VerifyingKey → String → Signature → Bool
  pub from_str : String → Option LicenseClaims

module _ (lib : SignatureLibrary) where
  unfoldable pub verify_signed_license :
      SignedLicenseFile → lib.VerifyingKey → ℕ → ℕ → Result AppError LicenseClaims
  verify_signed_license file public_key expected_deployment_id now = do
    guard (file.format == 1) (validation "unsupported license file format")
    signature_bytes ←
        ok_or (lib.hex_decode file.signature_hex) (validation "invalid license signature encoding")
    signature ← ok_or (lib.from_slice signature_bytes) (validation "invalid license signature")
    guard (lib.verify public_key file.claims_json signature)
        (validation "license signature verification failed")
    claims ← ok_or (lib.from_str file.claims_json) (validation "malformed license claims")
    guard (claims.deployment_id == expected_deployment_id)
        (validation "license is for a different deployment")
    guard (not (ltb now claims.valid_from || leb claims.valid_until now))
        (validation "license is outside its validity window")
    ok claims

  -- Claims are accepted only from a file whose very text the key has signed, for this deployment,
  -- inside their window.
  pub verify_signed_license_lem :
      (file : SignedLicenseFile) (public_key : lib.VerifyingKey) (deployment_id now : ℕ)
      (claims : LicenseClaims)
      → verify_signed_license file public_key deployment_id now ≡ ok claims
      → (bytes : List ℕ) × (signature : lib.Signature) × (lib.hex_decode file.signature_hex
          ≡ some bytes)
        × (lib.from_slice bytes ≡ some signature)
        × (lib.verify public_key file.claims_json signature ≡ true)
        × (lib.from_str file.claims_json ≡ some claims)
        × (claims.deployment_id ≡ deployment_id)
        × (claims.valid_from ≤ now)
        × (now < claims.valid_until)
  unfolding verify_signed_license
  verify_signed_license_lem file public_key deployment_id now claims h =
      elim (Option-cases (lib.hex_decode file.signature_hex)) [
        | inl bad ↦ absurd (ground arith)
        | inr (bytes, e) ↦ elim (Option-cases (lib.from_slice bytes)) [
          | inl bad ↦ absurd (ground arith)
          | inr (signature, q) ↦ (
            bytes,
            signature,
            e,
            q,
            ground arith,
            ground arith,
            ground arith,
            ground arith,
            ground arith,
          )
        ]
      ]
