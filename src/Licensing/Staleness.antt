-- ===== src/Licensing/Staleness.antt =====
-- The gate against the database, when the changes of a license run concurrently
-- (backend/src/licensing/service.rs): a commit and the replacement of the gate's snapshot that
-- follows it are two steps, and those of other requests may come between them.
use ubedtech.Prelude.{
  ℕ, String, ◌+◌, ◌≤◌, ◌≡◌, refl, Option, some, arith, ◌==◌, Option-cases, Bool-cases, inl, inr,
  upsert,
}
use ubedtech.Shared.Actor.{Actor}
use ubedtech.Shared.Error.{ok}
use ubedtech.Licensing.State.{
  LicenseStatus, LicenseRow, LicenseDb, LicenseSnapshot, SignedLicenseFile,
}
use ubedtech.Licensing.Signed.{SignatureLibrary}
use ubedtech.Licensing.Service.{
  try_from, license_of, with_status, with_claims, write_license, commit_status, install,
  commit_import,
}
use ubedtech.Licensing.Recovery.{commit_import_inv}

pub record LicenseSystem : Type 0 where
  pub db : LicenseDb
  pub gate : LicenseSnapshot

-- The snapshot agrees with the row in all that the gate decides by.
pub record Agrees (snapshot : LicenseSnapshot) (row : LicenseRow) : Type 0 where
  pub status_agrees : snapshot.status ≡ row.status
  pub from_agrees : snapshot.valid_from ≡ row.valid_from
  pub until_agrees : snapshot.valid_until ≡ row.valid_until

-- The snapshot is of the current version of its institution's row, or of an older one.
pub record IsBehind (db : LicenseDb) (snapshot : LicenseSnapshot) : Type 0 where
  pub version_le :
      (row : LicenseRow)
      → db.institution_license snapshot.institution_id ≡ some row
      → snapshot.version ≤ row.version
  pub agrees :
      (row : LicenseRow)
      → db.institution_license snapshot.institution_id ≡ some row
      → snapshot.version ≡ row.version
      → Agrees snapshot row

module _ (lib : SignatureLibrary) where
  pub data Commits (db : LicenseDb) : LicenseSnapshot × LicenseDb → Type 0 where
    by_status :
        (actor : Actor) (institution_id : ℕ) (new_status : LicenseStatus) (reason : String)
        (before : LicenseDb) (out : LicenseSnapshot × LicenseDb)
        → commit_status actor institution_id new_status reason before db ≡ ok out
        → Commits db out
    by_import :
        (actor : Actor) (key : Option lib.VerifyingKey) (file : SignedLicenseFile) (now : ℕ)
        (out : LicenseSnapshot × LicenseDb)
        → commit_import lib actor key file now db ≡ ok out
        → Commits db out

  -- Either way, one row is there and gets the next version, and the snapshot is of it.
  Commits-inv :
      (db : LicenseDb) (out : LicenseSnapshot × LicenseDb)
      → Commits db out
      → (row updated : LicenseRow) × (db.institution_license updated.institution_id ≡ some row)
        × (updated.version ≡ row.version + 1)
        × (out.0 ≡ try_from updated)
        × (out.1.institution_license ≡ upsert updated.institution_id updated db.institution_license)
  unfolding commit_status license_of write_license
  Commits-inv db _ (by_status actor institution_id new_status reason before out h) =
      elim (Option-cases (db.institution_license institution_id)) [
        | inl missing ↦ absurd (ground arith)
        | inr (row, e) ↦ (
          row,
          with_status new_status (record row { institution_id = institution_id }),
          e,
          refl,
          ground arith,
          ground arith,
        )
      ]
  Commits-inv db _ (by_import actor key file now out h) =
      elim (Option-cases (db.institution_license actor.institution_id)) [
        | inl missing ↦
            let (public_key, old, claims, at, verified, inst, made, wrote, same) =
              commit_import_inv lib actor key file now db out h in
            absurd (ground arith)
        | inr (row, e) ↦
            let (public_key, old, claims, at, verified, inst, made, wrote, same) =
              commit_import_inv lib actor key file now db out h in
            (row, with_claims claims old, ground arith, ground arith, made, ground arith)
      ]

  Commits-IsBehind :
      (db : LicenseDb) (out : LicenseSnapshot × LicenseDb) → Commits db out → IsBehind out.1 out.0
  Commits-IsBehind db out c =
      let (row, updated, there, next, made, wrote) = Commits-inv db out c in
      record {
        version_le = λ r e. ground arith;
        agrees = λ r e k. record {
          status_agrees = ground arith;
          from_agrees = ground arith;
          until_agrees = ground arith;
        };
      }

  Commits-IsBehind_other :
      (db : LicenseDb) (out : LicenseSnapshot × LicenseDb) (snapshot : LicenseSnapshot)
      → Commits db out
      → IsBehind db snapshot
      → IsBehind out.1 snapshot
  Commits-IsBehind_other db out snapshot c b =
      let (row, updated, there, next, made, wrote) = Commits-inv db out c in
      elim (Bool-cases (snapshot.institution_id == updated.institution_id)) [
        | inl same ↦
            let older = b.version_le row (ground arith) in
            record { version_le = λ r e. ground arith; agrees = λ r e k. absurd (ground arith) }
        | inr other ↦ record {
          version_le = λ r e. b.version_le r (ground arith);
          agrees = λ r e k. b.agrees r (ground arith) k;
        }
      ]

  -- `Changes s d`: the state `d` of database and gate follows from `s`. What a request committed at
  -- an earlier state `b` reaches the gate at whatever state `a` it then finds.
  pub data Changes : LicenseSystem → LicenseSystem → Type 0 where
    here : {s : LicenseSystem} → Changes s s
    committed :
        {s a : LicenseSystem} (out : LicenseSnapshot × LicenseDb)
        → Changes s a
        → Commits a.db out
        → Changes s (record a { db = out.1 })
    installed :
        {s b a : LicenseSystem} (out : LicenseSnapshot × LicenseDb)
        → Changes s b
        → Commits b.db out
        → Changes (record b { db = out.1 }) a
        → Changes s (record a { gate = install out.0 a.gate })

  Changes-IsBehind_other :
      {s d : LicenseSystem} (snapshot : LicenseSnapshot)
      → Changes s d
      → IsBehind s.db snapshot
      → IsBehind d.db snapshot
  Changes-IsBehind_other snapshot here b = b
  Changes-IsBehind_other snapshot (committed {a = a} out r c) b =
      Commits-IsBehind_other a.db out snapshot c (Changes-IsBehind_other snapshot r b)
  Changes-IsBehind_other snapshot (installed {b = b'} {a = a} out r c q) b =
      Changes-IsBehind_other snapshot q
        (Commits-IsBehind_other b'.db out snapshot c (Changes-IsBehind_other snapshot r b))

  -- Under any interleaving of license changes the gate is never ahead of the database: it holds the
  -- current version of the license or an older one, and where it holds the current version it
  -- agrees with the row in status and window.
  pub Changes-IsBehind :
      {s d : LicenseSystem} → IsBehind s.db s.gate → Changes s d → IsBehind d.db d.gate
  unfolding install
  Changes-IsBehind b here = b
  Changes-IsBehind b (committed {a = a} out r c) =
      Commits-IsBehind_other a.db out a.gate c (Changes-IsBehind b r)
  Changes-IsBehind b (installed {b = b'} {a = a} out r c q) =
      elim (Bool-cases (a.gate.institution_id == out.0.institution_id)) [
        | inl own ↦ rw own (Changes-IsBehind_other out.0 q (Commits-IsBehind b'.db out c))
        | inr other ↦
            let before = Changes-IsBehind b r in
            rw other (Changes-IsBehind (Commits-IsBehind_other b'.db out b'.gate c before) q)
      ]
