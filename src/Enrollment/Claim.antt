-- ===== src/Enrollment/Claim.antt =====
-- backend/src/enrollment/service.rs: `claim_override` and `stamp_overrides_consumed`.
pub mod Order
use ubedtech.Prelude.{
  ℕ, Bool, true, false, ◌&&◌, ◌||◌, not, Option, none, some, List, [], ◌∷◌, ltb, ◌==◌,
  if◌then◌else◌, is_none, contains, update_where,
}
use ubedtech.Shared.Error.{Result, ok, err}
use ubedtech.Enrollment.State.{
  OverrideType, override_type_eq, RegistrationOverride, Db, Env, Denial, EnrollError, denied,
}

-- `expires_at IS NULL OR expires_at > now()`
abbrev pub unexpired : ℕ → Option ℕ → Bool
unexpired tx_now none = true
unexpired tx_now (some at) = ltb tx_now at

-- `section_id IS NULL OR section_id = $4`
abbrev pub covers_section : Option ℕ → ℕ → Bool
covers_section none section_id = true
covers_section (some s) section_id = s == section_id

-- The `WHERE` of the claim.
pub record ClaimKey : Type 0 where
  pub institution_id : ℕ
  pub student_id : ℕ
  pub term_id : ℕ
  pub section_id : ℕ
  pub override_type : OverrideType

unfoldable pub usable : ℕ → ClaimKey → RegistrationOverride → Bool
usable tx_now k o =
    (o.institution_id == k.institution_id)
    && (o.student_id == k.student_id)
    && (o.term_id == k.term_id)
    && covers_section o.section_id k.section_id
    && override_type_eq o.override_type k.override_type
    && is_none o.consumed_at
    && unexpired tx_now o.expires_at

-- `ORDER BY section_id NULLS LAST, created_at`, read as: does the first row come strictly before
-- the second? Two section ids that pass the `WHERE` are equal, so the order of ids is never asked.
unfoldable pub comes_before : RegistrationOverride → RegistrationOverride → Bool
comes_before a b = elim a.section_id [
  | none ↦ is_none b.section_id && ltb a.created_at b.created_at
  | some s ↦ is_none b.section_id || ltb a.created_at b.created_at
]

-- `LIMIT 1` of the rows that pass, those that another transaction has locked skipped.
unfoldable pub first_claimable :
    ℕ → List ℕ → ClaimKey → List RegistrationOverride → Option RegistrationOverride
unfolding usable comes_before
first_claimable tx_now locked k [] = none
first_claimable tx_now locked k (o ∷ os) =
    let rest = first_claimable tx_now locked k os in
    if usable tx_now k o && not (contains o.id locked)
    then elim rest [ none ↦ some o | some b ↦ if comes_before b o then some b else some o ]
    else rest

unfoldable pub claim_override : Env → ClaimKey → Db → Option ℕ
unfolding first_claimable
claim_override env k db = elim (first_claimable env.tx_now env.locked k db.registration_override) [
  | none ↦ none
  | some o ↦ some o.id
]

-- The code that surrounds every claim: where a rule is broken, an override is claimed for it or
-- the operation is denied. The claimed ids are pushed on `consumed_override_ids`.
abbrev pub claim_if : Bool → Option ℕ → Denial → Result EnrollError (List ℕ)
claim_if false claim d = ok []
claim_if true (some override_id) d = ok (override_id ∷ [])
claim_if true none d = err (denied d)

-- `UPDATE registration_override SET consumed_at, consumed_by WHERE id = ANY($1)`
unfoldable pub stamp_overrides_consumed :
    ℕ → List ℕ → ℕ → List RegistrationOverride → List RegistrationOverride
stamp_overrides_consumed tx_now override_ids enrollment_id =
    update_where (λ o. contains o.id override_ids)
      (λ o. record o { consumed_at = some tx_now; consumed_by_enrollment_id = some enrollment_id })
