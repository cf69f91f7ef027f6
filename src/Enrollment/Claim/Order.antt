-- ===== src/Enrollment/Claim/Order.antt =====
-- What a claim of an override finds.
use mathlib.Core.Path.{subst}
use mathlib.Core.List.{Memᴰ}
use ubedtech.Prelude.{
  ℕ, ◌≡◌, refl, Bool, true, false, ◌&&◌, not, none, some, List, [], ◌∷◌, arith, exists_where,
  contains, Option-cases, Bool-cases, inl, inr,
}
use ubedtech.Enrollment.State.{Db, Env, RegistrationOverride}
use ubedtech.Enrollment.Claim.{ClaimKey, usable, comes_before, first_claimable, claim_override}

-- The `WHERE` of the claim and its `SKIP LOCKED`.
abbrev pub claimable : ℕ → List ℕ → ClaimKey → RegistrationOverride → Bool
claimable tx_now locked k o = usable tx_now k o && not (contains o.id locked)

comes_before_asymm :
    (a b : RegistrationOverride) → comes_before a b ≡ true → comes_before b a ≡ false
unfolding comes_before
comes_before_asymm a b h = ground arith

-- The order is total up to ties, so what does not precede can be chained.
comes_before_negtrans :
    (x b o : RegistrationOverride)
    → comes_before x b ≡ false
    → comes_before b o ≡ false
    → comes_before x o ≡ false
unfolding comes_before
comes_before_negtrans x b o h k = ground arith

comes_before_pick :
    (x b o : RegistrationOverride)
    → comes_before b o ≡ true
    → comes_before x b ≡ false
    → comes_before o b ≡ false
comes_before_pick x b o h k = comes_before_asymm b o h

module _ (tx_now : ℕ) (locked : List ℕ) (k : ClaimKey) where
  -- A row that nothing in a list precedes is preceded by nothing from where a later one stands.
  not_before :
      (b o : RegistrationOverride) (rows : List RegistrationOverride)
      → exists_where (λ x. claimable tx_now locked k x && comes_before x b) rows ≡ false
      → comes_before b o ≡ false
      → exists_where (λ x. claimable tx_now locked k x && comes_before x o) rows ≡ false
  not_before b o [] h e = refl
  not_before b o (x ∷ xs) h e = ground (arith, not_before b o xs, comes_before_negtrans x b o)

  first_claimable-none :
      (rows : List RegistrationOverride)
      → first_claimable tx_now locked k rows ≡ none
      → exists_where (claimable tx_now locked k) rows ≡ false
  unfolding first_claimable
  first_claimable-none [] h = refl
  first_claimable-none (o ∷ os) h = ground (arith, first_claimable-none os)

  exists_weaken :
      (o : RegistrationOverride) (rows : List RegistrationOverride)
      → exists_where (claimable tx_now locked k) rows ≡ false
      → exists_where (λ x. claimable tx_now locked k x && comes_before x o) rows ≡ false
  exists_weaken o [] h = refl
  exists_weaken o (x ∷ xs) h = ground (arith, exists_weaken o xs)

  comes_before_irrefl : (o : RegistrationOverride) → comes_before o o ≡ false
  unfolding comes_before
  comes_before_irrefl o = ground arith

  abbrev IsFirst : RegistrationOverride → List RegistrationOverride → Type 0
  IsFirst o rows =
      Memᴰ o rows
      × (claimable tx_now locked k o ≡ true)
      × (exists_where (λ x. claimable tx_now locked k x && comes_before x o) rows ≡ false)

  first_claimable_lem :
      (rows : List RegistrationOverride) (o : RegistrationOverride)
      → first_claimable tx_now locked k rows ≡ some o
      → IsFirst o rows
  unfolding first_claimable
  first_claimable_lem [] o h = absurd (cc)
  first_claimable_lem (r ∷ rs) o h = elim (Bool-cases (claimable tx_now locked k r)) [
    | inr skip ↦
        let (m, c, b) = first_claimable_lem rs o (ground arith) in (Memᴰ.tail m, c, ground arith)
    | inl take ↦ elim (Option-cases (first_claimable tx_now locked k rs)) [
      | inl alone ↦ (
        Memᴰ.head (ground arith),
        ground arith,
        ground (arith, comes_before_irrefl r, exists_weaken r rs (first_claimable-none rs alone)),
      )
      | inr (best, e) ↦
          let (m, c, b) = first_claimable_lem rs best e in
          elim (Bool-cases (comes_before best r)) [
            | inl better ↦
                let same : best ≡ o = ground arith in
                subst (λ x. IsFirst x (r ∷ rs)) same
                  (Memᴰ.tail m, c, ground (arith, comes_before_asymm best r better))
            | inr worse ↦
                let same : r ≡ o = ground arith in
                subst (λ x. IsFirst x (r ∷ rs)) same
                  (
                    Memᴰ.head refl,
                    ground arith,
                    ground (arith, comes_before_irrefl r, not_before best r rs b worse),
                  )
          ]
    ]
  ]

-- A claim returns a row of the table that is usable for the rule, the student, the term and the
-- section, unconsumed and unexpired, that no other transaction has locked, and that no other such
-- row precedes: one for the section goes before one for the term, and an older before a newer. It
-- returns none only where no such row is there.
pub claim_override_lem :
    (env : Env) (k : ClaimKey) (db : Db)
    → ((id : ℕ)
        → claim_override env k db ≡ some id
        → (o : RegistrationOverride) × (o.id ≡ id)
          × Memᴰ o db.registration_override
          × (claimable env.tx_now env.locked k o ≡ true)
          × (exists_where
                (λ x. claimable env.tx_now env.locked k x && comes_before x o)
                db.registration_override
              ≡ false))
      × (claim_override env k db ≡ none
          → exists_where (claimable env.tx_now env.locked k) db.registration_override ≡ false)
unfolding claim_override
claim_override_lem env k db = (
  λ id h. elim (Option-cases (first_claimable env.tx_now env.locked k db.registration_override)) [
    | inl nothing ↦ absurd (ground arith)
    | inr (o, e) ↦
        let (m, c, b) = first_claimable_lem env.tx_now env.locked k db.registration_override o e in
        (o, ground arith, m, c, b)
  ],
  λ h. first_claimable-none env.tx_now env.locked k db.registration_override (ground arith),
)
