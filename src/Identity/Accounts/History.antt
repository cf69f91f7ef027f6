-- ===== src/Identity/Accounts/History.antt =====
-- What the operations of backend/src/identity_access/service.rs never take back of an account.
use Prim.Native.String.{String}
use mathlib.Core.Path.{subst}
use ubedtech.Prelude.{
  ℕ, ◌+◌, ◌≤◌, ◌≡◌, ◌∙◌, ap, refl, true, false, Option, none, some, List, ◌∷◌, arith, ◌==◌, upsert,
  Option-cases, Bool-cases, inl, inr,
}
use ubedtech.Shared.Actor.{Actor, Role}
use ubedtech.Shared.Error.{ok, Result-cases}
use ubedtech.Identity.Sessions.{Account, UserStatus, has_active_status}
use ubedtech.Identity.Accounts.{
  AuthDb, AuthEnv, target_account, bump_and_revoke, suspended_account, suspend_user,
  check_role_change, role_code, holds_code, remove_code, finish_role_change, assign_role,
  revoke_role, assignable_by_institution_admin, replace_credential_and_revoke,
}
use ubedtech.Identity.Accounts.Codes.{platform_code, holds_code-add, holds_code-remove}

abbrev pub account_at : ℕ → AuthDb → Option Account
account_at user_id db = db.sessions.user_account user_id

-- An account later on: its version has not fallen, it has not become active again, and it holds the
-- role of the platform if and only if it did.
pub record Follows (old new : Account) : Type 0 where
  pub version_le : old.session_version ≤ new.session_version
  pub stays_closed : has_active_status old ≡ false → has_active_status new ≡ false
  pub platform_same :
      holds_code platform_code new.role_codes ≡ holds_code platform_code old.role_codes

Follows-refl : (account : Account) → Follows account account
Follows-refl account = record {
  version_le = omega arith;
  stays_closed = λ h. h;
  platform_same = refl;
}

Follows-trans : (a b c : Account) → Follows a b → Follows b c → Follows a c
Follows-trans a b c f g = record {
  version_le = omega (arith, f.version_le, g.version_le);
  stays_closed = λ h. g.stays_closed (f.stays_closed h);
  platform_same = g.platform_same ∙ f.platform_same;
}

pub record Preserves (a d : AuthDb) : Type 0 where
  pub follows :
      (user_id : ℕ) (old : Account)
      → account_at user_id a ≡ some old
      → (new : Account) × (account_at user_id d ≡ some new) × Follows old new

or_else : Option Account → Account → Account
or_else none d = d
or_else (some x) d = x

some_injective : {x y : Account} → some x ≡ some y → x ≡ y
unfolding or_else
some_injective {x = x} e = ap (λ o. or_else o x) e

pub Preserves-refl : (a : AuthDb) → Preserves a a
Preserves-refl a = record { follows = λ user_id old e. (old, e, Follows-refl old) }

pub Preserves-trans : (a b c : AuthDb) → Preserves a b → Preserves b c → Preserves a c
Preserves-trans a b c k l = record {
  follows = λ user_id old e.
      let (mid, at, f) = k.follows user_id old e in
      let (new, at', g) = l.follows user_id mid at in (new, at', Follows-trans old mid new f g);
}

pub Preserves-same :
    (a d : AuthDb) → d.sessions.user_account ≡ a.sessions.user_account → Preserves a d
Preserves-same a d same = record { follows = λ user_id old e. (old, rw same e, Follows-refl old) }

-- One account is replaced by one that follows it.
upsert-Preserves :
    (a d : AuthDb) (user_id : ℕ) (old new : Account)
    → account_at user_id a ≡ some old
    → Follows old new
    → d.sessions.user_account ≡ upsert user_id new a.sessions.user_account
    → Preserves a d
upsert-Preserves a d user_id old new e f wrote = record {
  follows = λ id other at. elim (Bool-cases (id == user_id)) [
    | inl own ↦
        let one : some old ≡ some other = ground arith in
        (new, ground arith, subst (λ (x : Account). Follows x new) (some_injective one) f)
    | inr not_own ↦ (other, ground arith, Follows-refl other)
  ];
}

pub target_account_found :
    (target institution_id : ℕ) (db : AuthDb) (account : Account)
    → target_account target institution_id db ≡ ok account
    → account_at target db ≡ some account
unfolding target_account
target_account_found target institution_id db account h =
    elim (Option-cases (account_at target db)) [
      | inl missing ↦ absurd (ground arith)
      | inr (found, e) ↦ ground arith
    ]

pub suspend_user-Preserves :
    (env : AuthEnv) (actor : Actor) (target : ℕ) (reason : String) (db d : AuthDb)
    → suspend_user env actor target reason db ≡ ok d
    → Preserves db d
unfolding suspend_user suspended_account bump_and_revoke
suspend_user-Preserves env actor target reason db d h =
    elim (Result-cases (target_account target actor.institution_id db)) [
      | inr (e, missing) ↦ absurd (ground arith)
      | inl (account, found) ↦
          upsert-Preserves db d target account
            (record account {
              status = UserStatus.suspended;
              session_version = account.session_version + 1;
            })
            (target_account_found target actor.institution_id db account found)
            (record { version_le = omega arith; stays_closed = λ k. refl; platform_same = refl })
            (ground arith)
    ]

finish_role_change-Preserves :
    (env : AuthEnv) (actor : Actor) (target : ℕ) (action : String) (account : Account)
    (codes : List String) (db : AuthDb)
    → account_at target db ≡ some account
    → holds_code platform_code codes ≡ holds_code platform_code account.role_codes
    → Preserves db (finish_role_change env actor target action account codes db)
unfolding finish_role_change bump_and_revoke
finish_role_change-Preserves env actor target action account codes db found same =
    upsert-Preserves db (finish_role_change env actor target action account codes db) target account
      (record account { role_codes = codes; session_version = account.session_version + 1 }) found
      (record { version_le = omega arith; stays_closed = λ k. k; platform_same = same }) refl

check_role_change_inv :
    (actor : Actor) (target : ℕ) (role : Role) (db : AuthDb) (account : Account)
    → check_role_change actor target role db ≡ ok account
    → (assignable_by_institution_admin role ≡ true) × (account_at target db ≡ some account)
unfolding check_role_change
check_role_change_inv actor target role db account h =
    let found : target_account target actor.institution_id db ≡ ok account = ground arith in
    (ground arith, target_account_found target actor.institution_id db account found)

pub assign_role-Preserves :
    (env : AuthEnv) (actor : Actor) (target : ℕ) (role : Role) (db d : AuthDb)
    → assign_role env actor target role db ≡ ok d
    → Preserves db d
unfolding assign_role
assign_role-Preserves env actor target role db d h =
    elim (Result-cases (check_role_change actor target role db)) [
      | inr (e, refused) ↦ absurd (ground arith)
      | inl (account, passed) ↦
          let (assignable, found) = check_role_change_inv actor target role db account passed in
          elim (Bool-cases (holds_code (role_code role) account.role_codes)) [
            | inl held ↦ subst (Preserves db) (ground arith) (Preserves-refl db)
            | inr new ↦ subst (Preserves db) (ground arith) (
                finish_role_change-Preserves env actor target "identity.role_granted" account
                  (role_code role ∷ account.role_codes) db found
                  (holds_code-add role account.role_codes assignable))
          ]
    ]

pub revoke_role-Preserves :
    (env : AuthEnv) (actor : Actor) (target : ℕ) (role : Role) (db d : AuthDb)
    → revoke_role env actor target role db ≡ ok d
    → Preserves db d
unfolding revoke_role
revoke_role-Preserves env actor target role db d h =
    elim (Result-cases (check_role_change actor target role db)) [
      | inr (e, refused) ↦ absurd (ground arith)
      | inl (account, passed) ↦
          let (assignable, found) = check_role_change_inv actor target role db account passed in
          elim (Bool-cases (holds_code (role_code role) account.role_codes)) [
            | inr not_held ↦ subst (Preserves db) (ground arith) (Preserves-refl db)
            | inl held ↦ subst (Preserves db) (ground arith) (
                finish_role_change-Preserves env actor target "identity.role_revoked" account
                  (remove_code (role_code role) account.role_codes) db found
                  (holds_code-remove role account.role_codes assignable))
          ]
    ]

pub replace_credential-Preserves :
    (env : AuthEnv) (target institution_id acting : ℕ) (new_hash action : String) (db : AuthDb)
    (out : ℕ × AuthDb)
    → replace_credential_and_revoke env target institution_id acting new_hash action db ≡ ok out
    → Preserves db out.1
unfolding replace_credential_and_revoke bump_and_revoke
replace_credential-Preserves env target institution_id acting new_hash action db out h =
    elim (Option-cases (account_at target db)) [
      | inl missing ↦ absurd (ground arith)
      | inr (account, found) ↦
          upsert-Preserves db out.1 target account
            (record account { session_version = account.session_version + 1 }) found
            (record { version_le = omega arith; stays_closed = λ k. k; platform_same = refl })
            (ground arith)
    ]
