-- ===== src/Identity/Accounts/Examples.antt =====
-- An institution with an administrator and a student, and the theorems on accounts at them.
use Prim.Native.String.{len}
use text.Mathlib.Text.{◌==◌ as str_eq}
use ubedtech.Prelude.{
  ◌+◌, ◌<◌, ◌≡◌, ◌≢◌, refl, false, ◌||◌, none, some, [], ◌∷◌, ◌==◌, if◌then◌else◌, find_where,
  upsert,
}
use ubedtech.Shared.Actor.{has_role, Actor, Role, role_eq}
use ubedtech.Shared.Text.{is_blank}
use ubedtech.Shared.Error.{ok, err, forbidden}
use ubedtech.Identity.Sessions.{
  Account, UserStatus, UserSession, ResolvedSession, is_resolvable, from_code, roles_of, resolve,
  resolve_hash, resolve_row, resolved, new_session, create_session,
}
use ubedtech.Identity.Throttle.{throttled}
use ubedtech.Identity.Accounts.{
  AuthDb, AuthLibrary, AuthEnv, with_sessions, target_account, bump_and_revoke, suspended_account,
  suspend_user, check_role_change, role_code, holds_code, finish_role_change, assign_role,
  open_session,
}
use ubedtech.Identity.Accounts.Actors.{resolve-held_roles}
use ubedtech.Identity.Accounts.Login.{
  AuthService, login, candidate, password_ok, finish_login, cleared_login,
}
use ubedtech.Identity.Accounts.History.{account_at}
use ubedtech.Identity.Accounts.Runs.{here, logged_in, role_granted}
use ubedtech.Identity.Accounts.Renewal
use ubedtech.Identity.Accounts.Revocation.{suspend_user-resolve, Attends-resolve}
use ubedtech.Identity.Accounts.Roles.{held_roles, assign_role-held_roles, Attends-platform}

-- Stand for the digest and for Argon2.
abbrev lib : AuthLibrary
lib = record {
  sha256 = λ token. len token;
  to_lowercase = λ name. name;
  verify = λ stored password. some (str_eq stored password);
  hash = λ salt password. some password;
}

abbrev admin : Actor
admin = record {
  user_id = 9;
  institution_id = 1;
  student_id = none;
  roles = Role.institution_admin ∷ [];
}

abbrev eva : Account
eva = record {
  institution_id = 1;
  status = UserStatus.active;
  session_version = 3;
  student_id = some 42;
  role_codes = "student" ∷ [];
}

abbrev start : AuthDb
start = record {
  sessions = record { user_account = λ u. if u == 7 then some eva else none; user_session = [] };
  username = λ institution name. if str_eq name "eva" then some 7 else none;
  password_credential = λ u. if u == 7 then some "secret" else none;
  login_throttle = [];
  audit_event = [];
}

abbrev env : AuthEnv
env = record {
  session = record { now = 1000; new_id = 50; locked = false };
  tx_now = 1000;
  token = "token";
  csrf_token = "csrf";
  salt = 0;
}

abbrev service : AuthService
service = record {
  session_service = record { idle = 1800; absolute = 36000 };
  dummy_hash = "dummy";
  max_failures = 5;
  window_secs = 900;
}

abbrev granted : AuthDb
granted =
    finish_role_change env admin 7 "identity.role_granted" eva ("instructor" ∷ "student" ∷ []) start

grants : assign_role env admin 7 Role.instructor start ≡ ok granted
unfolding assign_role check_role_change target_account role_code holds_code
grants = refl

abbrev lecturer : Account
lecturer = record eva { session_version = 4; role_codes = "instructor" ∷ "student" ∷ [] }

-- The role of the platform is out of the administrator's reach.
keeps_platform : assign_role env admin 7 Role.platform_licensing_admin start ≡ err forbidden
unfolding assign_role check_role_change
keeps_platform = refl

assign_role-held_roles_example :
    (old new : Account) × (account_at 7 start ≡ some old)
    × (account_at 7 granted ≡ some new)
    × ((other : Role)
        → held_roles new other ≡ (role_eq Role.instructor other || held_roles old other))
    × (new.session_version
        ≡ (if held_roles old Role.instructor then old.session_version else old.session_version + 1))
assign_role-held_roles_example =
    assign_role-held_roles env admin 7 Role.instructor start granted grants

Attends-platform_example :
    held_roles lecturer Role.platform_licensing_admin ≡ held_roles eva Role.platform_licensing_admin
unfolding finish_role_change bump_and_revoke
Attends-platform_example =
    Attends-platform lib 7 eva lecturer start granted
      (role_granted env admin 7 Role.instructor here grants) refl refl

-- After the change of her roles, Eva logs in again; the session has the new version.
abbrev after_login : AuthDb
after_login = (login lib service env 1 "eva" "secret" "10.0.0.1" granted granted).1

abbrev again : UserSession
again = record {
  id = 50;
  institution_id = 1;
  user_id = 7;
  session_version = 4;
  token_hash = 5;
  csrf_secret_hash = 4;
  csrf_secret = some "csrf";
  expires_at = 37000;
  idle_expires_at = 2800;
  last_seen_at = 1000;
  revoked_at = none;
}

abbrev seen : ResolvedSession
seen = resolved again lecturer (Role.instructor ∷ Role.student ∷ [])

is_seen :
    resolve lib.sha256 service.session_service env.session "token" after_login.sessions
    ≡ ok (some seen, after_login.sessions)
unfolding login candidate password_ok finish_login cleared_login open_session create_session
    new_session throttled resolve resolve_hash resolve_row roles_of from_code resolved
    finish_role_change bump_and_revoke
is_seen = refl

is_new : held_roles eva Role.instructor ≡ false
unfolding held_roles holds_code role_code
is_new = refl

Attends-resolve_example :
    (s : UserSession) × (find_where
        (is_resolvable (lib.sha256 "token"))
        after_login.sessions.user_session
      ≡ some s)
    × (s.user_id ≡ 7)
    × (3 < s.session_version)
unfolding resolved
Attends-resolve_example =
    Attends-resolve lib 7 eva start granted after_login service.session_service env.session "token"
      seen after_login.sessions refl (Renewal.granted env admin Role.instructor is_new grants)
      (logged_in granted service env 1 "eva" "secret" "10.0.0.1" here) is_seen refl

-- The administrator suspends another account, and Eva, who was given a role, still gets in.
abbrev ben : Account
ben = record eva { student_id = some 43 }

abbrev with_ben : AuthDb
with_ben =
    with_sessions
      (record { user_account = upsert 8 ben granted.sessions.user_account; user_session = [] })
      granted

abbrev suspended : AuthDb
suspended = suspended_account admin 1000 8 ben with_ben

suspends : suspend_user env admin 8 "fees" with_ben ≡ ok suspended
unfolding suspend_user target_account is_blank
suspends = refl

abbrev eva_in : AuthDb
eva_in = (login lib service env 1 "eva" "secret" "10.0.0.1" suspended suspended).1

eva_seen :
    resolve lib.sha256 service.session_service env.session "token" eva_in.sessions
    ≡ ok (some seen, eva_in.sessions)
unfolding login candidate password_ok finish_login cleared_login open_session create_session
    new_session throttled resolve resolve_hash resolve_row roles_of from_code resolved
    finish_role_change bump_and_revoke suspended_account
eva_seen = refl

suspend_user-resolve_example : seen.actor.user_id ≢ 8
suspend_user-resolve_example =
    suspend_user-resolve lib env admin 8 "fees" with_ben suspended eva_in service.session_service
      env.session "token" seen eva_in.sessions suspends
      (logged_in suspended service env 1 "eva" "secret" "10.0.0.1" here) eva_seen

-- With the new role Eva is an instructor to the policies.
resolve-held_roles_example :
    (account : Account) × (after_login.sessions.user_account 7 ≡ some account)
    × (has_role seen.actor Role.instructor ≡ held_roles account Role.instructor)
unfolding resolved
resolve-held_roles_example =
    resolve-held_roles lib.sha256 service.session_service env.session "token" after_login.sessions
      after_login.sessions seen Role.instructor is_seen
