-- ===== src/Identity/Examples.antt =====
-- A session that is closed and a login that is tried too often, and the theorems at them.
use Prim.Native.String.{len}
use ubedtech.Prelude.{
  ℕ, String, ◌+◌, ◌≡◌, refl, false, Option, none, some, [], ◌∷◌, arith, leb, ◌==◌, if◌then◌else◌,
}
use ubedtech.Shared.Actor.{Role}
use ubedtech.Shared.Error.{ok}
use ubedtech.Identity.Sessions.{
  UserSession, UserStatus, Account, SessionDb, SessionEnv, SessionService, ResolvedSession,
  from_code, roles_of, resolve, resolve_hash, resolve_row, resolved, refresh, new_session,
  create_session,
}
use ubedtech.Identity.Lifetime.{here, visited, resolve-ended}
use ubedtech.Shared.Text.{strip_prefix, split_on}
use ubedtech.Identity.Csrf.{
  Method, CsrfRequest, passed, rejected, unsafe_method, is_form, find_token, form_token,
  presented_token, csrf_middleware, create_session-csrf_middleware,
}
use ubedtech.Identity.Throttle.{
  LoginThrottle, ThrottleKey, has_throttle_key, first_failure, record_failures, throttled,
  throttled-record_failures,
}

-- Stands for the digest.
abbrev digest : String → ℕ
digest token = len token

abbrev eva : Account
eva = record {
  institution_id = 1;
  status = UserStatus.active;
  session_version = 3;
  student_id = some 42;
  role_codes = "student" ∷ [];
}

abbrev service : SessionService
service = record { idle = 1800; absolute = 36000 }

abbrev nobody_in : SessionDb
nobody_in = record { user_account = λ u. if u == 7 then some eva else none; user_session = [] }

abbrev env : SessionEnv
env = record { now = 1000; new_id = 50; locked = false }

abbrev session : UserSession
session = record {
  id = 50;
  institution_id = 1;
  user_id = 7;
  session_version = 3;
  token_hash = 5;
  csrf_secret_hash = 4;
  csrf_secret = some "csrf";
  expires_at = 37000;
  idle_expires_at = 2800;
  last_seen_at = 1000;
  revoked_at = none;
}

abbrev logged_in : SessionDb
logged_in = record nobody_in { user_session = session ∷ [] }

logs_in : create_session digest service env 7 1 3 "token" "csrf" nobody_in ≡ ok (50, logged_in)
unfolding create_session new_session
logs_in = refl

-- A visit after two minutes slides the idle deadline.
abbrev visit : SessionEnv
visit = record env { now = 1120 }

abbrev visited_db : SessionDb
visited_db = record nobody_in {
  user_session = record session { last_seen_at = 1120; idle_expires_at = 2920 } ∷ [];
}

visits :
    resolve digest service visit "token" logged_in
    ≡ ok (some (resolved session eva (Role.student ∷ [])), visited_db)
unfolding resolve resolve_hash resolve_row roles_of from_code refresh
visits = refl

-- Past the absolute deadline the token resolves to nobody, though the session was visited.
abbrev next_day : SessionEnv
next_day = record env { now = 40000 }

finds_nobody : resolve digest service next_day "token" visited_db ≡ ok (none, visited_db)
unfolding resolve resolve_hash resolve_row
finds_nobody = refl

abbrev found_nobody : Option ResolvedSession × SessionDb
found_nobody = (none, visited_db)

resolve-ended_example : found_nobody.0 ≡ none
resolve-ended_example =
    resolve-ended digest service 37000 next_day "token" found_nobody refl refl
      (visited visit "token" (some (resolved session eva (Role.student ∷ [])), visited_db) here
        visits)
      (ground arith) finds_nobody

abbrev key : ThrottleKey
key = record { institution_id = 1; username_lower = "eva"; client_ip = "10.0.0.1" }

abbrev tried_once : LoginThrottle
tried_once = first_failure key 100

throttled-record_failures_example :
    throttled 3 900 key 130 (record_failures 900 key (120 ∷ 110 ∷ []) (tried_once ∷ []))
    ≡ leb 3 (tried_once.failure_count + 2)
unfolding has_throttle_key
throttled-record_failures_example =
    throttled-record_failures 3 900 key (120 ∷ 110 ∷ []) (tried_once ∷ []) tried_once 130 refl
      (ground arith) (ground arith, (ground arith, tt)) (ground arith)

abbrev transfer : CsrfRequest
transfer = record {
  method = Method.post;
  path = "/api/v1/enrollments";
  csrf_header = none;
  content_type = some "application/x-www-form-urlencoded; charset=utf-8";
  body = some (some "section=5&csrf_token=csrf");
}

shows_token : presented_token transfer ≡ some (some "csrf")
unfolding presented_token form_token is_form find_token split_on strip_prefix
shows_token = refl

create_session-csrf_middleware_example :
    csrf_middleware digest transfer (some (resolved session eva (Role.student ∷ [])))
    ≡ (if digest "csrf" == digest "csrf" then passed else rejected)
unfolding unsafe_method
create_session-csrf_middleware_example =
    create_session-csrf_middleware digest service env visit 7 1 3 "token" "csrf" "csrf" nobody_in
      visited_db (50, logged_in) (resolved session eva (Role.student ∷ [])) transfer logs_in visits
      refl refl shows_token
