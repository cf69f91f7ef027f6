-- ===== src/Identity/Csrf.antt =====
-- backend/src/identity_access/csrf.rs: which requests the middleware hands on. A request is what the
-- middleware reads of it; the session is the one that the middleware before it has resolved.
use Prim.Native.String.{String}
use text.Mathlib.Text.{◌==◌ as str_eq}
use ubedtech.Prelude.{
  ap, ℕ, ◌≡◌, Bool, true, false, ◌||◌, not, Option, none, some, List, [], ◌∷◌, arith, ◌==◌,
  if◌then◌else◌, is_none, find_where,
}
use ubedtech.Shared.Text.{strip_prefix, split_on}
use ubedtech.Shared.Error.{ok}
use ubedtech.Identity.Sessions.{
  UserSession, SessionDb, SessionEnv, SessionService, ResolvedSession, is_resolvable,
  create_session, new_session, resolve, resolved,
}
use ubedtech.Identity.Sessions.Resolution.{resolve_inv}

pub data Method : Type 0 where
  get : Method
  head : Method
  options : Method
  post : Method
  put : Method
  patch : Method
  delete : Method
  other_method : Method

-- `csrf_header` is the value of the header x-csrf-token where it is text. A body that cannot be read
-- is `none`, and one that is not UTF-8 `some none`.
pub record CsrfRequest : Type 0 where
  pub method : Method
  pub path : String
  pub csrf_header : Option String
  pub content_type : Option String
  pub body : Option (Option String)

pub data CsrfOutcome : Type 0 where
  passed : CsrfOutcome
  rejected : CsrfOutcome
  unreadable : CsrfOutcome

unfoldable pub unsafe_method : Method → Bool
unsafe_method Method.post = true
unsafe_method Method.put = true
unsafe_method Method.patch = true
unsafe_method Method.delete = true
unsafe_method _ = false

abbrev pub is_exempt_path : String → Bool
is_exempt_path path = str_eq path "/api/v1/session/login" || str_eq path "/ui/login"

unfoldable pub is_form : Option String → Bool
unfolding strip_prefix
is_form none = false
is_form (some ct) = not (is_none (strip_prefix "application/x-www-form-urlencoded" ct))

-- `find_map(|pair| pair.strip_prefix("csrf_token="))`
unfoldable pub find_token : List String → Option String
unfolding strip_prefix
find_token [] = none
find_token (pair ∷ pairs) =
    let rest = find_token pairs in
    elim (strip_prefix "csrf_token=" pair) [ none ↦ rest | some token ↦ some token ]

abbrev pub ampersand : ℕ
ampersand = 38

-- `none` where the body cannot be read.
unfoldable pub form_token : CsrfRequest → Option (Option String)
unfolding is_form find_token split_on
form_token request =
    if is_form request.content_type
    then elim request.body [
      | none ↦ none
      | some none ↦ some none
      | some (some text) ↦ some (find_token (split_on ampersand text))
    ]
    else some none

unfoldable pub presented_token : CsrfRequest → Option (Option String)
unfolding form_token
presented_token request = elim request.csrf_header [
  | some token ↦ some (some token)
  | none ↦ form_token request
]

module _ (sha256 : String → ℕ) where
  abbrev pub compare_token : Option (Option String) → ResolvedSession → CsrfOutcome
  compare_token none current = unreadable
  compare_token (some none) current = rejected
  compare_token (some (some token)) current =
      if sha256 token == current.csrf_token_hash then passed else rejected

  unfoldable pub csrf_middleware : CsrfRequest → Option ResolvedSession → CsrfOutcome
  unfolding unsafe_method presented_token
  csrf_middleware request current =
      if not (unsafe_method request.method) || is_exempt_path request.path
      then passed
      else elim current [
        | none ↦ passed
        | some session ↦ compare_token (presented_token request) session
      ]

  -- The token of a new session resolves to that session.
  create_session_found :
      (service : SessionService) (env : SessionEnv) (user_id institution_id version : ℕ)
      (token csrf_token : String) (db : SessionDb) (out : ℕ × SessionDb)
      → create_session sha256 service env user_id institution_id version token csrf_token db
        ≡ ok out
      → find_where (is_resolvable (sha256 token)) out.1.user_session
        ≡ some (new_session sha256 service env user_id institution_id version token csrf_token)
  unfolding create_session new_session
  create_session_found service env user_id institution_id version token csrf_token db out h =
      ground arith

  resolve_csrf :
      (service : SessionService) (env : SessionEnv) (raw_token : String) (db after : SessionDb)
      (s : UserSession) (r : ResolvedSession)
      → find_where (is_resolvable (sha256 raw_token)) db.user_session ≡ some s
      → resolve sha256 service env raw_token db ≡ ok (some r, after)
      → r.csrf_token_hash ≡ s.csrf_secret_hash
  unfolding resolved
  resolve_csrf service env raw_token db after s r found h =
      let (t, account, roles, same, of, fresh, good, e) =
        resolve_inv sha256 service env raw_token db r after h in
      let hash : r.csrf_token_hash ≡ t.csrf_secret_hash =
        ap (λ (q : ResolvedSession). q.csrf_token_hash) e in
      ground arith

  -- A request that changes state, under a session that was just created, passes with a token of the
  -- same digest as the one that was made for the session, and with no other: in the header, or in a
  -- form where there is no such header.
  pub create_session-csrf_middleware :
      (service : SessionService) (env later : SessionEnv) (user_id institution_id version : ℕ)
      (token csrf_token presented : String) (db after : SessionDb) (out : ℕ × SessionDb)
      (r : ResolvedSession) (request : CsrfRequest)
      → create_session sha256 service env user_id institution_id version token csrf_token db
        ≡ ok out
      → resolve sha256 service later token out.1 ≡ ok (some r, after)
      → unsafe_method request.method ≡ true
      → is_exempt_path request.path ≡ false
      → presented_token request ≡ some (some presented)
      → csrf_middleware request (some r)
        ≡ (if sha256 presented == sha256 csrf_token then passed else rejected)
  unfolding csrf_middleware new_session
  create_session-csrf_middleware service env later user_id institution_id version token csrf_token
        presented db after out r request made seen unsafe not_exempt shown =
      let found =
        create_session_found service env user_id institution_id version token csrf_token db out
          made in
      let same : r.csrf_token_hash ≡ sha256 csrf_token =
        resolve_csrf service later token out.1 after _ r found seen in
      ground arith
