-- ===== src/Identity/Throttle.antt =====
-- backend/src/identity_access/service.rs: the throttle of failed logins, by account and address, and
-- the rule for new passwords.
use Prim.Native.String.{String}
use text.Mathlib.Text.{◌==◌ as str_eq}
use ubedtech.Prelude.{
  ℕ, suc, ◌+◌, ◌≤◌, ◌<◌, ◌≡◌, ◌∙◌, refl, Bool, false, ◌&&◌, not, Option, none, some, List, [], ◌∷◌,
  arith, leb, ltb, ◌==◌, if◌then◌else◌, find_where, count_where, exists_where, select_where,
  update_where, length, Option-cases, Bool-cases, inl, inr,
}
use ubedtech.Prelude.Counts.{
  find-weaken, find-count, count-find_none, count-update_same, find-update, after_update,
  find-holds, exists-find_none,
}
use ubedtech.Shared.Error.{Result, ok, err, AppError, validation}

-- A row of `login_throttle`.
pub record LoginThrottle : Type 0 where
  pub institution_id : ℕ
  pub username_lower : String
  pub client_ip : String
  pub window_started_at : ℕ
  pub failure_count : ℕ

-- The primary key of a row.
pub record ThrottleKey : Type 0 where
  pub institution_id : ℕ
  pub username_lower : String
  pub client_ip : String

unfoldable pub has_throttle_key : ThrottleKey → LoginThrottle → Bool
has_throttle_key k t =
    (t.institution_id == k.institution_id)
    && str_eq t.username_lower k.username_lower
    && str_eq t.client_ip k.client_ip

-- `window_started_at > now() - window_secs`, the subtraction moved to the other side.
abbrev pub is_in_window : ℕ → ℕ → LoginThrottle → Bool
is_in_window now window_secs t = ltb now (t.window_started_at + window_secs)

abbrev pub is_exhausted : ℕ → Option LoginThrottle → Bool
is_exhausted max_failures none = false
is_exhausted max_failures (some t) = leb max_failures t.failure_count

unfoldable pub throttled : ℕ → ℕ → ThrottleKey → ℕ → List LoginThrottle → Bool
throttled max_failures window_secs k now rows =
    is_exhausted max_failures
      (find_where (λ t. has_throttle_key k t && is_in_window now window_secs t) rows)

-- The `DO UPDATE` of `record_failure`: an expired window starts anew.
abbrev pub count_failure : ℕ → ℕ → LoginThrottle → LoginThrottle
count_failure now window_secs t = record t {
  failure_count = if is_in_window now window_secs t then t.failure_count + 1 else 1;
  window_started_at = if is_in_window now window_secs t then t.window_started_at else now;
}

abbrev pub first_failure : ThrottleKey → ℕ → LoginThrottle
first_failure k now = record {
  institution_id = k.institution_id;
  username_lower = k.username_lower;
  client_ip = k.client_ip;
  window_started_at = now;
  failure_count = 1;
}

unfoldable pub record_failure : ℕ → ThrottleKey → ℕ → List LoginThrottle → List LoginThrottle
record_failure window_secs k now rows =
    if exists_where (has_throttle_key k) rows
    then update_where (has_throttle_key k) (count_failure now window_secs) rows
    else first_failure k now ∷ rows

-- `DELETE FROM login_throttle WHERE …`
unfoldable pub clear_throttle : ThrottleKey → List LoginThrottle → List LoginThrottle
clear_throttle k rows = select_where (λ t. not (has_throttle_key k t)) rows

-- Failed logins at these times, the last of them first.
unfoldable pub record_failures : ℕ → ThrottleKey → List ℕ → List LoginThrottle → List LoginThrottle
record_failures window_secs k [] rows = rows
record_failures window_secs k (t ∷ ts) rows =
    record_failure window_secs k t (record_failures window_secs k ts rows)

abbrev pub min_password_chars : ℕ
min_password_chars = 12

-- `s.chars().count()`
unfoldable pub char_count : String → ℕ
char_count String.[] = 0
char_count (String.◌∷◌ c s) = suc (char_count s)

unfoldable pub validate_new_password : String → Result AppError (Unit {0})
validate_new_password new_password =
    if ltb (char_count new_password) min_password_chars
    then err (validation "password must be at least 12 characters")
    else ok tt

-- All times are before the end.
abbrev pub AllBefore : ℕ → List ℕ → Type 0
AllBefore end [] = Unit
AllBefore end (t ∷ ts) = (t < end) × AllBefore end ts

-- A window that runs counts every failure in it, in the one row of its key.
record_failures_counted :
    (window_secs : ℕ) (k : ThrottleKey) (times : List ℕ) (rows : List LoginThrottle)
    (row : LoginThrottle)
    → find_where (has_throttle_key k) rows ≡ some row
    → count_where (has_throttle_key k) rows ≤ 1
    → AllBefore (row.window_started_at + window_secs) times
    → (last : LoginThrottle) × (find_where
          (has_throttle_key k)
          (record_failures window_secs k times rows)
        ≡ some last)
      × (count_where (has_throttle_key k) (record_failures window_secs k times rows) ≤ 1)
      × (last.window_started_at ≡ row.window_started_at)
      × (last.failure_count ≡ row.failure_count + length times)
unfolding record_failures record_failure has_throttle_key
record_failures_counted window_secs k [] rows row found one h = (row, found, one, refl, omega arith)
record_failures_counted window_secs k (t ∷ ts) rows row found one h =
    let (last, there, single, start, many) =
      record_failures_counted window_secs k ts rows row found one h.1 in
    let rest = record_failures window_secs k ts rows in
    let p = has_throttle_key k in
    let f = count_failure t window_secs in
    let moved = find-update p p f rest (λ x. refl) in
    let same = count-update_same p p f rest (λ x. refl) in
    let hit = find-holds p rest there in
    elim (Bool-cases (exists_where p rest)) [
      | inr missing ↦ absurd (ground (arith, exists-find_none p rest missing))
      | inl present ↦
          let final : find_where p (record_failures window_secs k (t ∷ ts) rows) ≡ some (f last) =
            rw present (moved ∙ rw (there, after_update, hit) refl) in
          (f last, final, rw present (rw same single), ground (arith, h.0), ground (arith, h.0))
    ]

-- While the window of an account and address runs, every failed login in it counts: the next attempt
-- is refused exactly once there have been `max_failures`.
pub throttled-record_failures :
    (max_failures window_secs : ℕ) (k : ThrottleKey) (times : List ℕ) (rows : List LoginThrottle)
    (row : LoginThrottle) (now : ℕ)
    → find_where (has_throttle_key k) rows ≡ some row
    → count_where (has_throttle_key k) rows ≤ 1
    → AllBefore (row.window_started_at + window_secs) times
    → now < row.window_started_at + window_secs
    → throttled max_failures window_secs k now (record_failures window_secs k times rows)
      ≡ leb max_failures (row.failure_count + length times)
unfolding throttled
throttled-record_failures max_failures window_secs k times rows row now found one h late =
    let (last, there, single, start, many) =
      record_failures_counted window_secs k times rows row found one h in
    let after = record_failures window_secs k times rows in
    let p = has_throttle_key k in
    let q = λ (t : LoginThrottle). p t && is_in_window now window_secs t in
    let hit = find-holds p after there in
    elim (Option-cases (find_where q after)) [
      | inl nothing ↦
          let seen = find-count p q after there (ground arith) in
          absurd (ground (arith, count-find_none q after nothing))
      | inr (other, e) ↦
          let same = find-weaken q p after (λ x t. ground arith) e single in ground arith
    ]

-- A successful login clears the throttle of its account and address.
pub throttled-clear_throttle :
    (max_failures window_secs : ℕ) (k : ThrottleKey) (now : ℕ) (rows : List LoginThrottle)
    → throttled max_failures window_secs k now (clear_throttle k rows) ≡ false
unfolding throttled clear_throttle
throttled-clear_throttle max_failures window_secs k now [] = refl
throttled-clear_throttle max_failures window_secs k now (t ∷ rows) =
    ground (arith, throttled-clear_throttle max_failures window_secs k now rows)
