-- ===== src/Documents/Logs.antt =====
-- backend/src/documents/worker.rs: `truncate_for_log`, on the bytes of UTF-8.
use Prim.Native.Char.{Char, code}
use Prim.Native.String.{String}
use ubedtech.Prelude.{
  ℕ, zero, suc, ◌+◌, ◌-◌, ◌≡◌, ◌⊎◌, sym, ap, Option, none, some, arith, leb, ltb, if◌then◌else◌,
  Option-cases, inl, inr,
}

-- `char::len_utf8`
unfoldable pub len_utf8 : ℕ → ℕ
len_utf8 c = if ltb c 128 then 1 else if ltb c 2048 then 2 else if ltb c 65536 then 3 else 4

-- `str::len`
unfoldable pub byte_length : String → ℕ
byte_length String.[] = 0
byte_length (String.◌∷◌ c s) = len_utf8 (code c) + byte_length s

abbrev pub with_first : Char → Option String → Option String
with_first c none = none
with_first c (some s) = some (String.◌∷◌ c s)

-- `value.get(..maximum)`: none where `maximum` is past the end or inside of a character.
unfoldable pub get_to : String → ℕ → Option String
get_to String.[] zero = some String.[]
get_to String.[] (suc n) = none
get_to (String.◌∷◌ c s) zero = some String.[]
get_to (String.◌∷◌ c s) (suc n) =
    let rest = get_to s (suc n - len_utf8 (code c)) in
    if leb (len_utf8 (code c)) (suc n) then with_first c rest else none

abbrev pub unwrap_or : Option String → String → String
unwrap_or none value = value
unwrap_or (some s) value = s

unfoldable pub truncate_for_log : String → ℕ → String
truncate_for_log value maximum = unwrap_or (get_to value maximum) value

-- A prefix that is cut has exactly the bytes that were asked for.
get_to-byte_length :
    (value : String) (n : ℕ) (s : String) → get_to value n ≡ some s → byte_length s ≡ n
unfolding get_to byte_length
get_to-byte_length String.[] zero s h = ap (λ o. byte_length (unwrap_or o String.[])) (sym h)
get_to-byte_length String.[] (suc n) s h = absurd (cc)
get_to-byte_length (String.◌∷◌ c value) zero s h =
    ap (λ o. byte_length (unwrap_or o String.[])) (sym h)
get_to-byte_length (String.◌∷◌ c value) (suc n) s h =
    let w = len_utf8 (code c) in
    elim (Option-cases (get_to value (suc n - w))) [
      | inl nothing ↦ absurd (ground arith)
      | inr (rest, e) ↦ ground (arith, get_to-byte_length value (suc n - w) rest e)
    ]

-- A value is cut to exactly the maximum where a character ends there. Where none does, because the
-- value is shorter or because the maximum falls inside of a character, it is kept whole.
pub truncate_for_log_lem :
    (value : String) (maximum : ℕ)
    → ((byte_length (truncate_for_log value maximum) ≡ maximum)
        × (get_to value maximum ≡ some (truncate_for_log value maximum)))
      ⊎ ((truncate_for_log value maximum ≡ value) × (get_to value maximum ≡ none))
unfolding truncate_for_log
truncate_for_log_lem value maximum = elim (Option-cases (get_to value maximum)) [
  | inl nothing ↦ inr (ground arith, nothing)
  | inr (s, e) ↦ inl (ground (arith, get_to-byte_length value maximum s e), ground arith)
]
