-- ===== src/Shared/Text.antt =====
-- What the services use of Rust's `str`: `trim`, `is_empty`, and tests on each character.
use Prim.Native.Char.{Char, code}
use Prim.Native.String.{String}
use ubedtech.Prelude.{
  ℕ, Bool, true, ◌&&◌, ◌||◌, ◌==◌, leb, if◌then◌else◌, Option, none, some, List, [], ◌∷◌,
}

-- `char::is_whitespace`: the characters with the Unicode property White_Space.
unfoldable pub is_whitespace : ℕ → Bool
is_whitespace c =
    (leb 9 c && leb c 13)
    || (c == 32)
    || (c == 133)
    || (c == 160)
    || (c == 5760)
    || (leb 8192 c && leb c 8202)
    || (c == 8232)
    || (c == 8233)
    || (c == 8239)
    || (c == 8287)
    || (c == 12288)

-- `s.chars().all(p)`
unfoldable pub all_chars : (ℕ → Bool) → String → Bool
all_chars p String.[] = true
all_chars p (String.◌∷◌ c s) = p (code c) && all_chars p s

-- `s.trim().is_empty()`
unfoldable pub is_blank : String → Bool
unfolding all_chars is_whitespace
is_blank s = all_chars is_whitespace s

-- `s.trim_start()`
unfoldable pub trim_start : String → String
unfolding is_whitespace
trim_start String.[] = String.[]
trim_start (String.◌∷◌ c s) =
    let rest = trim_start s in if is_whitespace (code c) then rest else String.◌∷◌ c s

-- `s.trim_end()`
unfoldable pub trim_end : String → String
unfolding is_blank
trim_end String.[] = String.[]
trim_end (String.◌∷◌ c s) =
    let rest = trim_end s in if is_blank (String.◌∷◌ c s) then String.[] else String.◌∷◌ c rest

unfoldable pub trim : String → String
unfolding trim_start trim_end
trim s = trim_end (trim_start s)

-- `s.strip_prefix(p)`
unfoldable pub strip_prefix : String → String → Option String
strip_prefix String.[] s = some s
strip_prefix (String.◌∷◌ c p) String.[] = none
strip_prefix (String.◌∷◌ c p) (String.◌∷◌ d s) =
    let rest = strip_prefix p s in if code c == code d then rest else none

abbrev pub cons_first : Char → List String → List String
cons_first c [] = String.◌∷◌ c String.[] ∷ []
cons_first c (x ∷ xs) = String.◌∷◌ c x ∷ xs

-- `s.split(separator)`
unfoldable pub split_on : ℕ → String → List String
split_on separator String.[] = String.[] ∷ []
split_on separator (String.◌∷◌ c s) =
    let rest = split_on separator s in
    if code c == separator then String.[] ∷ rest else cons_first c rest

-- `s.split_whitespace()`: the words, which are not empty.
unfoldable pub split_words : String → List String
unfolding is_whitespace
split_words String.[] = []
split_words (String.◌∷◌ c String.[]) =
    if is_whitespace (code c) then [] else String.◌∷◌ c String.[] ∷ []
split_words (String.◌∷◌ c (String.◌∷◌ d s)) =
    let rest = split_words (String.◌∷◌ d s) in
    if is_whitespace (code c)
    then rest
    else if is_whitespace (code d)
    then String.◌∷◌ c String.[] ∷ rest
    else cons_first c rest
