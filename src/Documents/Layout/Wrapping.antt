-- ===== src/Documents/Layout/Wrapping.antt =====
-- What the lines of `wrap_pdf_line` (backend/src/documents/worker.rs) are of the words of the text.
use Prim.Native.Char.{Char, code}
use Prim.Native.String.{String, ◌++◌ as str_append}
use Prim.Native.String.append
use ubedtech.Prelude.{
  ℕ, ◌+◌, ◌<◌, ◌≤◌, ◌≡◌, ◌⊎◌, inl, inr, refl, ap, true, false, List, [], ◌∷◌, ◌++◌, arith,
  Bool-cases,
}
use ubedtech.Shared.Text.{split_words, is_whitespace, cons_first}
use ubedtech.Documents.Logs.{byte_length, len_utf8}
use ubedtech.Documents.Layout.{
  PdfLine, body, push_word, is_full, wrap_words, or_blank_line, wrap_pdf_line,
}

-- The words of a line, with single spaces between them.
unfoldable pub line_of : String → List String → String
unfolding push_word
line_of word [] = word
line_of word (w ∷ ws) = line_of (push_word word w) ws

-- The next word would have made the line too long.
abbrev pub IsTooLong : ℕ → String → List String → Type 0
IsTooLong maximum_chars line [] = Unit {0}
IsTooLong maximum_chars line (w ∷ ws) = maximum_chars < byte_length line + 1 + byte_length w

-- `Wraps n words lines`: the lines hold the words in their order, each as many as fit in `n` bytes,
-- and a word that is longer has a line of its own.
pub data Wraps (maximum_chars : ℕ) : List String → List String → Type 0 where
  finished : Wraps maximum_chars [] []
  line :
      (word : String) (words rest lines : List String)
      → (words ≡ []) ⊎ (byte_length (line_of word words) ≤ maximum_chars)
      → IsTooLong maximum_chars (line_of word words) rest
      → Wraps maximum_chars rest lines
      → Wraps maximum_chars (word ∷ (words ++ rest)) (line_of word words ∷ lines)

abbrev pub AllWords : List String → Type 0
AllWords [] = Unit {0}
AllWords (w ∷ ws) = (0 < byte_length w) × AllWords ws

byte_length-append : (s t : String) → byte_length (str_append s t) ≡ byte_length s + byte_length t
unfolding byte_length
byte_length-append String.[] t =
    let whole : byte_length (str_append "" t) ≡ byte_length t = ap byte_length (append.nil t) in
    omega (arith, whole)
byte_length-append (String.◌∷◌ c s) t =
    let whole : byte_length (str_append (String.◌∷◌ c s) t)
        ≡ len_utf8 (code c) + byte_length (str_append s t) =
      ap byte_length (append.cons c s t) in
    omega (arith, byte_length-append s t, whole)

byte_length-push_word :
    (s w : String)
    → 0 < byte_length s
    → byte_length (push_word s w) ≡ byte_length s + 1 + byte_length w
unfolding push_word byte_length len_utf8
byte_length-push_word s w h =
    let outer = byte_length-append s (str_append " " w) in
    let inner = byte_length-append " " w in ground (arith)

line_of_snoc :
    (word : String) (words : List String) (w : String)
    → line_of word (words ++ (w ∷ [])) ≡ push_word (line_of word words) w
unfolding line_of
line_of_snoc word [] w = refl
line_of_snoc word (x ∷ xs) w = line_of_snoc (push_word word x) xs w

line_of_nonempty :
    (word : String) (words : List String)
    → 0 < byte_length word
    → 0 < byte_length (line_of word words)
unfolding line_of
line_of_nonempty word [] h = h
line_of_nonempty word (x ∷ xs) h =
    line_of_nonempty (push_word word x) xs (omega (arith, byte_length-push_word word x h))

append_snoc :
    (xs : List String) (v : String) (vs : List String) → (xs ++ (v ∷ [])) ++ vs ≡ xs ++ (v ∷ vs)
append_snoc [] v vs = refl
append_snoc (x ∷ xs) v vs = ap (λ l. x ∷ l) (append_snoc xs v vs)

unfoldable pub texts : List PdfLine → List String
texts [] = []
texts (l ∷ ls) = l.text ∷ texts ls

texts_full :
    (maximum_chars : ℕ) (word : String) (words : List String) (w : String) (rest : List String)
    → 0 < byte_length word
    → is_full maximum_chars (line_of word words) w ≡ true
    → wrap_words maximum_chars (line_of word words) (w ∷ rest)
      ≡ body (line_of word words) ∷ wrap_words maximum_chars w rest
unfolding wrap_words push_word byte_length
texts_full maximum_chars word words w rest h full = rw full refl

texts_room :
    (maximum_chars : ℕ) (word : String) (words : List String) (w : String) (rest : List String)
    → is_full maximum_chars (line_of word words) w ≡ false
    → wrap_words maximum_chars (line_of word words) (w ∷ rest)
      ≡ wrap_words maximum_chars (line_of word (words ++ (w ∷ []))) rest
unfolding wrap_words
texts_room maximum_chars word words w rest room = rw (room, line_of_snoc word words w) refl

texts_end :
    (maximum_chars : ℕ) (current : String)
    → 0 < byte_length current
    → wrap_words maximum_chars current [] ≡ body current ∷ []
unfolding wrap_words
texts_end maximum_chars current h = ground arith

wrap_words-Wraps :
    (maximum_chars : ℕ) (word : String) (words rest : List String)
    → 0 < byte_length word
    → AllWords rest
    → (words ≡ []) ⊎ (byte_length (line_of word words) ≤ maximum_chars)
    → Wraps maximum_chars
        (word ∷ (words ++ rest))
        (texts (wrap_words maximum_chars (line_of word words) rest))
unfolding texts line_of
wrap_words-Wraps maximum_chars word words [] h all fits =
    rw (texts_end maximum_chars (line_of word words) (line_of_nonempty word words h))
      (line word words [] [] fits tt finished)
wrap_words-Wraps maximum_chars word words (w ∷ ws) h all fits =
    elim (Bool-cases (is_full maximum_chars (line_of word words) w)) [
      | inl full ↦
          let pos = line_of_nonempty word words h in
          rw (texts_full maximum_chars word words w ws h full) (
            line word words (w ∷ ws) (texts (wrap_words maximum_chars w ws)) fits (ground arith)
              (wrap_words-Wraps maximum_chars w [] ws all.0 all.1 (inl refl)))
      | inr room ↦
          let pos = line_of_nonempty word words h in
          rw (texts_room maximum_chars word words w ws room, ← append_snoc words w ws)
            (wrap_words-Wraps maximum_chars word (words ++ (w ∷ [])) ws h all.1 (
              inr (
                rw (line_of_snoc word words w)
                  (ground (arith, byte_length-push_word (line_of word words) w pos)))))
    ]

cons_first-AllWords : (c : Char) (rest : List String) → AllWords rest → AllWords (cons_first c rest)
unfolding byte_length len_utf8
cons_first-AllWords c [] h = (ground arith, tt)
cons_first-AllWords c (x ∷ xs) h = (ground arith, h.1)

split_words-AllWords : (text : String) → AllWords (split_words text)
unfolding split_words byte_length len_utf8
split_words-AllWords String.[] = tt
split_words-AllWords (String.◌∷◌ c String.[]) = elim (Bool-cases (is_whitespace (code c))) [
  | inl space ↦ rw space tt
  | inr letter ↦ rw letter (ground arith, tt)
]
split_words-AllWords (String.◌∷◌ c (String.◌∷◌ d s)) =
    let ih = split_words-AllWords (String.◌∷◌ d s) in
    elim (Bool-cases (is_whitespace (code c))) [
      | inl space ↦ rw space ih
      | inr letter ↦ elim (Bool-cases (is_whitespace (code d))) [
        | inl ends ↦ rw (letter, ends) (ground arith, ih)
        | inr goes_on ↦
            rw (letter, goes_on) (cons_first-AllWords c (split_words (String.◌∷◌ d s)) ih)
      ]
    ]

Wraps-empty :
    (maximum_chars : ℕ) (words lines : List String)
    → Wraps maximum_chars words lines
    → lines ≡ []
    → words ≡ []
Wraps-empty maximum_chars _ _ finished h = refl
Wraps-empty maximum_chars _ _ (line word words rest lines fits long more) h = absurd (ground arith)

or_blank-Wraps :
    (maximum_chars : ℕ) (word : String) (words : List String) (lines : List PdfLine)
    → Wraps maximum_chars (word ∷ words) (texts lines)
    → or_blank_line lines ≡ lines
unfolding texts
or_blank-Wraps maximum_chars word words [] w =
    absurd (ground (arith, Wraps-empty maximum_chars (word ∷ words) (texts []) w))
or_blank-Wraps maximum_chars word words (l ∷ ls) w = refl

first_word :
    (maximum_chars : ℕ) (w : String) (ws : List String)
    → wrap_words maximum_chars "" (w ∷ ws) ≡ wrap_words maximum_chars w ws
unfolding wrap_words push_word byte_length
first_word maximum_chars w ws =
    let room : is_full maximum_chars "" w ≡ false = ground arith in rw room refl

rest_lines :
    (maximum_chars : ℕ) (w : String) (ws : List String)
    → Wraps maximum_chars (w ∷ ws) (texts (wrap_words maximum_chars w ws))
    → Wraps maximum_chars (w ∷ ws) (texts (or_blank_line (wrap_words maximum_chars "" (w ∷ ws))))
rest_lines maximum_chars w ws h =
    let start : wrap_words maximum_chars "" (w ∷ ws) ≡ wrap_words maximum_chars w ws =
      first_word maximum_chars w ws in
    rw (start, or_blank-Wraps maximum_chars w ws (wrap_words maximum_chars w ws) h) h

wrap_all :
    (maximum_chars : ℕ) (words : List String)
    → AllWords words
    → ((words ≡ []) × (or_blank_line (wrap_words maximum_chars "" words) ≡ body "" ∷ []))
      ⊎ Wraps maximum_chars words (texts (or_blank_line (wrap_words maximum_chars "" words)))
unfolding wrap_words byte_length line_of
wrap_all maximum_chars [] all = inl (refl, refl)
wrap_all maximum_chars (w ∷ ws) all =
    let rest = wrap_words-Wraps maximum_chars w [] ws all.0 all.1 (inl refl) in
    inr (rest_lines maximum_chars w ws rest)

-- A text without words gives one empty line. The lines of any other hold its words in their order,
-- with single spaces; each is filled greedily, up to the maximum in bytes, and longer only where it is
-- one word.
pub wrap_pdf_line_lem :
    (text : String) (maximum_chars : ℕ)
    → ((split_words text ≡ []) × (wrap_pdf_line text maximum_chars ≡ body "" ∷ []))
      ⊎ Wraps maximum_chars (split_words text) (texts (wrap_pdf_line text maximum_chars))
unfolding wrap_pdf_line
wrap_pdf_line_lem text maximum_chars =
    wrap_all maximum_chars (split_words text) (split_words-AllWords text)
