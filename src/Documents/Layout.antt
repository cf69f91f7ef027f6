-- ===== src/Documents/Layout.antt =====
-- backend/src/documents/worker.rs: the lines of a transcript, of `PdfLine`, and `wrap_pdf_line`.
pub mod Wrapping
use Prim.Native.String.{String, ◌++◌ as str_append}
use ubedtech.Prelude.{ℕ, ◌+◌, Bool, true, false, ◌&&◌, not, List, [], ◌∷◌, ltb, ◌==◌, if◌then◌else◌}
use ubedtech.Shared.Text.{split_words}
use ubedtech.Documents.Logs.{byte_length}

pub data BuiltinFont : Type 0 where
  helvetica : BuiltinFont
  helvetica_bold : BuiltinFont

pub record PdfLine : Type 0 where
  pub text : String
  pub font : BuiltinFont
  pub size : ℕ

-- `PdfLine::body`
abbrev pub body : String → PdfLine
body text = record { text = text; font = BuiltinFont.helvetica; size = 10 }

-- `is_empty`
abbrev pub is_empty_text : String → Bool
is_empty_text s = byte_length s == 0

-- A space, unless the line is empty, and a word.
unfoldable pub push_word : String → String → String
unfolding byte_length
push_word current word =
    if is_empty_text current then word else str_append current (str_append " " word)

abbrev pub is_full : ℕ → String → String → Bool
is_full maximum_chars current word =
    ltb maximum_chars
      (byte_length current + (if is_empty_text current then 0 else 1) + byte_length word)
    && not (is_empty_text current)

-- The loop over the words, with the line that is being filled.
unfoldable pub wrap_words : ℕ → String → List String → List PdfLine
unfolding byte_length push_word
wrap_words maximum_chars current [] = if is_empty_text current then [] else body current ∷ []
wrap_words maximum_chars current (word ∷ words) =
    let full = is_full maximum_chars current word in
    let rest = wrap_words maximum_chars (push_word (if full then "" else current) word) words in
    if full then body current ∷ rest else rest

abbrev pub or_blank_line : List PdfLine → List PdfLine
or_blank_line [] = body "" ∷ []
or_blank_line (x ∷ xs) = x ∷ xs

unfoldable pub wrap_pdf_line : String → ℕ → List PdfLine
unfolding wrap_words split_words
wrap_pdf_line text maximum_chars = or_blank_line (wrap_words maximum_chars "" (split_words text))
