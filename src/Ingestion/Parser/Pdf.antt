-- ===== src/Ingestion/Parser/Pdf.antt =====
-- parsePDF and normalizePDFText of internal/ingestion/parser.go.
pub mod Characters
use agentic_demo.Prelude.{
  ℕ, Bool, true, false, ◌||◌, Option, none, some, List, [], ◌∷◌, ◌++◌, Text, lit, is_empty,
  trim_space, split, join, Result, ok, err, ◌>>=◌, if◌then◌else◌, ◌==◌,
}

pub data ParseError : Type 0 where
  open_failed malformed unsupported too_large no_document no_sheets : ParseError

abbrev pub last_or : ℕ → Text → ℕ
last_or c [] = c
last_or c (d ∷ s) = last_or d s

-- The last character; 0 for the empty text, which the callers never pass.
abbrev pub last_char : Text → ℕ
last_char s = last_or 0 s

-- `endsSentence`.
unfoldable pub ends_sentence : Text → Bool
ends_sentence line =
    let c = last_char line in
    c == b'.'
    || c == b'!'
    || c == b'?'
    || c == b':'
    || c == b';'
    || c == b')'
    || c == b'}'
    || c == b']'
    || c == b'{'
    || c == 34
    || c == 39

abbrev pub spaced : Text → Text
spaced [] = []
spaced (c ∷ b) = (c ∷ b) ++ (32 ∷ [])

-- The loop of `flush_words`: `b` is the builder, and `join_next` says that the last word ends in a hyphen.
unfoldable pub join_words : Text → Bool → List Text → Text
join_words b join_next [] = b
join_words b true (w ∷ ws) = join_words (b ++ w) false ws
join_words b false (w ∷ ws) = join_words (spaced b ++ w) (last_char w == b'-') ws

-- `flush`: the paragraphs that it adds.
abbrev pub flush_words : List Text → List Text
unfolding join_words
flush_words [] = []
flush_words (w ∷ ws) = join_words [] false (w ∷ ws) ∷ []

-- The body of the loop over the lines; `next` is the rest of the run from the new words.
abbrev pub one_line : Text → List Text → (List Text → List Text) → List Text
unfolding flush_words ends_sentence
one_line line words next =
    if is_empty line
    then next words
    else if ends_sentence line
    then flush_words (words ++ (line ∷ [])) ++ next []
    else next (words ++ (line ∷ []))

unfoldable pub line_paragraphs : List Text → List Text → List Text
unfolding one_line trim_space
line_paragraphs [] words = flush_words words
line_paragraphs (line ∷ lines) words = one_line (trim_space line) words (line_paragraphs lines)

-- `normalizePDFText`.
unfoldable pub normalize_pdf_text : Text → Text
unfolding line_paragraphs split join
normalize_pdf_text page = join (line_paragraphs (split page (10 ∷ [])) []) (10 ∷ 10 ∷ [])

abbrev pub add_page : Text → List Text → List Text
unfolding normalize_pdf_text
add_page trimmed pages = if is_empty trimmed then pages else normalize_pdf_text trimmed ∷ pages

-- The loop over the pages: a page whose text cannot be extracted is `none`.
unfoldable pub pages_of : List (Option Text) → Result ParseError (List Text)
unfolding add_page trim_space
pages_of [] = ok []
pages_of (none ∷ pages) = err malformed
pages_of (some page ∷ pages) = do rest ← pages_of pages; ok (add_page (trim_space page) rest)

-- `parsePDF`; a file that does not open is `none`.
unfoldable pub parse_pdf : Option (List (Option Text)) → Result ParseError Text
unfolding pages_of join
parse_pdf none = err open_failed
parse_pdf (some pages) = do texts ← pages_of pages; ok (join texts (10 ∷ 10 ∷ []))
