-- ===== src/Ingestion/Parser/Docx/Guard.antt =====
-- Which archives parseDOCX of internal/ingestion/parser.go refuses for their size.
use agentic_demo.Prelude.{
  ◌∙◌, ◌≡◌, refl, inl, inr, Bool, true, false, ◌&&◌, not, Option, none, some, List, [], ◌∷◌, length,
  ltb, leb, Result, ok, err, ◌>>=◌, if_both, Bool-cases, arith,
}
use agentic_demo.Ingestion.Parser.Pdf.{
  ParseError, open_failed, malformed, unsupported, too_large, no_document, no_sheets,
}
use agentic_demo.Ingestion.Parser.Docx.{
  ZipEntry, XmlToken, DocxState, max_docx_uncompressed, max_docx_entries, find_document,
  read_document, parse_docx, one_token, is_wordprocessing_ml, tokens_from, run_written, docx_start,
  document_text, document_tokens,
}

abbrev pub sizes_within : List ZipEntry → Bool
sizes_within [] = true
sizes_within (f ∷ fs) = leb f.uncompressed_size max_docx_uncompressed && sizes_within fs

-- At most 1024 entries, of at most 64 MiB each.
abbrev pub is_within : List ZipEntry → Bool
is_within entries = leb (length entries) max_docx_entries && sizes_within entries

-- Whether a result is the refusal for the size.
abbrev pub is_too_large {ℓ} : {A : Type ℓ} → Result ParseError A → Bool
is_too_large (err too_large) = true
is_too_large r = false

find_document-size :
    (fs : List ZipEntry) (document : Option ZipEntry)
    → is_too_large (find_document fs document) ≡ not (sizes_within fs)
unfolding find_document
find_document-size [] document = refl
find_document-size (f ∷ fs) document =
    elim (Bool-cases (ltb max_docx_uncompressed f.uncompressed_size)) [
      | inl e ↦
          let k : leb f.uncompressed_size max_docx_uncompressed ≡ false = ground arith in rw (e, k)
      | inr e ↦
          let k : leb f.uncompressed_size max_docx_uncompressed ≡ true = ground arith in
          rw (e, k) (find_document-size fs _)
    ]

one_token-size : (st : DocxState) (token : XmlToken) → is_too_large (one_token st token) ≡ false
unfolding one_token
one_token-size st (XmlToken.start_element space local) = refl
one_token-size st (XmlToken.end_element space local) = refl
one_token-size st (XmlToken.text_element space none) =
    if_both (λ (r : Result ParseError DocxState). is_too_large r ≡ false)
      (is_wordprocessing_ml space && st.in_paragraph) {u = run_written st none} {v = ok st} refl
      refl
one_token-size st (XmlToken.text_element space (some s)) =
    if_both (λ (r : Result ParseError DocxState). is_too_large r ≡ false)
      (is_wordprocessing_ml space && st.in_paragraph) {u = run_written st (some s)} {v = ok st} refl
      refl
one_token-size st XmlToken.bad_token = refl

-- A step that is not refused for its size hands the question on.
then-size :
    {A B : Type 0} (r : Result ParseError A) (f : A → Result ParseError B)
    → is_too_large r ≡ false
    → ((a : A) → is_too_large (f a) ≡ false)
    → is_too_large (r >>= f) ≡ false
then-size (ok a) f h k = k a
then-size (err too_large) f h k = absurd (ground arith)
then-size (err open_failed) f h k = refl
then-size (err malformed) f h k = refl
then-size (err unsupported) f h k = refl
then-size (err no_document) f h k = refl
then-size (err no_sheets) f h k = refl

tokens_from-size :
    (st : DocxState) (tokens : List XmlToken) → is_too_large (tokens_from st tokens) ≡ false
unfolding tokens_from
tokens_from-size st [] = refl
tokens_from-size st (token ∷ tokens) =
    then-size (one_token st token) (λ next. tokens_from next tokens) (one_token-size st token)
      (λ next. tokens_from-size next tokens)

document_tokens-size :
    (tokens : Option (List XmlToken)) → is_too_large (document_tokens tokens) ≡ false
unfolding document_tokens
document_tokens-size none = refl
document_tokens-size (some tokens) =
    then-size (tokens_from docx_start tokens) (λ st. ok (document_text st.paras))
      (tokens_from-size docx_start tokens) (λ st. refl)

read_document-size : (document : Option ZipEntry) → is_too_large (read_document document) ≡ false
unfolding read_document document_tokens
read_document-size none = refl
read_document-size (some f) = document_tokens-size f.tokens

found-size :
    (r : Result ParseError (Option ZipEntry)) → is_too_large (r >>= read_document) ≡ is_too_large r
found-size (ok document) = read_document-size document
found-size (err too_large) = refl
found-size (err open_failed) = refl
found-size (err malformed) = refl
found-size (err unsupported) = refl
found-size (err no_document) = refl
found-size (err no_sheets) = refl

-- An archive is refused for its size exactly when it has more than 1024 entries or an entry that
-- declares more than 64 MiB, whatever the entries hold.
parse_docx-size :
    (entries : List ZipEntry) → is_too_large (parse_docx (some entries)) ≡ not (is_within entries)
unfolding parse_docx
parse_docx-size entries = elim (Bool-cases (ltb max_docx_entries (length entries))) [
  | inl e ↦ let k : leb (length entries) max_docx_entries ≡ false = ground arith in rw (e, k)
  | inr e ↦
      let k : leb (length entries) max_docx_entries ≡ true = ground arith in
      rw (e, k) (found-size (find_document entries none) ∙ find_document-size entries none)
]
