-- ===== src/Ingestion/Parser/Docx.antt =====
-- parseDOCX of internal/ingestion/parser.go. A text element is one token, with what `DecodeElement`
-- makes of it; a token that the decoder refuses is `bad_token`.
pub mod Guard
use agentic_demo.Prelude.{
  ℕ, suc, ◌+◌, ◌*◌, Bool, true, false, ◌&&◌, ◌||◌, not, Option, none, some, List, [], ◌∷◌, ◌++◌,
  Text, lit, text_eq, is_empty, has_prefix, trim_space, length, ltb, Result, ok, err, ◌>>=◌,
  if◌then◌else◌, ◌==◌,
}
use agentic_demo.Ingestion.Parser.Pdf.{ParseError, open_failed, malformed, too_large, no_document}

pub data XmlToken : Type 0 where
  start_element end_element : Text → Text → XmlToken
  text_element : Text → Option Text → XmlToken
  bad_token : XmlToken

-- An entry of the archive; one that does not open is `none`.
pub record ZipEntry : Type 0 where
  pub name : Text
  pub uncompressed_size : ℕ
  pub tokens : Option (List XmlToken)

abbrev pub max_docx_uncompressed : ℕ
max_docx_uncompressed = 67108864

abbrev pub max_docx_entries : ℕ
max_docx_entries = 1024

abbrev pub wordprocessing_ml_ns : Text
wordprocessing_ml_ns = lit "http://schemas.openxmlformats.org/wordprocessingml/"

-- `isWordprocessingML`.
unfoldable pub is_wordprocessing_ml : Text → Bool
unfolding has_prefix is_empty
is_wordprocessing_ml space = is_empty space || has_prefix space wordprocessing_ml_ns

-- A paragraph and its table row; 0 is outside any.
pub record Para : Type 0 where
  pub text : Text
  pub row : ℕ

pub record DocxState : Type 0 where
  pub paras : List Para
  pub row_id : ℕ
  pub in_paragraph : Bool
  pub text : Text

abbrev pub add_para : DocxState → Text → DocxState
add_para st [] = record st { text = []; in_paragraph = false }
add_para st (c ∷ s) = record st {
  paras = st.paras ++ (record { text = c ∷ s; row = st.row_id } ∷ []);
  text = [];
  in_paragraph = false;
}

abbrev pub started : DocxState → Text → DocxState
started st local =
    if text_eq local (lit "p")
    then record st { in_paragraph = true }
    else if text_eq local (lit "tr")
    then record st { row_id = suc st.row_id }
    else if text_eq local (lit "tab") && st.in_paragraph
    then record st { text = st.text ++ (9 ∷ []) }
    else st

abbrev pub run_written : DocxState → Option Text → Result ParseError DocxState
run_written st none = err malformed
run_written st (some s) = ok (record st { text = st.text ++ s })

-- The body of the loop over the tokens.
unfoldable pub one_token : DocxState → XmlToken → Result ParseError DocxState
unfolding is_wordprocessing_ml trim_space
one_token st (start_element space local) =
    ok (if is_wordprocessing_ml space then started st local else st)
one_token st (end_element space local) = ok (
    if is_wordprocessing_ml space && text_eq local (lit "p") && st.in_paragraph
    then add_para st (trim_space st.text)
    else st)
one_token st (text_element space content) =
    if is_wordprocessing_ml space && st.in_paragraph then run_written st content else ok st
one_token st bad_token = err malformed

unfoldable pub tokens_from : DocxState → List XmlToken → Result ParseError DocxState
unfolding one_token
tokens_from st [] = ok st
tokens_from st (token ∷ tokens) = do next ← one_token st token; tokens_from next tokens

-- What stands in front of a paragraph: a tab within a row, a line break otherwise.
abbrev pub separator : ℕ → ℕ → Text
separator before row = if not (row == 0) && (row == before) then 9 ∷ [] else 10 ∷ []

unfoldable pub laid_out : ℕ → List Para → Text
laid_out before [] = []
laid_out before (p ∷ ps) = separator before p.row ++ (p.text ++ laid_out p.row ps)

abbrev pub document_text : List Para → Text
unfolding laid_out
document_text [] = []
document_text (p ∷ ps) = p.text ++ laid_out p.row ps

-- The loop over the entries: the last one that holds the main part.
unfoldable pub find_document : List ZipEntry → Option ZipEntry → Result ParseError (Option ZipEntry)
find_document [] document = ok document
find_document (f ∷ fs) document =
    let rest =
      find_document fs (if text_eq f.name (lit "word/document.xml") then some f else document) in
    if ltb max_docx_uncompressed f.uncompressed_size then err too_large else rest

abbrev pub docx_start : DocxState
docx_start = record { paras = []; row_id = 0; in_paragraph = false; text = [] }

abbrev pub document_tokens : Option (List XmlToken) → Result ParseError Text
unfolding tokens_from document_text
document_tokens none = err open_failed
document_tokens (some tokens) = do st ← tokens_from docx_start tokens; ok (document_text st.paras)

abbrev pub read_document : Option ZipEntry → Result ParseError Text
unfolding document_tokens
read_document none = err no_document
read_document (some f) = document_tokens f.tokens

-- `parseDOCX`; bytes that are no archive are `none`.
unfoldable pub parse_docx : Option (List ZipEntry) → Result ParseError Text
unfolding find_document read_document
parse_docx none = err open_failed
parse_docx (some entries) =
    if ltb max_docx_entries (length entries)
    then err too_large
    else (do document ← find_document entries none; read_document document)
