-- ===== src/Ingestion/Parser.antt =====
-- internal/ingestion/parser.go: the text of an uploaded file. What the PDF, ZIP, XML and XLSX libraries
-- make of the bytes is in the environment.
pub mod Pdf
pub mod Docx
pub mod Xlsx
use agentic_demo.Prelude.{ℕ, Option, List, Text, Result, ok, err}
use agentic_demo.Ingestion.Parser.Pdf.{parse_pdf}
use agentic_demo.Ingestion.Parser.Docx.{ZipEntry, parse_docx}
use agentic_demo.Ingestion.Parser.Xlsx.{Sheet, parse_xlsx}
use agentic_demo.Ingestion.Parser.Pdf as Pdf

pub data DocType : Type 0 where
  pdf docx xlsx text csv unknown : DocType

pub record ParserEnv : Type 0 where
  pub pdf_pages : List ℕ → Option (List (Option Text))
  pub zip_entries : List ℕ → Option (List ZipEntry)
  pub sheets : List ℕ → Option (List Sheet)
  -- `string(data)`.
  pub decode : List ℕ → Text

-- `Parse`.
unfoldable pub parse : ParserEnv → DocType → List ℕ → Result Pdf.ParseError Text
unfolding parse_pdf parse_docx parse_xlsx
parse env pdf bytes = parse_pdf (env.pdf_pages bytes)
parse env docx bytes = parse_docx (env.zip_entries bytes)
parse env xlsx bytes = parse_xlsx (env.sheets bytes)
parse env text bytes = ok (env.decode bytes)
parse env csv bytes = ok (env.decode bytes)
parse env unknown bytes = err Pdf.unsupported
