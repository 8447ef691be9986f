-- ===== src/Ingestion/Parser/Xlsx.antt =====
-- parseXLSX of internal/ingestion/parser.go.
use agentic_demo.Prelude.{
  Bool, Option, none, some, List, [], ◌∷◌, ◌++◌, Text, lit, is_empty, trim_space, join, Result, ok,
  err, ◌>>=◌, if◌then◌else◌,
}
use agentic_demo.Ingestion.Parser.Pdf.{ParseError, open_failed, malformed, no_sheets}

-- What the library reads of a sheet: its rows, each `none` if it cannot be read, and whether the
-- iteration over them ends without an error. A sheet that does not open has the rows `none`.
pub record Sheet : Type 0 where
  pub name : Text
  pub rows : Option (List (Option (List Text)))
  pub rows_ok : Bool

abbrev pub add_row : Text → List Text → List Text
unfolding trim_space
add_row joined rest = if is_empty (trim_space joined) then rest else joined ∷ rest

unfoldable pub rows_text : List (Option (List Text)) → Result ParseError (List Text)
unfolding add_row join
rows_text [] = ok []
rows_text (none ∷ rows) = err malformed
rows_text (some cells ∷ rows) = do rest ← rows_text rows; ok (add_row (join cells (9 ∷ [])) rest)

abbrev pub opened :
    Option (List (Option (List Text))) → Result ParseError (List (Option (List Text)))
opened none = err malformed
opened (some rows) = ok rows

-- The block of one sheet.
unfoldable pub block : Sheet → Result ParseError Text
unfolding rows_text join
block sheet = do
  rows ← opened sheet.rows
  texts ← rows_text rows
  if sheet.rows_ok
      then ok (lit "Sheet: " ++ (sheet.name ++ (10 ∷ join texts (10 ∷ []))))
      else err malformed

unfoldable pub blocks : List Sheet → Result ParseError (List Text)
unfolding block
blocks [] = ok []
blocks (sheet ∷ sheets) = do text ← block sheet; rest ← blocks sheets; ok (text ∷ rest)

-- `parseXLSX`; bytes that are no workbook are `none`.
unfoldable pub parse_xlsx : Option (List Sheet) → Result ParseError Text
unfolding blocks join trim_space
parse_xlsx none = err open_failed
parse_xlsx (some []) = err no_sheets
parse_xlsx (some (s ∷ sheets)) = do
  texts ← blocks (s ∷ sheets)
  ok (trim_space (join texts (10 ∷ 10 ∷ [])))
