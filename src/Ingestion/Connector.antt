-- ===== src/Ingestion/Connector.antt =====
-- internal/ingestion/connector.go and file_upload.go: what a data source resolves to, and which calls
-- of the sources and the object store that takes. The sources, the object store, the JSON decoder and
-- `strings.ToLower` are in the environment. Contents are bytes.
pub mod Marks
pub mod Keys
use agentic_demo.Prelude.{
  ℕ, Bool, true, false, ◌&&◌, ◌||◌, not, Option, none, some, List, [], ◌∷◌, ◌++◌, Text, lit,
  text_eq, is_empty, has_prefix, split, Result, ok, err, if◌then◌else◌, ◌==◌,
}
use agentic_demo.Knowledge.Chunking.{RawDocument}
use agentic_demo.Ingestion.Parser.{DocType, pdf, docx, xlsx, text, csv, unknown, ParserEnv, parse}
use agentic_demo.Ingestion.Parser.Pdf.{ParseError}

-- `Source`; the resolver does not read the credentials.
pub record Source : Type 0 where
  pub source_id : Text
  pub tenant_id : Text
  pub source_type : Text
  pub config : Text
  pub credentials : Option Text

-- `fileUploadConfig`, without the size, which only the decoder looks at.
pub record FileUploadConfig : Type 0 where
  pub filename : Text
  pub object_key : Text

pub data ResolveCause : Type 0 where
  load_failed foreign_source unsupported_source_type invalid_config missing_object_key :
      ResolveCause
  invalid_object_key unsupported_document_type : ResolveCause

-- A failure joined with `ErrResolutionFailed`, or one that the queue retries.
pub data IngestError : Type 0 where
  resolution_failed : ResolveCause → IngestError
  peek_failed : IngestError

pub data SourceCall : Type 0 where
  mark_error : Text → Text → SourceCall
  read : Text → Text → SourceCall

-- What the sources, the decoder and the object store answer; `get` reads a whole
-- object. The projection that `get_projection` answers with may spell the identifier of the source
-- otherwise than the text that was asked for.
pub record ConnectorEnv : Type 0 where
  pub get_projection : Text → Text → Option Source
  pub parse_config : Text → Option FileUploadConfig
  pub get : Text → Text → Option (List ℕ)
  pub to_lower : Text → Text

pub record FileConnector : Type 0 where
  pub tenant_id : Text
  pub source_id : Text
  pub object_key : Text
  pub filename : Text
  pub doc_type : DocType

abbrev pub Resolution : Type 0
Resolution = List SourceCall × Result IngestError FileConnector

-- The loop over the parts of a key.
unfoldable pub parts_valid : List Text → Bool
parts_valid [] = true
parts_valid (part ∷ parts) = if text_eq part (lit "..") then false else parts_valid parts

-- `validateObjectKey`: whether it returns no error.
unfoldable pub validate_object_key : Text → Bool
unfolding parts_valid is_empty has_prefix split
validate_object_key key =
    if is_empty key
    then false
    else if has_prefix key (lit "/") || has_prefix key (lit "tenant/")
    then false
    else parts_valid (split key (lit "/"))

-- The suffix from the last dot on.
abbrev pub longer : ℕ → Text → Option Text → Option Text
longer c s (some suffix) = some suffix
longer c s none = if c == b'.' then some (c ∷ s) else none

unfoldable pub last_dot : Text → Option Text
last_dot [] = none
last_dot (c ∷ s) = longer c s (last_dot s)

abbrev pub or_empty : Option Text → Text
or_empty none = []
or_empty (some suffix) = suffix

-- `extensionOf`.
unfoldable pub extension_of : Text → Text
unfolding last_dot
extension_of filename = or_empty (last_dot filename)

-- `extensionToDocType`.
unfoldable pub extension_to_doc_type : Text → DocType
extension_to_doc_type ext =
    if text_eq ext (lit ".pdf")
    then pdf
    else if text_eq ext (lit ".docx")
    then docx
    else if text_eq ext (lit ".csv")
    then csv
    else if text_eq ext (lit ".xlsx")
    then xlsx
    else if text_eq ext (lit ".txt") || text_eq ext (lit ".md")
    then text
    else unknown

abbrev pub sniffed : Option (List ℕ) → Result IngestError DocType
sniffed none = err peek_failed
sniffed (some []) = err peek_failed
sniffed (some (b ∷ bs)) = ok (if has_prefix (b ∷ bs) (lit "%PDF-") then pdf else unknown)

-- `sniffDocType`: reading the head of an empty object fails.
unfoldable pub sniff_doc_type :
    ConnectorEnv → Source → Text → List SourceCall × Result IngestError DocType
unfolding has_prefix
sniff_doc_type env src key = (read src.tenant_id key ∷ [], sniffed (env.get src.tenant_id key))

-- A permanent failure: the source is marked.
abbrev pub marked : Text → Text → ResolveCause → Resolution
marked tenant id cause = (mark_error tenant id ∷ [], err (resolution_failed cause))

-- What `buildFileConnector` does with the type of the document.
abbrev pub with_type : Source → FileUploadConfig → Result IngestError DocType → Resolution
with_type src cfg (err e) = ([], err e)
with_type src cfg (ok unknown) = marked src.tenant_id src.source_id unsupported_document_type
with_type src cfg (ok doc_type) = (
  [],
  ok (record {
    tenant_id = src.tenant_id;
    source_id = src.source_id;
    object_key = cfg.object_key;
    filename = cfg.filename;
    doc_type = doc_type;
  }),
)

abbrev pub after_calls : List SourceCall → Resolution → Resolution
after_calls calls r = (calls ++ r.0, r.1)

abbrev pub typed : ConnectorEnv → Source → FileUploadConfig → DocType → Resolution
unfolding sniff_doc_type
typed env src cfg unknown =
    let peek = sniff_doc_type env src cfg.object_key in
    after_calls peek.0 (with_type src cfg peek.1)
typed env src cfg doc_type = with_type src cfg (ok doc_type)

abbrev pub configured : ConnectorEnv → Source → Option FileUploadConfig → Resolution
unfolding validate_object_key extension_of extension_to_doc_type typed
configured env src none = marked src.tenant_id src.source_id invalid_config
configured env src (some cfg) =
    if is_empty cfg.object_key
    then marked src.tenant_id src.source_id missing_object_key
    else if not (validate_object_key cfg.object_key)
    then marked src.tenant_id src.source_id invalid_object_key
    else typed env src cfg (extension_to_doc_type (env.to_lower (extension_of cfg.filename)))

-- `buildFileConnector`.
unfoldable pub build_file_connector : ConnectorEnv → Source → Resolution
unfolding configured
build_file_connector env src = configured env src (env.parse_config src.config)

abbrev pub loaded : ConnectorEnv → Text → Text → Option Source → Resolution
unfolding build_file_connector
loaded env tenant id none = marked tenant id load_failed
loaded env tenant id (some src) =
    if not (text_eq src.tenant_id tenant)
    then marked tenant id foreign_source
    else if text_eq src.source_type (lit "file_upload")
    then build_file_connector env src
    else marked tenant src.source_id unsupported_source_type

-- `Resolve`.
unfoldable pub resolve : ConnectorEnv → Text → Text → Resolution
unfolding loaded
resolve env tenant id = loaded env tenant id (env.get_projection tenant id)

pub data ExtractError : Type 0 where
  bad_key read_failed : ExtractError
  parse_failed : ParseError → ExtractError

-- The name of a document type.
abbrev pub type_name : DocType → Text
type_name pdf = lit "pdf"
type_name docx = lit "docx"
type_name xlsx = lit "xlsx"
type_name text = lit "text"
type_name csv = lit "csv"
type_name unknown = lit "unknown"

abbrev pub one_document :
    FileConnector → Result ParseError Text → Result ExtractError (List RawDocument)
one_document c (err e) = err (parse_failed e)
one_document c (ok content) = ok (
    record {
      id = c.source_id;
      content = content;
      metadata =
          (lit "source", c.filename)
          ∷ (lit "document_type", type_name c.doc_type)
          ∷ (lit "file_path", c.object_key)
          ∷ [];
    }
    ∷ [])

-- What `Extract` makes of the object that it read.
unfoldable pub read_content :
    ParserEnv → FileConnector → Option (List ℕ) → Result ExtractError (List RawDocument)
unfolding parse
read_content env c none = err read_failed
read_content env c (some content) = one_document c (parse env c.doc_type content)

-- `Extract`, with the object store as an argument.
unfoldable pub extract :
    ParserEnv
    → (Text → Text → Option (List ℕ))
    → FileConnector
    → List SourceCall × Result ExtractError (List RawDocument)
unfolding validate_object_key read_content
extract env get c =
    if not (validate_object_key c.object_key)
    then ([], err bad_key)
    else (read c.tenant_id c.object_key ∷ [], read_content env c (get c.tenant_id c.object_key))
