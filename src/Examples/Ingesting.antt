-- ===== src/Examples/Ingesting.antt =====
-- Inputs for the knowledge store and the ingestion: a source of one uploaded text.
use agentic_demo.Prelude.{
  suc, ◌≡◌, refl, ap, true, false, none, some, List, [], ◌∷◌, map, Text, lit, text_eq,
  ne_of_text_eq, length, if◌then◌else◌,
}
use agentic_demo.Knowledge.Chunking.{Chunk}
use agentic_demo.Knowledge.Store.{
  Document, Vector, ChunkRow, KnowledgeTables, StoreEnv, replace_source, delete_tenant_data,
}
use agentic_demo.Knowledge.Store.Insertion.{document_of}
use agentic_demo.Knowledge.Store.Shelves.{Linked, SourceBatch, Room, shelved}
use agentic_demo.Knowledge.Store.Refinement.{
  Refines, replace_source-Refines, cleared, delete_tenant_data-Refines,
}
use agentic_demo.Knowledge.Store.Success.{Healthy, Succeeds, replace_source-Succeeds}
use agentic_demo.Knowledge.Store.Query.{QueryFilters}
use agentic_demo.Knowledge.Store.Query.Answers.{Answers}
use agentic_demo.Ingestion.Parser.Pdf.{normalize_pdf_text}
use agentic_demo.Ingestion.Parser.Pdf.Characters.{squeeze, normalize_pdf_text-squeeze}
use agentic_demo.Ingestion.Connector.{Source, ConnectorEnv, resolve}
use agentic_demo.Ingestion.Connector.Marks.{meant, Resolved, resolve-Resolved}
use agentic_demo.Ingestion.Worker.{WorkerEnv}

abbrev store_env : StoreEnv
store_env = record {
  begin_ok = true;
  delete_ok = true;
  commit_ok = true;
  document_ok = λ d. true;
  chunk_ok = λ c v. true;
  embed = λ texts. some (map (λ s. 1 ∷ []) texts);
  model = lit "text-embedding";
}

abbrev document : Text → Document
document content = record { id = lit "s1"; source = lit "a.txt"; content = content; metadata = [] }

abbrev chunk : Text → Text → Chunk
chunk id content = record {
  id = id;
  content = content;
  source = lit "a.txt";
  document_type = lit "text";
  document_id = lit "s1";
  date = 0;
  metadata = [];
}

-- The source has been ingested before.
abbrev tables : KnowledgeTables
tables = record {
  documents = λ k.
      if text_eq k (lit "s1")
      then some (record { tenant = lit "t_1"; document = document (lit "old") })
      else none;
  chunks =
      record {
        tenant = lit "t_1";
        chunk = chunk (lit "c0") (lit "old");
        embedding = 1 ∷ [];
        model = lit "m";
      }
      ∷ [];
}

tables-Linked : Linked tables
unfolding text_eq
tables-Linked = (tt, tt)

abbrev documents : List Document
documents = document (lit "new") ∷ []

abbrev chunks : List Chunk
chunks = chunk (lit "c1") (lit "ne") ∷ chunk (lit "c2") (lit "w") ∷ []

ids_apart :
    (text_eq (lit "c1") (lit "c2") ≡ false)
    × (text_eq (lit "c0") (lit "c1") ≡ false)
    × (text_eq (lit "c0") (lit "c2") ≡ false)
unfolding text_eq
ids_apart = (refl, refl, refl)

batch : SourceBatch (lit "a.txt") documents chunks
unfolding document_of text_eq
batch = record {
  sources = (refl, tt);
  distinct_documents = (tt, tt);
  origins = ((document (lit "new"), refl), ((document (lit "new"), refl), tt));
  distinct_chunks = ((ne_of_text_eq (lit "c1") (lit "c2") ids_apart.0, tt), (tt, tt));
}

room : Room tables (lit "t_1") (lit "a.txt") documents chunks
unfolding text_eq
room = record {
  free_documents = ((refl, refl), tt);
  new_chunks = (
    (ne_of_text_eq (lit "c0") (lit "c1") ids_apart.1, tt),
    ((ne_of_text_eq (lit "c0") (lit "c2") ids_apart.2, tt), tt),
  );
}

replace_source-Refines_example :
    Refines tables
      (shelved store_env (lit "t_1") (lit "a.txt") documents chunks)
      (replace_source store_env (lit "t_1") (lit "a.txt") tables documents chunks)
replace_source-Refines_example =
    replace_source-Refines store_env tables (lit "t_1") (lit "a.txt") documents chunks tables-Linked
      batch room

delete_tenant_data-Refines_example :
    Refines tables (cleared (lit "t_1")) (delete_tenant_data store_env (lit "t_1") tables)
delete_tenant_data-Refines_example =
    delete_tenant_data-Refines store_env tables (lit "t_1") tables-Linked

length-vectors :
    (texts : List Text) → length (map {B = Vector} (λ (s : Text). 1 ∷ []) texts) ≡ length texts
length-vectors [] = refl
length-vectors (s ∷ texts) = ap suc (length-vectors texts)

healthy : Healthy store_env
healthy = record {
  begins = refl;
  deletes = refl;
  commits = refl;
  documents = λ d. refl;
  chunks = λ c v. refl;
  embeds = length-vectors;
}

replace_source-Succeeds_example :
    Succeeds (replace_source store_env (lit "t_1") (lit "a.txt") tables documents chunks)
replace_source-Succeeds_example =
    replace_source-Succeeds store_env healthy (lit "t_1") (lit "a.txt") tables documents chunks
      batch room

abbrev no_filters : QueryFilters
no_filters = record { source = []; date_from = 0; date_to = 0 }

-- An index that finds the first row only.
abbrev first_row : Vector → List ChunkRow → List ChunkRow
first_row v [] = []
first_row v (r ∷ rows) = r ∷ []

normalize_pdf_text-squeeze_example :
    squeeze (normalize_pdf_text (lit "A well-\nknown\n\nfact."))
    ≡ squeeze (lit "A well-\nknown\n\nfact.")
normalize_pdf_text-squeeze_example = normalize_pdf_text-squeeze (lit "A well-\nknown\n\nfact.")

abbrev source : Text → Text → Source
source tenant id = record {
  source_id = id;
  tenant_id = tenant;
  source_type = lit "file_upload";
  config = lit "{}";
  credentials = none;
}

abbrev connector_env : ConnectorEnv
connector_env = record {
  get_projection = λ tenant id. some (source tenant id);
  parse_config = λ raw. some (record { filename = lit "a.txt"; object_key = lit "up/a.txt" });
  get = λ tenant key. some (lit "content");
  to_lower = λ s. s;
}

resolve-Resolved_example :
    Resolved
      (lit "t_1")
      (meant (lit "t_1") (lit "s1") (connector_env.get_projection (lit "t_1") (lit "s1")))
      (resolve connector_env (lit "t_1") (lit "s1"))
resolve-Resolved_example = resolve-Resolved connector_env (lit "t_1") (lit "s1")

abbrev worker_env : WorkerEnv
worker_env = record {
  connectors = connector_env;
  parsers = record {
    pdf_pages = λ bytes. none;
    zip_entries = λ bytes. none;
    sheets = λ bytes. none;
    decode = λ bytes. bytes;
  };
  get = λ tenant key. some (lit "content");
  chunker = record { chunk_size = 1000; chunk_overlap = 200 };
  hash = λ s. s;
  new_id = λ n. n ∷ [];
  now = λ n. 1;
  store = store_env;
  embedding_model = lit "text-embedding";
}

abbrev empty_tables : KnowledgeTables
empty_tables = record { documents = λ k. none; chunks = [] }
