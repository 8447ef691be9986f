-- ===== src/Reports/Worker.antt =====
-- internal/reports/worker.go: a report from the tenant's documents, by the knowledge store and the
-- agent loop. The order of the database, the text of a similarity, the system prompt, identifiers and
-- the clock are arguments.
pub mod Retrieval
pub mod Context
pub mod Firsts
use agentic_demo.Prelude.{
  ℕ, Bool, true, false, Option, none, some, List, [], ◌∷◌, map, Text, is_empty, Result, ok, err,
  pos,
}
use agentic_demo.Knowledge.Chunking.{Chunk}
use agentic_demo.Knowledge.Store.{
  Document, ChunkRow, KnowledgeTables, StoreError, StoreEnv, get_document,
}
use agentic_demo.Knowledge.Store.Query.{QueryFilters, Order, query}
use agentic_demo.Reports.AgentLoop.{UsageEvent, AgentResult, AgentError, AgentEnv, State, seen, run}
use agentic_demo.Reports.Prompts.{
  ReportType, ReportConfig, RetrievedContext, build_prompt, build_context,
}

-- The chunk as a document of its own.
abbrev pub fragment : Chunk → Document
fragment c = record { id = c.id; source = c.source; content = c.content; metadata = [] }

abbrev pub or_fragment : Chunk → Option Document → Document
or_fragment c none = fragment c
or_fragment c (some doc) = doc

abbrev pub context_of : (Chunk → Text) → Chunk → Document → RetrievedContext
context_of score c doc = record {
  source = c.source;
  document_type = c.document_type;
  similarity = score c;
  document = doc;
}

-- The loop of `expandDocuments`; `known` holds the documents that are there already.
unfoldable pub expand_from :
    (Text → Option Document) → (Chunk → Text) → List Text → List Chunk → List RetrievedContext
unfolding is_empty seen
expand_from find score known [] = []
expand_from find score known (c ∷ cs) = elim (is_empty c.document_id) [
  | true ↦ context_of score c (fragment c) ∷ expand_from find score known cs
  | false ↦ elim (seen c.document_id known) [
    | true ↦ expand_from find score known cs
    | false ↦
        context_of score c (or_fragment c (find c.document_id))
        ∷ expand_from find score (c.document_id ∷ known) cs
  ]
]

-- `expandDocuments`.
unfoldable pub expand_documents :
    (Chunk → Text) → KnowledgeTables → Text → List Chunk → List RetrievedContext
unfolding expand_from get_document
expand_documents score t tenant chunks = expand_from (get_document t tenant) score [] chunks

pub record Report : Type 0 where
  pub id : Text
  pub content : Text
  pub type : ReportType
  pub date : ℕ
  pub metadata : AgentResult

pub data ReportError : Type 0 where
  gather_failed : StoreError → ReportError
  agent_failed : AgentError → ReportError

pub record ReportEnv : Type 0 where
  pub order : Order
  pub store : StoreEnv
  pub score : Chunk → Text
  pub agent : AgentEnv
  pub system_prompt : ReportConfig → Text
  pub new_id : Text
  pub now : ℕ

-- The usage events, and the report.
abbrev pub Reported : Type 0
Reported = List UsageEvent × Result ReportError Report

abbrev pub as_report : ReportEnv → ReportConfig → State × Result AgentError AgentResult → Reported
as_report env config (s, err e) = (s.events, err (agent_failed e))
as_report env config (s, ok r) = (
  s.events,
  ok (record {
    id = env.new_id;
    content = r.content;
    type = config.type;
    date = env.now;
    metadata = r;
  }),
)

-- The documents behind the chunks that the query finds.
abbrev pub retrieved : ReportEnv → KnowledgeTables → Text → List ChunkRow → List RetrievedContext
unfolding expand_documents
retrieved env t tenant rows =
    expand_documents env.score t tenant (map (λ (r : ChunkRow). r.chunk) rows)

abbrev pub after_query :
    ReportEnv → KnowledgeTables → Text → ReportConfig → Result StoreError (List ChunkRow) → Reported
unfolding retrieved build_context run
after_query env t tenant config (err e) = ([], err (gather_failed e))
after_query env t tenant config (ok rows) =
    as_report env config
      (run env.agent (env.system_prompt config) (build_context (retrieved env t tenant rows)))

abbrev pub unfiltered : QueryFilters
unfiltered = record { source = []; date_from = 0; date_to = 0 }

-- `GenerateReport`.
unfoldable pub generate_report : ReportEnv → KnowledgeTables → Text → ReportConfig → Reported
unfolding build_prompt query after_query
generate_report env t tenant config =
    after_query env t tenant config
      (query env.order env.store t tenant (build_prompt config) (pos 10) unfiltered)
