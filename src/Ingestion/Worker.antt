-- ===== src/Ingestion/Worker.antt =====
-- internal/ingestion/worker.go: `Ingest` composes the resolver, the connector, the chunker, the removal
-- of duplicates, the knowledge store and the emitter of usage. The identifiers of the chunks and
-- the clock are in the environment, by the number of the chunk.
pub mod Stored
use agentic_demo.Prelude.{
  ℕ, suc, Option, none, some, List, [], ◌∷◌, ◌++◌, map, length, Text, lit, Result, ok, err,
}
use agentic_demo.Knowledge.Chunking.{
  RecursiveChunker, RawDocument, Chunk, Outcome, finished, panics, no_fuel, chunk_all, value_of,
}
use agentic_demo.Knowledge.Store.{
  Document, KnowledgeTables, StoreError, StoreEnv, StoreStep, replace_source,
}
use agentic_demo.Usage.Emitter.{UsageEvent, embedding}
use agentic_demo.Ingestion.Parser.{ParserEnv}
use agentic_demo.Ingestion.Connector.{
  IngestError, ConnectorEnv, FileConnector, ExtractError, resolve, extract,
}
use agentic_demo.Ingestion.Dedup.{dedup}

-- `get` is the object store at the time of the extraction.
pub record WorkerEnv : Type 0 where
  pub connectors : ConnectorEnv
  pub parsers : ParserEnv
  pub get : Text → Text → Option (List ℕ)
  pub chunker : RecursiveChunker
  pub hash : Text → Text
  pub new_id : ℕ → Text
  pub now : ℕ → ℕ
  pub store : StoreEnv
  pub embedding_model : Text

-- The chunker may panic, or never come to an end.
pub data WorkerError : Type 0 where
  resolve_failed : IngestError → WorkerError
  extract_failed : ExtractError → WorkerError
  chunker_panics chunker_stuck no_documents : WorkerError
  store_failed : StoreError → WorkerError

-- The tables of documents and chunks, the events emitted, and the number of chunks or the error.
pub record Ingestion : Type 0 where
  pub tables : KnowledgeTables
  pub events : List UsageEvent
  pub result : Result WorkerError ℕ

abbrev pub failing : KnowledgeTables → WorkerError → Ingestion
failing t e = record { tables = t; events = []; result = err e }

-- The loop that assigns identifiers and timestamps.
unfoldable pub assigned : WorkerEnv → ℕ → List Chunk → List Chunk
assigned env n [] = []
assigned env n (c ∷ cs) = record c { id = env.new_id n; date = env.now n } ∷ assigned env (suc n) cs

abbrev pub to_document : RawDocument → Document
unfolding value_of
to_document d = record {
  id = d.id;
  source = value_of d.metadata (lit "source");
  content = d.content;
  metadata = d.metadata;
}

abbrev pub embedding_event : WorkerEnv → Text → ℕ → UsageEvent
embedding_event env tenant n = record {
  kind = embedding;
  tenant_id = tenant;
  llm_usage = none;
  tool_usage = none;
  embedding_usage = some (record { model = env.embedding_model; chunks_processed = n });
}

abbrev pub reported : WorkerEnv → Text → ℕ → StoreStep → Ingestion
reported env tenant n (t, err e) = failing t (store_failed e)
reported env tenant n (t, ok u) = record {
  tables = t;
  events = embedding_event env tenant n ∷ [];
  result = ok n;
}

abbrev pub stored : WorkerEnv → Text → KnowledgeTables → List Document → List Chunk → Ingestion
unfolding replace_source
stored env tenant t [] chunks = failing t no_documents
stored env tenant t (d ∷ docs) chunks =
    reported env tenant (length chunks)
      (replace_source env.store tenant d.source t (d ∷ docs) chunks)

abbrev pub chunked :
    WorkerEnv → Text → KnowledgeTables → List RawDocument → Outcome (List Chunk) → Ingestion
unfolding to_document stored assigned dedup
chunked env tenant t docs panics = failing t chunker_panics
chunked env tenant t docs no_fuel = failing t chunker_stuck
chunked env tenant t docs (finished chunks) =
    stored env tenant t (map to_document docs) (assigned env 0 (dedup env.hash [] chunks))

abbrev pub extracted :
    WorkerEnv → Text → KnowledgeTables → Result ExtractError (List RawDocument) → Ingestion
unfolding chunked chunk_all
extracted env tenant t (err e) = failing t (extract_failed e)
extracted env tenant t (ok docs) = chunked env tenant t docs (chunk_all env.chunker docs)

abbrev pub connected :
    WorkerEnv → Text → KnowledgeTables → Result IngestError FileConnector → Ingestion
unfolding extracted extract
connected env tenant t (err e) = failing t (resolve_failed e)
connected env tenant t (ok c) = extracted env tenant t (extract env.parsers env.get c).1

-- `Ingest`. What the resolver does to the row of the source, a call of MarkError, is among the calls of
-- `resolve`, and is no part of these tables.
unfoldable pub ingest : WorkerEnv → Text → Text → KnowledgeTables → Ingestion
unfolding connected resolve
ingest env tenant source_id t = connected env tenant t (resolve env.connectors tenant source_id).1
