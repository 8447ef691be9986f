-- ===== src/Ingestion/Worker/Stored.antt =====
-- What Ingest of internal/ingestion/worker.go leaves behind.
use agentic_demo.Prelude.{
  ℕ, ◌<◌, ◌≡◌, ◌≢◌, List, [], ◌∷◌, ◌++◌, map, length, Text, lit, All, Result, ok, err,
}
use agentic_demo.Knowledge.Chunking.{RawDocument, Chunk, finished, value_of, make_chunk, contents}
use agentic_demo.Knowledge.Store.{KnowledgeTables, ChunkRow}
use agentic_demo.Knowledge.Store.Shelves.{library, shelved, Linked}
use agentic_demo.Usage.Emitter.{UsageEvent}
use agentic_demo.Ingestion.Connector.{FileConnector, ExtractError, resolve, extract, type_name}
use agentic_demo.Ingestion.Dedup.{dedup}
use agentic_demo.Ingestion.Worker.{
  WorkerEnv, Ingestion, assigned, to_document, embedding_event, WorkerError,
}

-- What a chunk has of its document.
abbrev Of : RawDocument → Chunk → Type 0
Of doc c = (c.source ≡ value_of doc.metadata (lit "source")) × (c.document_id ≡ doc.id)

-- The document of a connector.
abbrev raw_document : FileConnector → Text → RawDocument
raw_document c content = record {
  id = c.source_id;
  content = content;
  metadata =
      (lit "source", c.filename)
      ∷ (lit "document_type", type_name c.doc_type)
      ∷ (lit "file_path", c.object_key)
      ∷ [];
}

abbrev One : FileConnector → Result ExtractError (List RawDocument) → Type 0
One c (err e) = Unit
One c (ok docs) = (content : Text) × (docs ≡ raw_document c content ∷ [])

-- The chunks that are stored of a document that is cut into texts.
abbrev pub chunks_of : WorkerEnv → RawDocument → List Text → List Chunk
unfolding assigned dedup make_chunk
chunks_of env doc texts = assigned env 0 (dedup env.hash [] (map (make_chunk doc) texts ++ []))

-- The document, with the chunks of the texts that the chunker cuts it into, has taken the place of what
-- was there under its source name; the number of chunks is emitted.
pub record Delivered (env : WorkerEnv) (tenant : Text) (before : KnowledgeTables)
    (doc : RawDocument) (after : KnowledgeTables) (events : List UsageEvent) (n : ℕ) : Type 0 where
  pub texts : List Text
  pub is_cut : contents env.chunker doc.content ≡ finished texts
  pub is_replaced :
      library after
      ≡ shelved env.store tenant
          (value_of doc.metadata (lit "source"))
          (to_document doc ∷ [])
          (chunks_of env doc texts)
          (library before)
  pub linked : Linked after
  pub counted : n ≡ length (chunks_of env doc texts)
  pub emitted : events ≡ embedding_event env tenant n ∷ []

-- An ingestion of a document, or of one that is not there, ends.
abbrev pub EndedAs :
    WorkerEnv
    → Text
    → KnowledgeTables
    → (RawDocument → Type 0)
    → KnowledgeTables
    → List UsageEvent
    → Result WorkerError ℕ
    → Type 0
EndedAs env tenant before Is after events (err e) = (after ≡ before) × (events ≡ [])
EndedAs env tenant before Is after events (ok n) =
    (doc : RawDocument) × Is doc × Delivered env tenant before doc after events n

abbrev EndedWith : WorkerEnv → Text → KnowledgeTables → (RawDocument → Type 0) → Ingestion → Type 0
EndedWith env tenant before Is i = EndedAs env tenant before Is i.tables i.events i.result

-- The document that the connector of the resolved source extracts.
abbrev pub IsDocument : WorkerEnv → Text → Text → RawDocument → Type 0
IsDocument env tenant id doc =
    (c : FileConnector) × (content : Text) × ((resolve env.connectors tenant id).1 ≡ ok c)
    × ((extract env.parsers env.get c).1 ≡ ok (doc ∷ []))
    × (doc ≡ raw_document c content)

abbrev pub Ended : WorkerEnv → Text → Text → KnowledgeTables → Ingestion → Type 0
Ended env tenant id before i = EndedWith env tenant before (IsDocument env tenant id) i

-- The identifiers of chunks are new.
pub record FreshIds (env : WorkerEnv) (t : KnowledgeTables) : Type 0 where
  pub distinct : (i j : ℕ) → i < j → env.new_id i ≢ env.new_id j
  pub unused : (i : ℕ) → All (λ (r : ChunkRow). r.chunk.id ≢ env.new_id i) t.chunks
