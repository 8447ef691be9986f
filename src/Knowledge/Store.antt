-- ===== src/Knowledge/Store.antt =====
-- internal/knowledge/store.go over the tables `documents` and `chunks` of sql/migrations, whose keys
-- are the identifiers. A chunk's document must be there, and the deletion of a document deletes its
-- chunks. The embedder and the failures of the database are in the environment; the metadata of a
-- document is a map of strings, which is always encoded.
pub mod Insertion
pub mod Query
pub mod Success
pub mod Shelves
pub mod Replacement
pub mod Refinement
use agentic_demo.Prelude.{
  ℕ, suc, ◌+◌, min, Bool, true, false, ◌&&◌, ◌||◌, not, Option, none, some, List, [], ◌∷◌, map,
  Text, text_eq, is_empty, take, keep_if, leb, ltb, Result, ok, err, ◌>>=◌, if◌then◌else◌, ◌==◌,
}
use agentic_demo.Knowledge.Chunking.{Chunk}

pub record Document : Type 0 where
  pub id : Text
  pub source : Text
  pub content : Text
  pub metadata : List (Text × Text)

abbrev pub Vector : Type 0
Vector = List ℕ

pub record DocumentRow : Type 0 where
  pub tenant : Text
  pub document : Document

pub record ChunkRow : Type 0 where
  pub tenant : Text
  pub chunk : Chunk
  pub embedding : Vector
  pub model : Text

pub record KnowledgeTables : Type 0 where
  pub documents : Text → Option DocumentRow
  pub chunks : List ChunkRow

-- `panics` is an index out of range in the embedder's answer.
pub data StoreError : Type 0 where
  begin_failed delete_failed document_failed embed_failed chunk_failed commit_failed : StoreError
  document_missing panics : StoreError

-- Which calls of the database succeed, and what the embedder answers.
pub record StoreEnv : Type 0 where
  pub begin_ok : Bool
  pub delete_ok : Bool
  pub commit_ok : Bool
  pub document_ok : Document → Bool
  pub chunk_ok : Chunk → Vector → Bool
  pub embed : List Text → Option (List Vector)
  pub model : Text

abbrev pub StoreStep : Type 0
StoreStep = KnowledgeTables × Result StoreError (Unit {0})

-- A row that is there keeps its tenant and its source.
abbrev pub merged : Text → Document → Option DocumentRow → DocumentRow
merged tenant doc none = record { tenant = tenant; document = doc }
merged tenant doc (some row) = record {
  tenant = row.tenant;
  document = record {
    id = row.document.id;
    source = row.document.source;
    content = doc.content;
    metadata = doc.metadata;
  };
}

-- `InsertDocument`.
unfoldable pub insert_document : KnowledgeTables → Text → Document → KnowledgeTables
insert_document t tenant doc = record t {
  documents =
      λ k. if text_eq k doc.id then some (merged tenant doc (t.documents k)) else t.documents k;
}

abbrev pub replaced_chunk : ChunkRow → ChunkRow → ChunkRow
replaced_chunk old new = record {
  tenant = old.tenant;
  chunk = record {
    id = old.chunk.id;
    content = new.chunk.content;
    source = old.chunk.source;
    document_type = old.chunk.document_type;
    document_id = new.chunk.document_id;
    date = new.chunk.date;
    metadata = new.chunk.metadata;
  };
  embedding = new.embedding;
  model = new.model;
}

-- `InsertChunk`.
unfoldable pub upsert : List ChunkRow → ChunkRow → List ChunkRow
upsert [] new = new ∷ []
upsert (row ∷ rows) new =
    if text_eq row.chunk.id new.chunk.id
    then replaced_chunk row new ∷ rows
    else row ∷ upsert rows new

abbrev pub is_there : Option DocumentRow → Bool
is_there none = false
is_there (some row) = true

abbrev pub chunk_row : StoreEnv → Text → Chunk → Vector → ChunkRow
chunk_row env tenant chunk v = record {
  tenant = tenant;
  chunk = chunk;
  embedding = v;
  model = env.model;
}

-- The loop over the chunks and their embeddings.
unfoldable pub insert_chunks :
    StoreEnv → Text → KnowledgeTables → List Chunk → List Vector → StoreStep
unfolding upsert
insert_chunks env tenant t [] vs = (t, ok tt)
insert_chunks env tenant t (c ∷ cs) [] = (t, err panics)
insert_chunks env tenant t (c ∷ cs) (v ∷ vs) =
    let rest =
      insert_chunks env tenant (record t { chunks = upsert t.chunks (chunk_row env tenant c v) }) cs
        vs in
    if not (is_there (t.documents c.document_id))
    then (t, err document_missing)
    else if not (env.chunk_ok c v)
    then (t, err chunk_failed)
    else rest

abbrev pub embedded :
    StoreEnv → Text → KnowledgeTables → List Chunk → Option (List Vector) → StoreStep
unfolding insert_chunks
embedded env tenant t cs none = (t, err embed_failed)
embedded env tenant t cs (some vs) = insert_chunks env tenant t cs vs

abbrev pub with_chunks : StoreEnv → Text → KnowledgeTables → List Chunk → StoreStep
unfolding embedded
with_chunks env tenant t [] = (t, ok tt)
with_chunks env tenant t (c ∷ cs) =
    embedded env tenant t (c ∷ cs) (env.embed (map (λ (x : Chunk). x.content) (c ∷ cs)))

-- `insert`.
unfoldable pub insert : StoreEnv → Text → KnowledgeTables → List Document → List Chunk → StoreStep
unfolding insert_document with_chunks
insert env tenant t [] chunks = with_chunks env tenant t chunks
insert env tenant t (doc ∷ docs) chunks =
    let rest = insert env tenant (insert_document t tenant doc) docs chunks in
    if env.document_ok doc then rest else (t, err document_failed)

-- `Store`: without a transaction.
unfoldable pub store : StoreEnv → Text → KnowledgeTables → List Document → List Chunk → StoreStep
unfolding insert
store env tenant t docs [] = (t, ok tt)
store env tenant t docs (c ∷ cs) = insert env tenant t docs (c ∷ cs)

abbrev pub belongs : Text → Text → Option DocumentRow → Bool
belongs tenant source none = false
belongs tenant source (some row) = text_eq row.tenant tenant && text_eq row.document.source source

-- A deletion of the documents whose rows are `gone`, and of their chunks.
unfoldable pub delete_where : (Option DocumentRow → Bool) → KnowledgeTables → KnowledgeTables
unfolding keep_if
delete_where gone t = record {
  documents = λ k. if gone (t.documents k) then none else t.documents k;
  chunks = keep_if (λ (c : ChunkRow). not (gone (t.documents c.chunk.document_id))) t.chunks;
}

abbrev pub committed : StoreEnv → KnowledgeTables → StoreStep → StoreStep
committed env before (after, err e) = (before, err e)
committed env before (after, ok u) =
    if env.commit_ok then (after, ok tt) else (before, err commit_failed)

-- `ReplaceSource`: what fails is rolled back.
unfoldable pub replace_source :
    StoreEnv → Text → Text → KnowledgeTables → List Document → List Chunk → StoreStep
unfolding delete_where insert
replace_source env tenant source t docs chunks =
    if not env.begin_ok
    then (t, err begin_failed)
    else if not env.delete_ok
    then (t, err delete_failed)
    else committed env t (insert env tenant (delete_where (belongs tenant source) t) docs chunks)

abbrev pub owned : Text → Option DocumentRow → Option Document
owned tenant none = none
owned tenant (some row) = if text_eq row.tenant tenant then some row.document else none

-- `GetDocument`.
unfoldable pub get_document : KnowledgeTables → Text → Text → Option Document
get_document t tenant id = owned tenant (t.documents id)

abbrev pub belongs_to : Text → Option DocumentRow → Bool
belongs_to tenant none = false
belongs_to tenant (some row) = text_eq row.tenant tenant

-- `DeleteTenantData`.
unfoldable pub delete_tenant_data : StoreEnv → Text → KnowledgeTables → StoreStep
unfolding delete_where
delete_tenant_data env tenant t =
    if env.delete_ok then (delete_where (belongs_to tenant) t, ok tt) else (t, err delete_failed)
