-- ===== src/Knowledge/Store/Shelves.antt =====
-- The knowledge base as its callers see it: each tenant has a shelf for each source, with the source's
-- documents and chunks. ReplaceSource and DeleteTenantData of internal/knowledge/store.go put a shelf
-- in place and clear the shelves of a tenant, whatever the tables hold besides.
use agentic_demo.Prelude.{
  ◌≡◌, inl, inr, Bool, ◌&&◌, Option, none, some, List, [], ◌∷◌, Text, text_eq, eq_of_text_eq, All,
  Bool-cases, if◌then◌else◌, keep_if, arith,
}
use agentic_demo.Knowledge.Chunking.{Chunk}
use agentic_demo.Knowledge.Store.{
  Document, DocumentRow, ChunkRow, KnowledgeTables, StoreEnv, belongs,
}
use agentic_demo.Knowledge.Store.Insertion.{
  document_of, new_rows, DistinctDocuments, DistinctChunks, NewIn, HasDocument,
}

pub record Shelf : Type 0 where
  pub documents : Text → Option Document
  pub chunks : List ChunkRow

-- The abstract state: a shelf for each tenant and source.
abbrev pub Library : Type 0
Library = Text → Text → Shelf

abbrev pub on_shelf : Text → Text → Option DocumentRow → Option Document
on_shelf u s none = none
on_shelf u s (some row) =
    if text_eq row.tenant u && text_eq row.document.source s then some row.document else none

-- A chunk stands on the shelf of its document.
abbrev pub of_source : (Text → Option DocumentRow) → Text → Text → ChunkRow → Bool
of_source documents u s c = belongs u s (documents c.chunk.document_id)

-- The library that the tables represent.
unfoldable pub library : KnowledgeTables → Library
unfolding keep_if
library t u s = record {
  documents = λ k. on_shelf u s (t.documents k);
  chunks = keep_if (of_source t.documents u s) t.chunks;
}

-- The operation on the library that `ReplaceSource` stands for.
unfoldable pub shelved : StoreEnv → Text → Text → List Document → List Chunk → Library → Library
unfolding document_of new_rows
shelved env tenant source docs chunks lib u s =
    if text_eq tenant u && text_eq source s
    then record { documents = document_of docs; chunks = new_rows env tenant chunks }
    else lib u s

abbrev pub IsRow : Option DocumentRow → Type 0
IsRow none = ⊥
IsRow (some row) = Unit

-- The foreign key of the chunks: the document of every chunk is in the table.
abbrev pub Linked : KnowledgeTables → Type 0
Linked t = All (λ (c : ChunkRow). IsRow (t.documents c.chunk.document_id)) t.chunks

abbrev pub FreeFor : Text → Text → Option DocumentRow → Type 0
FreeFor tenant source none = Unit
FreeFor tenant source (some row) = (row.tenant ≡ tenant) × (row.document.source ≡ source)

-- What an ingestion hands over: documents of the source and their chunks, whose identifiers are
-- distinct.
pub record SourceBatch (source : Text) (docs : List Document) (chunks : List Chunk) : Type 0 where
  pub sources : All (λ (d : Document). d.source ≡ source) docs
  pub distinct_documents : DistinctDocuments docs
  pub origins : All (HasDocument docs) chunks
  pub distinct_chunks : DistinctChunks chunks

-- The identifiers are new, or those of documents that are replaced.
pub record Room (t : KnowledgeTables) (tenant source : Text) (docs : List Document)
    (chunks : List Chunk) : Type 0 where
  pub free_documents : All (λ (d : Document). FreeFor tenant source (t.documents d.id)) docs
  pub new_chunks : All (NewIn t.chunks) chunks

pub found-source :
    (docs : List Document) (source k : Text) (d : Document)
    → All (λ (x : Document). x.source ≡ source) docs
    → document_of docs k ≡ some d
    → d.source ≡ source
unfolding document_of
found-source [] source k d h e = absurd (ground arith)
found-source (x ∷ docs) source k d h e = elim (Bool-cases (text_eq k x.id)) [
  | inl f ↦ let g = rw f at e in let i : x ≡ d = cc in rw (← i) h.0
  | inr f ↦ let g = rw f at e in found-source docs source k d h.1 g
]

pub found-free :
    (t : KnowledgeTables) (tenant source : Text) (docs : List Document) (k : Text) (d : Document)
    → All (λ (x : Document). FreeFor tenant source (t.documents x.id)) docs
    → document_of docs k ≡ some d
    → FreeFor tenant source (t.documents k)
unfolding document_of
found-free t tenant source [] k d h e = absurd (ground arith)
found-free t tenant source (x ∷ docs) k d h e = elim (Bool-cases (text_eq k x.id)) [
  | inl f ↦ rw (eq_of_text_eq k x.id f) h.0
  | inr f ↦ let g = rw f at e in found-free t tenant source docs k d h.1 g
]
