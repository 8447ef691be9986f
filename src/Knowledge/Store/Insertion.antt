-- ===== src/Knowledge/Store/Insertion.antt =====
-- What `insert` of internal/knowledge/store.go leaves in the tables when it succeeds.
use agentic_demo.Prelude.{
  ◌≡◌, ◌≢◌, refl, sym, inl, inr, ◌∙◌, ap, not, Option, none, some, List, [], ◌∷◌, ◌++◌, map, Text,
  text_eq, text_eq-ne, eq_of_text_eq, text_eq_refl, All, All-map, All-both, ok, err, if_both,
  Bool-cases, append_assoc, append-nil, if◌then◌else◌,
}
use agentic_demo.Knowledge.Chunking.{Chunk}
use agentic_demo.Knowledge.Store.{
  Document, Vector, DocumentRow, ChunkRow, KnowledgeTables, StoreEnv, StoreStep, insert_document,
  upsert, is_there, chunk_row, insert_chunks, embedded, with_chunks, insert,
}

-- A property of the tables behind a step that succeeds.
abbrev pub Ends : (KnowledgeTables → Type 0) → StoreStep → Type 0
Ends P (after, ok u) = P after
Ends P (after, err e) = Unit

pub Ends-map :
    (P Q : KnowledgeTables → Type 0) (s : StoreStep)
    → ((after : KnowledgeTables) → P after → Q after)
    → Ends P s
    → Ends Q s
Ends-map P Q (after, ok u) f h = f after h
Ends-map P Q (after, err e) f h = tt

-- The tables with rows of chunks added.
abbrev pub Added : KnowledgeTables → List ChunkRow → KnowledgeTables → Type 0
Added t rows after = after ≡ record t { chunks = t.chunks ++ rows }

-- The document with an identifier.
unfoldable pub document_of : List Document → Text → Option Document
document_of [] k = none
document_of (d ∷ ds) k = if text_eq k d.id then some d else document_of ds k

abbrev pub placed : Text → Option Document → Option DocumentRow → Option DocumentRow
placed tenant none old = old
placed tenant (some d) old = some (record { tenant = tenant; document = d })

unfoldable pub with_documents : KnowledgeTables → Text → List Document → KnowledgeTables
with_documents t tenant [] = t
with_documents t tenant (d ∷ ds) = with_documents (insert_document t tenant d) tenant ds

abbrev pub zip_rows : StoreEnv → Text → List Chunk → List Vector → List ChunkRow
zip_rows env tenant [] vs = []
zip_rows env tenant (c ∷ cs) [] = []
zip_rows env tenant (c ∷ cs) (v ∷ vs) = chunk_row env tenant c v ∷ zip_rows env tenant cs vs

abbrev pub rows_of : StoreEnv → Text → List Chunk → Option (List Vector) → List ChunkRow
rows_of env tenant cs none = []
rows_of env tenant cs (some vs) = zip_rows env tenant cs vs

-- The rows of the chunks, with their embeddings.
unfoldable pub new_rows : StoreEnv → Text → List Chunk → List ChunkRow
new_rows env tenant cs = rows_of env tenant cs (env.embed (map (λ (x : Chunk). x.content) cs))

abbrev pub DistinctDocuments : List Document → Type 0
DistinctDocuments [] = Unit
DistinctDocuments (d ∷ ds) = All (λ (x : Document). x.id ≢ d.id) ds × DistinctDocuments ds

abbrev pub DistinctChunks : List Chunk → Type 0
DistinctChunks [] = Unit
DistinctChunks (c ∷ cs) = All (λ (x : Chunk). c.id ≢ x.id) cs × DistinctChunks cs

-- No row has the identifier of the chunk.
abbrev pub NewIn : List ChunkRow → Chunk → Type 0
NewIn rows c = All (λ (r : ChunkRow). r.chunk.id ≢ c.id) rows

-- The document of a chunk is among those given.
abbrev pub HasDocument : List Document → Chunk → Type 0
HasDocument docs c = (d : Document) × (document_of docs c.document_id ≡ some d)

upsert-new :
    (env : StoreEnv) (tenant : Text) (rows : List ChunkRow) (c : Chunk) (v : Vector)
    → NewIn rows c
    → upsert rows (chunk_row env tenant c v) ≡ rows ++ (chunk_row env tenant c v ∷ [])
unfolding upsert
upsert-new env tenant [] c v h = refl
upsert-new env tenant (r ∷ rows) c v h =
    rw (text_eq-ne r.chunk.id c.id h.0, upsert-new env tenant rows c v h.1)

NewIn-snoc :
    (rows : List ChunkRow) (r : ChunkRow) (c : Chunk)
    → NewIn rows c
    → r.chunk.id ≢ c.id
    → NewIn (rows ++ (r ∷ [])) c
NewIn-snoc [] r c h k = (k, tt)
NewIn-snoc (x ∷ rows) r c h k = (h.0, NewIn-snoc rows r c h.1 k)

insert_chunks-Ends :
    (env : StoreEnv) (tenant : Text) (t : KnowledgeTables) (cs : List Chunk) (vs : List Vector)
    → DistinctChunks cs
    → All (NewIn t.chunks) cs
    → Ends (Added t (zip_rows env tenant cs vs)) (insert_chunks env tenant t cs vs)
unfolding insert_chunks
insert_chunks-Ends env tenant t [] vs d n = rw (append-nil t.chunks)
insert_chunks-Ends env tenant t (c ∷ cs) [] d n = tt
insert_chunks-Ends env tenant t (c ∷ cs) (v ∷ vs) d n =
    let row = chunk_row env tenant c v in
    let t' : KnowledgeTables = record t { chunks = upsert t.chunks row } in
    let e : t'.chunks ≡ t.chunks ++ (row ∷ []) = upsert-new env tenant t.chunks c v n.0 in
    let fresh : All (NewIn t'.chunks) cs =
      All-map (λ (x : Chunk). NewIn t.chunks x × (c.id ≢ x.id)) (NewIn t'.chunks) cs
        (λ x p. rw e (NewIn-snoc t.chunks row x p.0 p.1))
        (All-both (NewIn t.chunks) (λ (x : Chunk). c.id ≢ x.id) cs n.1 d.0) in
    let goal = Ends (Added t (zip_rows env tenant (c ∷ cs) (v ∷ vs))) in
    if_both goal (not (is_there (t.documents c.document_id))) tt (
      if_both goal (not (env.chunk_ok c v)) tt (
        Ends-map (Added t' (zip_rows env tenant cs vs))
          (Added t (zip_rows env tenant (c ∷ cs) (v ∷ vs))) (insert_chunks env tenant t' cs vs)
          (λ after h.
            h
            ∙ ap (λ rows. record t { chunks = rows })
                (ap (λ rows. rows ++ zip_rows env tenant cs vs) e
                  ∙ append_assoc t.chunks (row ∷ []) (zip_rows env tenant cs vs)))
          (insert_chunks-Ends env tenant t' cs vs d.1 fresh)))

embedded-Ends :
    (env : StoreEnv) (tenant : Text) (t : KnowledgeTables) (cs : List Chunk)
    (answer : Option (List Vector))
    → DistinctChunks cs
    → All (NewIn t.chunks) cs
    → Ends (Added t (rows_of env tenant cs answer)) (embedded env tenant t cs answer)
unfolding embedded
embedded-Ends env tenant t cs none d n = tt
embedded-Ends env tenant t cs (some vs) d n = insert_chunks-Ends env tenant t cs vs d n

rows_of-nil :
    (env : StoreEnv) (tenant : Text) (answer : Option (List Vector))
    → rows_of env tenant [] answer ≡ []
rows_of-nil env tenant none = refl
rows_of-nil env tenant (some vs) = refl

with_chunks-Ends :
    (env : StoreEnv) (tenant : Text) (t : KnowledgeTables) (cs : List Chunk)
    → DistinctChunks cs
    → All (NewIn t.chunks) cs
    → Ends (Added t (new_rows env tenant cs)) (with_chunks env tenant t cs)
unfolding with_chunks new_rows
with_chunks-Ends env tenant t [] d n =
    ap (λ rows. record t { chunks = rows })
      (sym (append-nil t.chunks)
        ∙ ap (λ rows. t.chunks ++ rows) (sym (rows_of-nil env tenant (env.embed []))))
with_chunks-Ends env tenant t (c ∷ cs) d n = embedded-Ends env tenant t (c ∷ cs) _ d n

pub with_documents-chunks :
    (t : KnowledgeTables) (tenant : Text) (docs : List Document)
    → (with_documents t tenant docs).chunks ≡ t.chunks
unfolding with_documents insert_document
with_documents-chunks t tenant [] = refl
with_documents-chunks t tenant (d ∷ docs) =
    with_documents-chunks (insert_document t tenant d) tenant docs

found-ne :
    (docs : List Document) (k : Text)
    → All (λ (x : Document). x.id ≢ k) docs
    → document_of docs k ≡ none
unfolding document_of
found-ne [] k h = refl
found-ne (d ∷ docs) k h = rw (text_eq-ne k d.id (λ e. h.0 (sym e)), found-ne docs k h.1)

insert_document-other :
    (t : KnowledgeTables) (tenant : Text) (d : Document) (k : Text)
    → k ≢ d.id
    → (insert_document t tenant d).documents k ≡ t.documents k
unfolding insert_document
insert_document-other t tenant d k h = rw (text_eq-ne k d.id h)

insert_document_self :
    (t : KnowledgeTables) (tenant : Text) (d : Document)
    → t.documents d.id ≡ none
    → (insert_document t tenant d).documents d.id ≡ some (record { tenant = tenant; document = d })
unfolding insert_document
insert_document_self t tenant d h = rw (text_eq_refl d.id, h)

-- Documents whose identifiers are distinct and not in the table are added as they are.
pub with_documents-found :
    (t : KnowledgeTables) (tenant : Text) (docs : List Document) (k : Text)
    → DistinctDocuments docs
    → All (λ (x : Document). t.documents x.id ≡ none) docs
    → (with_documents t tenant docs).documents k
      ≡ placed tenant (document_of docs k) (t.documents k)
unfolding with_documents document_of
with_documents-found t tenant [] k d n = refl
with_documents-found t tenant (x ∷ docs) k d n =
    let t' = insert_document t tenant x in
    let later : All (λ (y : Document). t'.documents y.id ≡ none) docs =
      All-map (λ (y : Document). (t.documents y.id ≡ none) × (y.id ≢ x.id)) _ docs
        (λ y p. insert_document-other t tenant x y.id p.1 ∙ p.0) (All-both _ _ docs n.1 d.0) in
    with_documents-found t' tenant docs k d.1 later ∙ elim (Bool-cases (text_eq k x.id)) [
      | inl e ↦
          let q = eq_of_text_eq k x.id e in
          rw (q, text_eq_refl x.id, found-ne docs x.id d.0) (insert_document_self t tenant x n.0)
      | inr e ↦ rw e (
          ap (placed tenant (document_of docs k)) (
            insert_document-other t tenant x k
              (λ q. absurd (let r = rw q at e in let r' = text_eq_refl x.id in cc))))
    ]

insert-Ends :
    (env : StoreEnv) (tenant : Text) (P : KnowledgeTables → Type 0) (t : KnowledgeTables)
    (docs : List Document) (cs : List Chunk)
    → Ends P (with_chunks env tenant (with_documents t tenant docs) cs)
    → Ends P (insert env tenant t docs cs)
unfolding insert with_documents
insert-Ends env tenant P t [] cs h = h
insert-Ends env tenant P t (d ∷ docs) cs h =
    if_both (Ends P) (env.document_ok d)
      (insert-Ends env tenant P (insert_document t tenant d) docs cs h) tt

-- Documents and chunks whose identifiers are distinct and not in the tables are added, if nothing
-- fails, as they are.
pub record Inserted (env : StoreEnv) (tenant : Text) (before : KnowledgeTables)
    (docs : List Document) (cs : List Chunk) (after : KnowledgeTables) : Type 0 where
  pub documents :
      (k : Text) → after.documents k ≡ placed tenant (document_of docs k) (before.documents k)
  pub chunks : after.chunks ≡ before.chunks ++ new_rows env tenant cs

pub insert-Inserted :
    (env : StoreEnv) (tenant : Text) (t : KnowledgeTables) (docs : List Document) (cs : List Chunk)
    → DistinctDocuments docs
    → All (λ (x : Document). t.documents x.id ≡ none) docs
    → DistinctChunks cs
    → All (NewIn t.chunks) cs
    → Ends (Inserted env tenant t docs cs) (insert env tenant t docs cs)
insert-Inserted env tenant t docs cs dd nd dc nc =
    let t' = with_documents t tenant docs in
    let same = with_documents-chunks t tenant docs in
    insert-Ends env tenant (Inserted env tenant t docs cs) t docs cs (
      Ends-map (Added t' (new_rows env tenant cs)) (Inserted env tenant t docs cs)
        (with_chunks env tenant t' cs)
        (λ after h. record {
          documents = λ k.
              ap (λ (x : KnowledgeTables). x.documents k) h
              ∙ with_documents-found t tenant docs k dd nd;
          chunks = ap (λ (x : KnowledgeTables). x.chunks) h ∙ rw same;
        })
        (with_chunks-Ends env tenant t' cs dc (rw same nc)))
