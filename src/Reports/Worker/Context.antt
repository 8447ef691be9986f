-- ===== src/Reports/Worker/Context.antt =====
-- The context of a report of internal/reports/worker.go, from the query to the documents.
use agentic_demo.Prelude.{
  ◌≡◌, refl, sym, inl, inr, ◌⊎◌, true, Option, none, some, List, [], ◌∷◌, map, Text, text_eq,
  eq_of_text_eq, All, AnyOf, All-map, ℤ, Result, ok, err, Bool-cases,
}
use agentic_demo.Knowledge.Chunking.{Chunk}
use agentic_demo.Knowledge.Store.{
  Vector, Document, DocumentRow, ChunkRow, KnowledgeTables, StoreError, owned, get_document,
}
use agentic_demo.Knowledge.Store.Query.{QueryFilters, matches, query}
use agentic_demo.Knowledge.Store.Query.Answers.{DrawnFrom, Answers, query-Answers}
use agentic_demo.Reports.Prompts.{RetrievedContext}
use agentic_demo.Reports.Worker.{ReportEnv, fragment, expand_documents, retrieved}
use agentic_demo.Reports.Worker.Retrieval.{Drawn, expand_from-Drawn}

-- A stored document of the tenant, or a fragment of a chunk of the tenant among the rows.
abbrev pub Own : KnowledgeTables → Text → List ChunkRow → RetrievedContext → Type 0
Own t tenant rows x =
    ((id : Text) × (row : DocumentRow) × (t.documents id ≡ some row)
      × (row.tenant ≡ tenant)
      × (x.document ≡ row.document))
    ⊎ AnyOf (λ (r : ChunkRow). (r.tenant ≡ tenant) × (x.document ≡ fragment r.chunk)) rows

owned-row :
    (tenant : Text) (found : Option DocumentRow) (doc : Document)
    → owned tenant found ≡ some doc
    → (row : DocumentRow) × (found ≡ some row) × (row.tenant ≡ tenant) × (doc ≡ row.document)
owned-row tenant none doc h = absurd cc
owned-row tenant (some row) doc h = elim (Bool-cases (text_eq row.tenant tenant)) [
  | inl e ↦
      let g = rw e at h in
      let same : row.document ≡ doc = cc in (row, refl, eq_of_text_eq row.tenant tenant e, sym same)
  | inr e ↦ absurd (let g = rw e at h in cc)
]

matches-tenant :
    (tenant : Text) (f : QueryFilters) (r : ChunkRow)
    → matches tenant f r ≡ true
    → r.tenant ≡ tenant
unfolding matches
matches-tenant tenant f r h = elim (Bool-cases (text_eq r.tenant tenant)) [
  | inl e ↦ eq_of_text_eq r.tenant tenant e
  | inr e ↦ absurd (let g = rw e at h in cc)
]

AnyOf-rows :
    (tenant : Text) (doc : Document) (rows : List ChunkRow)
    → All (λ (r : ChunkRow). r.tenant ≡ tenant) rows
    → AnyOf (λ c. doc ≡ fragment c) (map (λ (r : ChunkRow). r.chunk) rows)
    → AnyOf (λ (r : ChunkRow). (r.tenant ≡ tenant) × (doc ≡ fragment r.chunk)) rows
AnyOf-rows tenant doc [] all h = absurd h
AnyOf-rows tenant doc (r ∷ rows) all (inl h) = inl (all.0, h)
AnyOf-rows tenant doc (r ∷ rows) all (inr h) = inr (AnyOf-rows tenant doc rows all.1 h)

Drawn-Own :
    (score : Chunk → Text) (t : KnowledgeTables) (tenant : Text) (rows : List ChunkRow)
    → All (λ (r : ChunkRow). r.tenant ≡ tenant) rows
    → (x : RetrievedContext)
    → Drawn (get_document t tenant) score (map (λ (r : ChunkRow). r.chunk) rows) x
    → Own t tenant rows x
unfolding get_document
Drawn-Own score t tenant rows all x (inl (id, h)) =
    let o = owned-row tenant (t.documents id) x.document h in inl (id, o.0, o.1, o.2, o.3)
Drawn-Own score t tenant rows all x (inr h) = inr (AnyOf-rows tenant x.document rows all h)

-- What is drawn into the context from an answer of the store is the tenant's own.
abbrev pub Isolated :
    ReportEnv → KnowledgeTables → Text → Result StoreError (List ChunkRow) → Type 0
Isolated env t tenant (err e) = Unit
Isolated env t tenant (ok rows) = All (Own t tenant rows) (retrieved env t tenant rows)

answer-Isolated :
    (env : ReportEnv) (t : KnowledgeTables) (tenant : Text) (top_k : ℤ) (f : QueryFilters)
    (answer : Result StoreError (List ChunkRow))
    → Answers t tenant top_k f answer
    → Isolated env t tenant answer
unfolding retrieved expand_documents
answer-Isolated env t tenant top_k f (err e) h = tt
answer-Isolated env t tenant top_k f (ok rows) h =
    let chunks = map (λ (r : ChunkRow). r.chunk) rows in
    let all =
      All-map _ (λ (r : ChunkRow). r.tenant ≡ tenant) rows (λ r p. matches-tenant tenant f r p.1)
        h.0 in
    All-map _ (Own t tenant rows) (retrieved env t tenant rows)
      (Drawn-Own env.score t tenant rows all)
      (expand_from-Drawn (get_document t tenant) env.score [] chunks)

-- The context of a report holds documents and fragments of the tenant only, whatever the chunks
-- name as their documents, whichever rows the index finds and in whatever order.
pub retrieved-Isolated :
    (env : ReportEnv)
    → ((v : Vector) (rows : List ChunkRow) → DrawnFrom rows (env.order v rows))
    → (t : KnowledgeTables) (tenant text : Text) (top_k : ℤ) (f : QueryFilters)
    → Isolated env t tenant (query env.order env.store t tenant text top_k f)
retrieved-Isolated env drawn t tenant text top_k f =
    answer-Isolated env t tenant top_k f (query env.order env.store t tenant text top_k f)
      (query-Answers env.order drawn env.store t tenant text top_k f)
