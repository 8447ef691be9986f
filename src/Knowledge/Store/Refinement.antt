-- ===== src/Knowledge/Store/Refinement.antt =====
-- ReplaceSource and DeleteTenantData of internal/knowledge/store.go as operations on the library: what
-- a caller sees is a shelf put in place, or all shelves of a tenant cleared.
use mathlib.Core.Path.{fun_ext}
use agentic_demo.Prelude.{
  subst, ◌≡◌, refl, sym, inl, inr, ◌∙◌, ap, Bool, true, false, not, Option, none, some, List, [],
  Text, text_eq, text_eq-swap, eq_of_text_eq, text_eq_refl, All, All-map, All-both, All-append, ok,
  err, if_both, Bool-cases, if◌then◌else◌, keep_if, keep_if-same, keep_if_under, keep_if-not,
  keep_if-All, keep_if-passes, arith,
}
use agentic_demo.Knowledge.Chunking.{Chunk}
use agentic_demo.Knowledge.Store.{
  Document, DocumentRow, ChunkRow, KnowledgeTables, StoreEnv, StoreStep, belongs, delete_where,
  replace_source, committed, delete_tenant_data, belongs_to,
}
use agentic_demo.Knowledge.Store.Insertion.{Ends, Ends-map, new_rows, HasDocument, Inserted}
use agentic_demo.Knowledge.Store.Shelves.{
  Shelf, Library, on_shelf, of_source, library, shelved, IsRow, Linked, SourceBatch, Room,
}
use agentic_demo.Knowledge.Store.Replacement.{
  found-Fits, library-Inserted, replaced-Inserted, new_rows-All, both_eq, if_shelf, placed-kept,
}

not-false : (b : Bool) → not b ≡ true → b ≡ false
not-false true h = absurd (ground arith)
not-false false h = refl

replaced-Linked :
    (env : StoreEnv) (t after : KnowledgeTables) (tenant source : Text) (docs : List Document)
    (cs : List Chunk)
    → Linked t
    → SourceBatch source docs cs
    → Room t tenant source docs cs
    → Inserted env tenant (delete_where (belongs tenant source) t) docs cs after
    → Linked after
unfolding delete_where
replaced-Linked env t after tenant source docs cs l b r i =
    let kept = keep_if (λ (c : ChunkRow). not (of_source t.documents tenant source c)) t.chunks in
    let Good : ChunkRow → Type 0 = λ c. IsRow (after.documents c.chunk.document_id) in
    let old : All Good kept =
      All-map
        (λ (c : ChunkRow).
          IsRow (t.documents c.chunk.document_id)
          × (not (of_source t.documents tenant source c) ≡ true))
        Good kept
        (λ c p.
          subst IsRow
            (sym (
              i.documents c.chunk.document_id
              ∙ placed-kept tenant source _ (t.documents c.chunk.document_id)
                  (found-Fits t tenant source docs c.chunk.document_id b.sources r.free_documents)
                  p.0 p.1))
            p.0)
        (All-both _ _ kept (keep_if-All _ _ t.chunks l) (keep_if-passes _ t.chunks)) in
    let new : All Good (new_rows env tenant cs) =
      All-map (λ (c : ChunkRow). (c.tenant ≡ tenant) × HasDocument docs c.chunk) Good _
        (λ c p. rw (i.documents c.chunk.document_id, p.1.1) tt)
        (new_rows-All env tenant (HasDocument docs) cs b.origins) in
    rw i.chunks (All-append Good kept (new_rows env tenant cs) old new)

-- A step that succeeds changes the library as `op` does and keeps the chunks linked; one that fails
-- changes nothing.
abbrev pub Refines : KnowledgeTables → (Library → Library) → StoreStep → Type 0
Refines before op (after, ok u) = (library after ≡ op (library before)) × Linked after
Refines before op (after, err e) = after ≡ before

committed-Refines :
    (env : StoreEnv) (t : KnowledgeTables) (op : Library → Library) (s : StoreStep)
    → Ends (λ after. (library after ≡ op (library t)) × Linked after) s
    → Refines t op (committed env t s)
committed-Refines env t op (after, err e) h = refl
committed-Refines env t op (after, ok u) h = if_both (Refines t op) env.commit_ok h refl

-- Ingesting a source again puts its new documents and chunks in place of the old ones and touches
-- no other source and no other tenant, or, when any call fails, changes nothing. The documents are
-- of that source, the chunks of those documents, and their identifiers are distinct, and new or
-- those of documents that are replaced; every chunk in the tables has its document there.
pub replace_source-Refines :
    (env : StoreEnv) (t : KnowledgeTables) (tenant source : Text) (docs : List Document)
    (cs : List Chunk)
    → Linked t
    → SourceBatch source docs cs
    → Room t tenant source docs cs
    → Refines t (shelved env tenant source docs cs) (replace_source env tenant source t docs cs)
unfolding replace_source
replace_source-Refines env t tenant source docs cs l b r =
    let op = shelved env tenant source docs cs in
    if_both (Refines t op) (not env.begin_ok) refl (
      if_both (Refines t op) (not env.delete_ok) refl (
        committed-Refines env t op _ (
          Ends-map (Inserted env tenant (delete_where (belongs tenant source) t) docs cs)
            (λ after. (library after ≡ op (library t)) × Linked after) _
            (λ after i. (
              fun_ext (λ u.
                  fun_ext (λ s. library-Inserted env t after tenant source docs cs l b r i u s)),
              replaced-Linked env t after tenant source docs cs l b r i,
            ))
            (replaced-Inserted env t tenant source docs cs b r))))

-- The operation on the library that `DeleteTenantData` stands for.
unfoldable pub cleared : Text → Library → Library
cleared tenant lib u s =
    if text_eq tenant u then record { documents = λ k. none; chunks = [] } else lib u s

on_shelf-cleared :
    (tenant u s : Text) (row : Option DocumentRow)
    → on_shelf u s (if belongs_to tenant row then none else row)
      ≡ (if text_eq tenant u then none else on_shelf u s row)
on_shelf-cleared tenant u s none =
    if_both (λ (x : Option Document). none ≡ x) (text_eq tenant u) refl refl
on_shelf-cleared tenant u s (some r) = elim (Bool-cases (text_eq r.tenant tenant)) [
  | inl e ↦ rw e (
      rw (eq_of_text_eq _ _ e)
        (elim (Bool-cases (text_eq tenant u)) [ inl f ↦ rw f | inr f ↦ rw f ]))
  | inr e ↦ elim (Bool-cases (text_eq tenant u)) [
    | inl f ↦ rw (e, f) (rw (← eq_of_text_eq _ _ f, e))
    | inr f ↦ rw (e, f)
  ]
]

-- The shelf of a document after a tenant's documents are deleted.
belongs-cleared :
    (tenant u s : Text) (row : Option DocumentRow)
    → text_eq tenant u ≡ false
    → belongs u s row ≡ true
    → not (belongs_to tenant row) ≡ true
belongs-cleared tenant u s none e h = refl
belongs-cleared tenant u s (some r) e h = rw ((both_eq _ _ _ _ h).0, text_eq-swap tenant u e)

belongs-tenant :
    (u s : Text) (row : Option DocumentRow) → belongs u s row ≡ true → belongs_to u row ≡ true
belongs-tenant u s none h = absurd cc
belongs-tenant u s (some r) h = rw ((both_eq _ _ _ _ h).0) (text_eq_refl u)

-- The chunks of a shelf after those of a tenant are deleted.
chunks-cleared :
    (documents : Text → Option DocumentRow) (tenant u s : Text) (old : List ChunkRow)
    → keep_if
        (of_source documents u s)
        (keep_if (λ (c : ChunkRow). not (belongs_to tenant (documents c.chunk.document_id))) old)
      ≡ (if text_eq tenant u then [] else keep_if (of_source documents u s) old)
chunks-cleared documents tenant u s old = elim (Bool-cases (text_eq tenant u)) [
  | inl e ↦ rw e (
      rw (eq_of_text_eq tenant u e) (
        keep_if-not (of_source documents u s)
          (λ (c : ChunkRow). belongs_to u (documents c.chunk.document_id)) old
          (λ c. belongs-tenant u s (documents c.chunk.document_id))))
  | inr e ↦ rw e (
      keep_if_under (of_source documents u s)
        (λ (c : ChunkRow). not (belongs_to tenant (documents c.chunk.document_id))) old
        (λ c. belongs-cleared tenant u s (documents c.chunk.document_id) e))
]

left-row :
    (tenant : Text) (row : Option DocumentRow)
    → not (belongs_to tenant row) ≡ true
    → (if belongs_to tenant row then none else row) ≡ row
left-row tenant row h = rw (not-false _ h)

deleted-Refines :
    (t : KnowledgeTables) (tenant : Text)
    → Linked t
    → (library (delete_where (belongs_to tenant) t) ≡ cleared tenant (library t))
      × Linked (delete_where (belongs_to tenant) t)
unfolding library cleared delete_where
deleted-Refines t tenant l =
    let empty : Shelf = record { documents = λ k. none; chunks = [] } in
    let after = delete_where (belongs_to tenant) t in
    let passes =
      keep_if-passes (λ (c : ChunkRow). not (belongs_to tenant (t.documents c.chunk.document_id)))
        t.chunks in
    (
      fun_ext (λ u. fun_ext (λ s.
          if_shelf (text_eq tenant u) empty (library t u s) (library after u s)
            (fun_ext (λ k. on_shelf-cleared tenant u s (t.documents k)))
            (keep_if-same _ (of_source t.documents u s) after.chunks (
                All-map _ _ after.chunks
                  (λ c h. ap (belongs u s) (left-row tenant (t.documents c.chunk.document_id) h))
                  passes)
              ∙ chunks-cleared t.documents tenant u s t.chunks))),
      All-map
          (λ (c : ChunkRow).
            IsRow (t.documents c.chunk.document_id)
            × (not (belongs_to tenant (t.documents c.chunk.document_id)) ≡ true))
          _ after.chunks (λ c p. rw (not-false _ p.1) p.0)
          (All-both _ _ after.chunks (keep_if-All _ _ t.chunks l) passes),
    )

-- Deleting a tenant's data clears every shelf of the tenant and touches no other tenant, or, when the
-- call fails, changes nothing. Every chunk in the tables has its document there, as the foreign key
-- demands, and keeps it.
pub delete_tenant_data-Refines :
    (env : StoreEnv) (t : KnowledgeTables) (tenant : Text)
    → Linked t
    → Refines t (cleared tenant) (delete_tenant_data env tenant t)
unfolding delete_tenant_data
delete_tenant_data-Refines env t tenant l =
    if_both (Refines t (cleared tenant)) env.delete_ok (deleted-Refines t tenant l) refl
