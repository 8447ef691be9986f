-- ===== src/Knowledge/Store/Success.antt =====
-- ReplaceSource of internal/knowledge/store.go succeeds when nothing that it calls fails.
use agentic_demo.Prelude.{
  subst, ℕ, ◌≡◌, refl, true, Option, none, some, List, [], ◌∷◌, Text, All, All-map, ok, err, map,
  arith, length,
}
use agentic_demo.Knowledge.Chunking.{Chunk}
use agentic_demo.Knowledge.Store.{
  Document, Vector, KnowledgeTables, StoreEnv, StoreStep, insert_document, upsert, is_there,
  chunk_row, insert_chunks, embedded, with_chunks, insert, belongs, delete_where, committed,
  replace_source,
}
use agentic_demo.Knowledge.Store.Insertion.{with_documents, with_documents-found, HasDocument}
use agentic_demo.Knowledge.Store.Shelves.{FreeFor, SourceBatch, Room}
use agentic_demo.Knowledge.Store.Replacement.{deleted-free}

abbrev Embeds : ℕ → Option (List Vector) → Type 0
Embeds n none = ⊥
Embeds n (some vs) = length vs ≡ n

-- No call of the database fails, and the embedder answers with a vector for each text.
pub record Healthy (env : StoreEnv) : Type 0 where
  pub begins : env.begin_ok ≡ true
  pub deletes : env.delete_ok ≡ true
  pub commits : env.commit_ok ≡ true
  pub documents : (d : Document) → env.document_ok d ≡ true
  pub chunks : (c : Chunk) (v : Vector) → env.chunk_ok c v ≡ true
  pub embeds : (texts : List Text) → Embeds (length texts) (env.embed texts)

abbrev pub Succeeds : StoreStep → Type 0
Succeeds (after, ok u) = Unit
Succeeds (after, err e) = ⊥

length-contents : (cs : List Chunk) → length (map (λ (x : Chunk). x.content) cs) ≡ length cs
length-contents [] = refl
length-contents (c ∷ cs) = omega (arith, length-contents cs)

module _ (env : StoreEnv) (h : Healthy env) (tenant : Text) where
  insert_chunks-Succeeds :
      (t : KnowledgeTables) (cs : List Chunk) (vs : List Vector)
      → length vs ≡ length cs
      → All (λ (c : Chunk). is_there (t.documents c.document_id) ≡ true) cs
      → Succeeds (insert_chunks env tenant t cs vs)
  unfolding insert_chunks
  insert_chunks-Succeeds t [] vs e a = tt
  insert_chunks-Succeeds t (c ∷ cs) [] e a = absurd (omega arith)
  insert_chunks-Succeeds t (c ∷ cs) (v ∷ vs) e a =
      rw (a.0, h.chunks c v)
        (insert_chunks-Succeeds (record t { chunks = upsert t.chunks (chunk_row env tenant c v) })
          cs vs (omega arith) a.1)

  embedded-Succeeds :
      (t : KnowledgeTables) (cs : List Chunk) (answer : Option (List Vector))
      → Embeds (length cs) answer
      → All (λ (c : Chunk). is_there (t.documents c.document_id) ≡ true) cs
      → Succeeds (embedded env tenant t cs answer)
  unfolding embedded
  embedded-Succeeds t cs none e a = absurd e
  embedded-Succeeds t cs (some vs) e a = insert_chunks-Succeeds t cs vs e a

  with_chunks-Succeeds :
      (t : KnowledgeTables) (cs : List Chunk)
      → All (λ (c : Chunk). is_there (t.documents c.document_id) ≡ true) cs
      → Succeeds (with_chunks env tenant t cs)
  unfolding with_chunks
  with_chunks-Succeeds t [] a = tt
  with_chunks-Succeeds t (c ∷ cs) a =
      embedded-Succeeds t (c ∷ cs) _
        (subst (λ n. Embeds n (env.embed (map (λ (x : Chunk). x.content) (c ∷ cs))))
          (length-contents (c ∷ cs)) (h.embeds (map (λ (x : Chunk). x.content) (c ∷ cs))))
        a

  insert-Succeeds :
      (t : KnowledgeTables) (docs : List Document) (cs : List Chunk)
      → All
          (λ (c : Chunk). is_there ((with_documents t tenant docs).documents c.document_id) ≡ true)
          cs
      → Succeeds (insert env tenant t docs cs)
  unfolding insert with_documents
  insert-Succeeds t [] cs a = with_chunks-Succeeds t cs a
  insert-Succeeds t (d ∷ docs) cs a =
      rw (h.documents d) (insert-Succeeds (insert_document t tenant d) docs cs a)

  committed-Succeeds :
      (t : KnowledgeTables) (s : StoreStep) → Succeeds s → Succeeds (committed env t s)
  committed-Succeeds t (after, ok u) k = rw h.commits tt
  committed-Succeeds t (after, err e) k = k

  -- If no call of the database fails and the embedder answers with a vector for each text, the
  -- replacement of a source by a batch of documents and chunks succeeds.
  pub replace_source-Succeeds :
      (source : Text) (t : KnowledgeTables) (docs : List Document) (cs : List Chunk)
      → SourceBatch source docs cs
      → Room t tenant source docs cs
      → Succeeds (replace_source env tenant source t docs cs)
  unfolding replace_source delete_where
  replace_source-Succeeds source t docs cs b r =
      let t' = delete_where (belongs tenant source) t in
      let free : All (λ (d : Document). t'.documents d.id ≡ none) docs =
        All-map (λ (d : Document). FreeFor tenant source (t.documents d.id)) _ docs
          (λ d f. deleted-free tenant source (t.documents d.id) f) r.free_documents in
      let there : All
          (λ (c : Chunk). is_there ((with_documents t' tenant docs).documents c.document_id) ≡ true)
          cs =
        All-map (HasDocument docs) _ cs
          (λ c p.
            rw (with_documents-found t' tenant docs c.document_id b.distinct_documents free, p.1)
              refl)
          b.origins in
      rw (h.begins, h.deletes) (committed-Succeeds t _ (insert-Succeeds t' docs cs there))
