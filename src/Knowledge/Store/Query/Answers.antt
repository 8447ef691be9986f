-- ===== src/Knowledge/Store/Query/Answers.antt =====
-- What Query of internal/knowledge/store.go answers with, whatever the index of the vectors finds.
use agentic_demo.Prelude.{
  ◌≡◌, ◌≤◌, true, Option, none, some, List, [], ◌∷◌, Text, take, length, keep_if, All, All-In, In,
  In-take, In-keep_if, Result, ok, err, ℤ, arith, length-take,
}
use agentic_demo.Knowledge.Store.{Vector, ChunkRow, KnowledgeTables, StoreError, StoreEnv}
use agentic_demo.Knowledge.Store.Query.{QueryFilters, Order, int32_limit, matches, ranked, query}

-- Rows that are all among the others: an approximate index may leave some out.
abbrev pub DrawnFrom : List ChunkRow → List ChunkRow → Type 0
DrawnFrom rows found = (r : ChunkRow) → In r found → In r rows

-- The answer holds chunks of the table that the filters match, up to the limit.
abbrev pub Answers :
    KnowledgeTables → Text → ℤ → QueryFilters → Result StoreError (List ChunkRow) → Type 0
Answers t tenant top_k f (err e) = Unit
Answers t tenant top_k f (ok rows) =
    All (λ (r : ChunkRow). In r t.chunks × (matches tenant f r ≡ true)) rows
    × (length rows ≤ int32_limit top_k)

ranked-Answers :
    (order : Order)
    → ((v : Vector) (rows : List ChunkRow) → DrawnFrom rows (order v rows))
    → (t : KnowledgeTables) (tenant : Text) (top_k : ℤ) (f : QueryFilters)
      (answer : Option (List Vector))
    → Answers t tenant top_k f (ranked order t tenant top_k f answer)
ranked-Answers order drawn t tenant top_k f none = tt
ranked-Answers order drawn t tenant top_k f (some []) = tt
ranked-Answers order drawn t tenant top_k f (some (v ∷ vs)) =
    let rows = keep_if (matches tenant f) t.chunks in
    let found = order v rows in
    (
      All-In _ (take (int32_limit top_k) found) (λ r i.
          In-keep_if r (matches tenant f) t.chunks
            (drawn v rows r (In-take r (int32_limit top_k) found i))),
      omega (arith, length-take (int32_limit top_k) found),
    )

pub query-Answers :
    (order : Order)
    → ((v : Vector) (rows : List ChunkRow) → DrawnFrom rows (order v rows))
    → (env : StoreEnv) (t : KnowledgeTables) (tenant text : Text) (top_k : ℤ) (f : QueryFilters)
    → Answers t tenant top_k f (query order env t tenant text top_k f)
unfolding query
query-Answers order drawn env t tenant text top_k f =
    ranked-Answers order drawn t tenant top_k f (env.embed (text ∷ []))
