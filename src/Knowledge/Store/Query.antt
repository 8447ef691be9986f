-- ===== src/Knowledge/Store/Query.antt =====
-- Query and GetStats of internal/knowledge/store.go. What the index of the vectors finds is a parameter.
pub mod Answers
use agentic_demo.Prelude.{
  ℕ, suc, ◌≤◌, ◌≡◌, refl, Bool, true, false, ◌&&◌, ◌||◌, Option, none, some, List, [], ◌∷◌, Text,
  text_eq, is_empty, take, length, keep_if, keep_if-passes, leb, ltb, ◌==◌, All, All-map, Result,
  ok, err, ℤ, pos, negsuc, if◌then◌else◌, arith, if_both, Bool-cases, inl, inr,
}
use agentic_demo.Knowledge.Store.{
  Vector, ChunkRow, KnowledgeTables, StoreError, embed_failed, panics, StoreEnv,
}

-- An empty source and a time of 0 filter nothing.
pub record QueryFilters : Type 0 where
  pub source : Text
  pub date_from : ℕ
  pub date_to : ℕ

abbrev pub int32_max : ℕ
int32_max = 0x7fffffff

-- `int32Limit`.
unfoldable pub int32_limit : ℤ → ℕ
int32_limit (negsuc n) = 0
int32_limit (pos n) = if ltb int32_max n then int32_max else n

-- The `WHERE` of `QueryChunks`.
unfoldable pub matches : Text → QueryFilters → ChunkRow → Bool
matches tenant f row =
    text_eq row.tenant tenant
    && (is_empty f.source || text_eq row.chunk.source f.source)
    && (f.date_from == 0 || leb f.date_from row.chunk.date)
    && (f.date_to == 0 || leb row.chunk.date f.date_to)

-- The rows that the index finds near a vector among those that match, nearest first. The index is
-- approximate, so that it may leave rows out.
abbrev pub Order : Type 0
Order = Vector → List ChunkRow → List ChunkRow

abbrev pub ranked :
    Order
    → KnowledgeTables
    → Text
    → ℤ
    → QueryFilters
    → Option (List Vector)
    → Result StoreError (List ChunkRow)
ranked order t tenant top_k f none = err embed_failed
ranked order t tenant top_k f (some []) = err panics
ranked order t tenant top_k f (some (v ∷ vs)) =
    ok (take (int32_limit top_k) (order v (keep_if (matches tenant f) t.chunks)))

-- `Query`, by a database that does not fail.
unfoldable pub query :
    Order
    → StoreEnv
    → KnowledgeTables
    → Text
    → Text
    → ℤ
    → QueryFilters
    → Result StoreError (List ChunkRow)
query order env t tenant text top_k f = ranked order t tenant top_k f (env.embed (text ∷ []))

-- `GetStats`: the number of chunks of a source; a source without chunks is not in the map.
unfoldable pub get_stats : KnowledgeTables → Text → Text → ℕ
unfolding keep_if
get_stats t tenant source =
    length (
      keep_if (λ (c : ChunkRow). text_eq c.tenant tenant && text_eq c.chunk.source source) t.chunks)
