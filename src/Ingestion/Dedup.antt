-- ===== src/Ingestion/Dedup.antt =====
-- internal/ingestion/dedup.go and its use in internal/ingestion/worker.go. `hash` is SHA-256.
use agentic_demo.Prelude.{
  ◌≡◌, inl, inr, Bool, true, false, List, [], ◌∷◌, Text, text_eq, any_of, All, Bool-cases,
}
use agentic_demo.Knowledge.Chunking.{Chunk}

-- `Seen`: whether the hash is in the set.
unfoldable pub is_seen : Text → List Text → Bool
unfolding any_of
is_seen h seen = any_of (text_eq h) seen

-- The loop that keeps the chunks not seen before.
unfoldable pub dedup : (Text → Text) → List Text → List Chunk → List Chunk
unfolding is_seen
dedup hash seen [] = []
dedup hash seen (c ∷ cs) = elim (is_seen (hash c.content) seen) [
  | true ↦ dedup hash seen cs
  | false ↦ c ∷ dedup hash (hash c.content ∷ seen) cs
]

-- The hashes of the chunks that are kept differ from those seen before and from each other.
abbrev pub Unseen : (Text → Text) → List Text → List Chunk → Type 0
Unseen hash seen [] = Unit
Unseen hash seen (c ∷ cs) =
    (is_seen (hash c.content) seen ≡ false) × Unseen hash (hash c.content ∷ seen) cs

dedup-Unseen :
    (hash : Text → Text) (seen : List Text) (cs : List Chunk)
    → Unseen hash seen (dedup hash seen cs)
unfolding dedup
dedup-Unseen hash seen [] = tt
dedup-Unseen hash seen (c ∷ cs) = elim (Bool-cases (is_seen (hash c.content) seen)) [
  | inl e ↦ rw (dedup, e) (dedup-Unseen hash seen cs)
  | inr e ↦ rw (dedup, e) (e, dedup-Unseen hash (hash c.content ∷ seen) cs)
]

pub dedup-All :
    (P : Chunk → Type 0) (hash : Text → Text) (seen : List Text) (cs : List Chunk)
    → All P cs
    → All P (dedup hash seen cs)
unfolding dedup
dedup-All P hash seen [] h = tt
dedup-All P hash seen (c ∷ cs) h = elim (Bool-cases (is_seen (hash c.content) seen)) [
  | inl e ↦ rw (dedup, e) (dedup-All P hash seen cs h.1)
  | inr e ↦ rw (dedup, e) (h.0, dedup-All P hash (hash c.content ∷ seen) cs h.1)
]
