-- ===== src/Knowledge/Chunking.antt =====
-- internal/knowledge/chunking.go. A text is its list of code points, so `[]rune(text)` is the text
-- itself, `utf8.RuneCountInString` its length, and `current.Len()` the bytes of its UTF-8 form.
pub mod Windows
pub mod Stuck
pub mod Bounds
use agentic_demo.Prelude.{
  ℕ, zero, suc, ◌+◌, ◌-◌, ◌≤◌, min, Bool, true, false, ◌&&◌, not, Option, none, some, List, [], ◌∷◌,
  ◌++◌, map, Text, lit, text_eq, is_empty, trim_space, split, utf8_len, length, take, drop, ltb,
  ◌==◌, if◌then◌else◌,
}

pub record RecursiveChunker : Type 0 where
  pub chunk_size : ℕ
  pub chunk_overlap : ℕ

pub record RawDocument : Type 0 where
  pub id : Text
  pub content : Text
  pub metadata : List (Text × Text)

-- `date` is 0 for the zero time.
pub record Chunk : Type 0 where
  pub id : Text
  pub content : Text
  pub source : Text
  pub document_type : Text
  pub document_id : Text
  pub date : ℕ
  pub metadata : List (Text × Text)

-- A loop ends with a value, panics on a slice out of range, or has no fuel left.
pub data Outcome (A : Type 0) : Type 0 where
  finished : A → Outcome A
  panics no_fuel : Outcome A

-- `NewRecursiveChunker`, whose arguments of 0 or less stand for the defaults.
unfoldable pub new_recursive_chunker : ℕ → ℕ → RecursiveChunker
new_recursive_chunker size overlap = record {
  chunk_size = if size == 0 then 1000 else size;
  chunk_overlap = if overlap == 0 then 200 else overlap;
}

-- `append(xs, ys...)`, when the rest of the run finishes.
abbrev pub prepend : {A : Type 0} → List A → Outcome (List A) → Outcome (List A)
prepend xs (finished ys) = finished (xs ++ ys)
prepend xs panics = panics
prepend xs no_fuel = no_fuel

abbrev pub and_then : {A : Type 0} → Outcome (List A) → Outcome (List A) → Outcome (List A)
and_then (finished xs) r = prepend xs r
and_then panics r = panics
and_then no_fuel r = no_fuel

-- The loop of `splitBySize` at index i; `next` is the rest of the run from a later index.
abbrev pub window : RecursiveChunker → Text → ℕ → (ℕ → Outcome (List Text)) → Outcome (List Text)
window c runes i next =
    let end = min (i + c.chunk_size) (length runes) in
    let chunk = take (end - i) (drop i runes) in
    if not (ltb i (length runes))
    then finished []
    else if end == length runes
    then finished (chunk ∷ [])
    else if ltb (i + c.chunk_size) c.chunk_overlap
    then panics
    else prepend (chunk ∷ []) (next (i + c.chunk_size - c.chunk_overlap))

unfoldable pub windows : ℕ → RecursiveChunker → Text → ℕ → Outcome (List Text)
windows zero c runes i = no_fuel
windows (suc fuel) c runes i = window c runes i (windows fuel c runes)

-- `splitBySize`, with one iteration more than the text has runes.
unfoldable pub split_by_size : RecursiveChunker → Text → Outcome (List Text)
unfolding windows
split_by_size c text = windows (suc (length text)) c text 0

-- `getTail`.
unfoldable pub get_tail : RecursiveChunker → Text → Text
get_tail c text = drop (length text - c.chunk_overlap) text

abbrev pub flushed : Text → List Text
flushed [] = []
flushed (x ∷ s) = (x ∷ s) ∷ []

-- `current.WriteString("\n\n")` and `current.WriteString(para)`.
abbrev pub written : Text → Text → Text
written [] para = para
written (x ∷ s) para = (x ∷ s) ++ (10 ∷ 10 ∷ para)

abbrev pub is_full : RecursiveChunker → Text → Text → Bool
is_full c current para =
    ltb c.chunk_size (utf8_len current + length para + 2) && not (is_empty current)

-- The body of the paragraph loop; `next` is the rest of the run from the new buffer.
abbrev pub place :
    RecursiveChunker → Text → Text → (Text → Outcome (List Text)) → Outcome (List Text)
place c para current next =
    if ltb c.chunk_size (length para)
    then prepend (flushed current) (and_then (split_by_size c para) (next []))
    else next (written current para)

abbrev pub one_paragraph :
    RecursiveChunker → Text → Text → (Text → Outcome (List Text)) → Outcome (List Text)
one_paragraph c para current next =
    if is_empty para
    then next current
    else if is_full c current para
    then prepend (current ∷ []) (place c para (get_tail c current) next)
    else place c para current next

unfoldable pub paragraphs : RecursiveChunker → List Text → Text → Outcome (List Text)
unfolding trim_space
paragraphs c [] current = finished (flushed current)
paragraphs c (p ∷ ps) current = one_paragraph c (trim_space p) current (paragraphs c ps)

-- The contents that `chunkDocument` cuts a document into.
unfoldable pub contents : RecursiveChunker → Text → Outcome (List Text)
unfolding paragraphs trim_space split
contents c content =
    if is_empty (trim_space content)
    then finished []
    else paragraphs c (split (trim_space content) (10 ∷ 10 ∷ [])) []

-- `metadata[key]`.
unfoldable pub value_of : List (Text × Text) → Text → Text
value_of [] key = []
value_of (kv ∷ m) key = if text_eq kv.0 key then kv.1 else value_of m key

-- `makeChunk`.
unfoldable pub make_chunk : RawDocument → Text → Chunk
unfolding value_of
make_chunk doc content = record {
  id = [];
  content = content;
  source = value_of doc.metadata (lit "source");
  document_type = value_of doc.metadata (lit "document_type");
  document_id = doc.id;
  date = 0;
  metadata = doc.metadata;
}

abbrev pub outcome_map : {A B : Type 0} → (A → B) → Outcome (List A) → Outcome (List B)
outcome_map f (finished xs) = finished (map f xs)
outcome_map f panics = panics
outcome_map f no_fuel = no_fuel

-- `chunkDocument`.
unfoldable pub chunk_document : RecursiveChunker → RawDocument → Outcome (List Chunk)
unfolding make_chunk contents
chunk_document c doc = outcome_map (make_chunk doc) (contents c doc.content)

-- `Chunk`.
unfoldable pub chunk_all : RecursiveChunker → List RawDocument → Outcome (List Chunk)
unfolding chunk_document
chunk_all c [] = finished []
chunk_all c (doc ∷ docs) = and_then (chunk_document c doc) (chunk_all c docs)
