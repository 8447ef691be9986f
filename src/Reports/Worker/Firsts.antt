-- ===== src/Reports/Worker/Firsts.antt =====
-- Which chunks expandDocuments of internal/reports/worker.go makes contexts of, and which documents.
use agentic_demo.Prelude.{
  ◌≡◌, Bool, false, ◌||◌, not, List, [], ◌∷◌, any_of, Text, text_eq, is_empty, Option,
  if◌then◌else◌,
}
use agentic_demo.Knowledge.Chunking.{Chunk}
use agentic_demo.Knowledge.Store.{Document}
use agentic_demo.Reports.AgentLoop.{seen}
use agentic_demo.Reports.Prompts.{RetrievedContext}
use agentic_demo.Reports.Worker.{fragment, or_fragment, context_of}

-- Whether one of the chunks names the document.
abbrev pub named_by : List Chunk → Text → Bool
named_by chunks id = any_of (λ (b : Chunk). text_eq id b.document_id) chunks

-- The chunks without a document, and the first one of each document; `before` holds all that came
-- before, newest first.
unfoldable pub firsts : List Chunk → List Chunk → List Chunk
unfolding any_of text_eq is_empty
firsts before [] = []
firsts before (c ∷ cs) =
    let rest = firsts (c ∷ before) cs in
    if is_empty c.document_id || not (named_by before c.document_id) then c ∷ rest else rest

-- The document behind a chunk: the one it names, and the chunk itself if it names none or that one is
-- not there.
abbrev pub behind : (Text → Option Document) → Chunk → Document
behind find c = if is_empty c.document_id then fragment c else or_fragment c (find c.document_id)

module _ (find : Text → Option Document) (score : Chunk → Text) where
  -- What the loop remembers are the documents that the chunks before have named.
  abbrev Remembers : List Text → List Chunk → Type 0
  Remembers known before = (id : Text) → is_empty id ≡ false → seen id known ≡ named_by before id

  abbrev shown : Chunk → RetrievedContext
  shown c = context_of score c (behind find c)
