-- ===== src/Examples/Reporting.antt =====
-- Inputs for the worker: two chunks of a document that is stored, one of a document that is gone, and one
-- without a document.
use agentic_demo.Prelude.{
  inl, inr, true, none, some, List, [], ◌∷◌, map, Text, lit, text_eq, pos, if◌then◌else◌,
}
use agentic_demo.Knowledge.Chunking.{Chunk}
use agentic_demo.Knowledge.Store.{Vector, ChunkRow, KnowledgeTables, StoreEnv}
use agentic_demo.Knowledge.Store.Query.Answers.{DrawnFrom}
use agentic_demo.Knowledge.Store.Query.{query}
use agentic_demo.Reports.AgentLoop.{AgentEnv}
use agentic_demo.Reports.Worker.{ReportEnv, unfiltered}
use agentic_demo.Reports.Worker.Context.{Isolated, retrieved-Isolated}

abbrev piece : Text → Text → Chunk
piece id document_id = record {
  id = id;
  content = lit "part";
  source = lit "a.txt";
  document_type = lit "text";
  document_id = document_id;
  date = 0;
  metadata = [];
}

abbrev pieces : List Chunk
pieces =
    piece (lit "c1") (lit "d1")
    ∷ piece (lit "c2") (lit "d1")
    ∷ piece (lit "c3") (lit "gone")
    ∷ piece (lit "c4") []
    ∷ []

abbrev library : KnowledgeTables
library = record {
  documents = λ k.
      if text_eq k (lit "d1")
      then some (record {
        tenant = lit "t_1";
        document = record {
          id = lit "d1";
          source = lit "a.txt";
          content = lit "whole";
          metadata = [];
        };
      })
      else none;
  chunks =
      map (λ c. record { tenant = lit "t_1"; chunk = c; embedding = 1 ∷ []; model = lit "m" })
        pieces;
}

-- An index that finds the first row only.
abbrev nearest : Vector → List ChunkRow → List ChunkRow
nearest v [] = []
nearest v (r ∷ rows) = r ∷ []

nearest-DrawnFrom : (v : Vector) (rows : List ChunkRow) → DrawnFrom rows (nearest v rows)
nearest-DrawnFrom v [] r i = i
nearest-DrawnFrom v (x ∷ rows) r (inl e) = inl e
nearest-DrawnFrom v (x ∷ rows) r (inr i) = absurd i

abbrev embedder : StoreEnv
embedder = record {
  begin_ok = true;
  delete_ok = true;
  commit_ok = true;
  document_ok = λ d. true;
  chunk_ok = λ c v. true;
  embed = λ texts. some (map (λ s. 1 ∷ []) texts);
  model = lit "m";
}

abbrev writer : AgentEnv
writer = record {
  complete = λ n ms tools. none;
  invoke = λ n name params. record { output = []; error = [] };
  max_tool_calls = 1;
  max_llm_calls = 1;
}

abbrev reporting : ReportEnv
reporting = record {
  order = nearest;
  store = embedder;
  score = λ c. lit "0.90";
  agent = writer;
  system_prompt = λ config. lit "You write reports.";
  new_id = lit "r1";
  now = 0;
}

retrieved-Isolated_example :
    Isolated reporting library
      (lit "t_1")
      (query reporting.order reporting.store library (lit "t_1") (lit "what") (pos 10) unfiltered)
retrieved-Isolated_example =
    retrieved-Isolated reporting nearest-DrawnFrom library (lit "t_1") (lit "what") (pos 10)
      unfiltered
