-- ===== src/Examples/Documents.antt =====
-- Inputs for the chunker.
use agentic_demo.Prelude.{List, Text, lit, arith}
use agentic_demo.Knowledge.Chunking.{RecursiveChunker, split_by_size, contents, windows}
use agentic_demo.Knowledge.Chunking.Windows.{Finishes, Splits, split_by_size-Splits}
use agentic_demo.Knowledge.Chunking.Stuck.{windows-stuck}
use agentic_demo.Knowledge.Chunking.Bounds.{Short, contents-Short}

abbrev small : RecursiveChunker
small = record { chunk_size = 10; chunk_overlap = 3 }

abbrev text : Text
text = lit "The quick brown fox jumps over the lazy dog."

split_by_size-Splits_example : Finishes (Splits small text) (split_by_size small text)
split_by_size-Splits_example = split_by_size-Splits small text (omega arith)

contents-Short_example : Finishes (Short small) (contents small text)
contents-Short_example = contents-Short small text (omega arith)

-- `NewRecursiveChunker(20, 0)`: the default overlap of 200 is above the chunk size.
abbrev narrow : RecursiveChunker
narrow = record { chunk_size = 20; chunk_overlap = 200 }

windows-stuck_example : ¬ Finishes (λ (ps : List Text). Unit {0}) (windows 1000 narrow text 0)
windows-stuck_example = windows-stuck 1000 narrow text (omega arith) (omega arith)
