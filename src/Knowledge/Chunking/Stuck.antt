-- ===== src/Knowledge/Chunking/Stuck.antt =====
-- splitBySize of internal/knowledge/chunking.go with an overlap that is not below the chunk size.
use agentic_demo.Prelude.{
  ℕ, zero, suc, ◌+◌, ◌-◌, ◌≤◌, ◌<◌, ◌≡◌, refl, inl, inr, false, List, [], ◌∷◌, Text, length, take,
  drop, min, ltb, ◌==◌, arith, Bool-cases, ltb→lt, lt→ltb,
}
use agentic_demo.Knowledge.Chunking.{
  RecursiveChunker, Outcome, finished, panics, no_fuel, prepend, window, windows,
}
use agentic_demo.Knowledge.Chunking.Windows.{Finishes, window-more, ltb_false→le}

Finishes-rest :
    {A : Type 0} (xs : List A) (r : Outcome (List A))
    → Finishes (λ ps. Unit {0}) (prepend xs r)
    → Finishes (λ ps. Unit {0}) r
Finishes-rest xs (finished ys) h = tt
Finishes-rest xs panics h = h
Finishes-rest xs no_fuel h = h

==_short : (n m : ℕ) → n < m → (min n m == m) ≡ false
==_short n m h = ground arith

window-panics :
    (c : RecursiveChunker) (text : Text) (next : ℕ → Outcome (List Text))
    → c.chunk_size < c.chunk_overlap
    → c.chunk_size < length text
    → window c text 0 next ≡ panics
window-panics c text next o h =
    rw
      (
        lt→ltb 0 (length text) (omega arith),
        ==_short (0 + c.chunk_size) (length text) (omega arith),
        lt→ltb (0 + c.chunk_size) c.chunk_overlap (omega arith),
      )
      refl

back-to-start : (n m : ℕ) → n ≤ m → 0 + n - m ≡ 0
back-to-start n m h = omega arith

-- With an overlap of a chunk or more, the loop of `splitBySize` on a text longer than a chunk
-- finishes after no number of iterations: it panics, or stays at the first index for ever.
pub windows-stuck :
    (fuel : ℕ) (c : RecursiveChunker) (text : Text)
    → c.chunk_size ≤ c.chunk_overlap
    → c.chunk_size < length text
    → ¬ Finishes (λ ps. Unit {0}) (windows fuel c text 0)
unfolding windows
windows-stuck zero c text o h = λ x. x
windows-stuck (suc fuel) c text o h = elim (Bool-cases (ltb c.chunk_size c.chunk_overlap)) [
  | inl e ↦
      rw (window-panics c text (windows fuel c text) (ltb→lt c.chunk_size c.chunk_overlap e) h)
        (λ x. x)
  | inr e ↦
      rw
        (
          window-more c text 0 (windows fuel c text) (ltb_false→le e) (omega arith),
          back-to-start c.chunk_size c.chunk_overlap o,
        )
        (λ x.
          windows-stuck fuel c text o h
            (Finishes-rest (take c.chunk_size (drop 0 text) ∷ []) (windows fuel c text 0) x))
]
