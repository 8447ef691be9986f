-- ===== src/Knowledge/Chunking/Bounds.antt =====
-- The lengths of the chunks of chunkDocument in internal/knowledge/chunking.go.
use agentic_demo.Prelude.{
  ℕ, ◌+◌, ◌-◌, ◌≤◌, ◌<◌, ◌≡◌, refl, inl, inr, Bool, true, false, ◌&&◌, List, [], ◌∷◌, Text, length,
  All, All-append, ltb, arith, Bool-cases, utf8_len, is_empty, trim_space, split,
  length-le-utf8_len, length-append, length-drop,
}
use agentic_demo.Knowledge.Chunking.{
  RecursiveChunker, Outcome, finished, panics, no_fuel, prepend, and_then, split_by_size, get_tail,
  flushed, written, is_full, place, one_paragraph, paragraphs, contents,
}
use agentic_demo.Knowledge.Chunking.Windows.{
  Finishes, Finishes-prepend, Splits, split_by_size-Splits, ltb_false→le,
}

-- No text is longer, in runes, than a chunk, an overlap and a paragraph break.
abbrev pub Short : RecursiveChunker → List Text → Type 0
Short c ps = All (λ p. length p ≤ c.chunk_size + c.chunk_overlap + 2) ps

Fits : RecursiveChunker → Text → Type 0
Fits c current = length current ≤ c.chunk_size + c.chunk_overlap + 2

prepend-Short :
    (c : RecursiveChunker) (xs : List Text) (r : Outcome (List Text))
    → Short c xs
    → Finishes (Short c) r
    → Finishes (Short c) (prepend xs r)
prepend-Short c xs r h = Finishes-prepend (Short c) (Short c) xs r (λ ys. All-append _ xs ys h)

All-weaken :
    (n m : ℕ) (ps : List Text) → n ≤ m → All (λ p. length p ≤ n) ps → All (λ p. length p ≤ m) ps
All-weaken n m [] h a = tt
All-weaken n m (p ∷ ps) h a = (omega (arith, a.0), All-weaken n m ps h a.1)

and_then-Short :
    (c : RecursiveChunker) (text : Text) (x r : Outcome (List Text))
    → Finishes (Splits c text) x
    → Finishes (Short c) r
    → Finishes (Short c) (and_then x r)
and_then-Short c text (finished xs) r h k =
    prepend-Short c xs r
      (All-weaken c.chunk_size (c.chunk_size + c.chunk_overlap + 2) xs (omega arith) h.0) k
and_then-Short c text panics r h k = h
and_then-Short c text no_fuel r h k = h

flushed-Short : (c : RecursiveChunker) (current : Text) → Fits c current → Short c (flushed current)
unfolding Fits
flushed-Short c [] h = tt
flushed-Short c (x ∷ s) h = (h, tt)

length-written-le :
    (current para : Text) → length (written current para) ≤ length current + length para + 2
length-written-le [] para = omega arith
length-written-le (x ∷ s) para = omega (arith, length-append s (10 ∷ 10 ∷ para))

place-Short :
    (c : RecursiveChunker) (para current : Text) (next : Text → Outcome (List Text))
    → c.chunk_overlap < c.chunk_size
    → Fits c current
    → (length para ≤ c.chunk_size → Fits c (written current para))
    → ((t : Text) → Fits c t → Finishes (Short c) (next t))
    → Finishes (Short c) (place c para current next)
unfolding Fits
place-Short c para current next o h w n = elim (Bool-cases (ltb c.chunk_size (length para))) [
  | inl e ↦ rw e (
      prepend-Short c (flushed current) (and_then (split_by_size c para) (next []))
        (flushed-Short c current h)
        (and_then-Short c para (split_by_size c para) (next []) (split_by_size-Splits c para o)
          (n [] (omega arith))))
  | inr e ↦ rw e (n (written current para) (w (ltb_false→le e)))
]

tail-Fits : (c : RecursiveChunker) (current : Text) → length (get_tail c current) ≤ c.chunk_overlap
unfolding get_tail
tail-Fits c current = omega (arith, length-drop (length current - c.chunk_overlap) current)

and_true : (b : Bool) → b && true ≡ false → b ≡ false
and_true false h = refl
and_true true h = h

not_full-Fits :
    (c : RecursiveChunker) (current para : Text)
    → is_full c current para ≡ false
    → length para ≤ c.chunk_size
    → Fits c (written current para)
unfolding Fits is_empty
not_full-Fits c [] para h k = omega arith
not_full-Fits c (x ∷ s) para h k = omega (
  arith,
  ltb_false→le (and_true (ltb c.chunk_size (utf8_len (x ∷ s) + length para + 2)) h),
  length-le-utf8_len (x ∷ s),
  length-written-le (x ∷ s) para,
)

one_paragraph-Short :
    (c : RecursiveChunker) (para current : Text) (next : Text → Outcome (List Text))
    → c.chunk_overlap < c.chunk_size
    → Fits c current
    → ((t : Text) → Fits c t → Finishes (Short c) (next t))
    → Finishes (Short c) (one_paragraph c para current next)
unfolding Fits
one_paragraph-Short c para current next o h n = elim (Bool-cases (is_empty para)) [
  | inl e ↦ rw e (n current h)
  | inr e ↦ rw e (elim (Bool-cases (is_full c current para)) [
    | inl f ↦ rw f (
        prepend-Short c (current ∷ []) (place c para (get_tail c current) next) (h, tt)
          (place-Short c para (get_tail c current) next o (omega (arith, tail-Fits c current))
            (λ k. omega (arith, tail-Fits c current, length-written-le (get_tail c current) para))
            n))
    | inr f ↦ rw f (place-Short c para current next o h (not_full-Fits c current para f) n)
  ])
]

paragraphs-Short :
    (c : RecursiveChunker) (ps : List Text) (current : Text)
    → c.chunk_overlap < c.chunk_size
    → Fits c current
    → Finishes (Short c) (paragraphs c ps current)
unfolding paragraphs
paragraphs-Short c [] current o h = flushed-Short c current h
paragraphs-Short c (p ∷ ps) current o h =
    one_paragraph-Short c (trim_space p) current (paragraphs c ps) o h
      (λ t k. paragraphs-Short c ps t o k)

-- With an overlap below the chunk size, cutting a document terminates without a panic, and no
-- chunk is longer, in runes, than the chunk size, the overlap and a paragraph break together.
pub contents-Short :
    (c : RecursiveChunker) (content : Text)
    → c.chunk_overlap < c.chunk_size
    → Finishes (Short c) (contents c content)
unfolding contents Fits
contents-Short c content o = elim (Bool-cases (is_empty (trim_space content))) [
  | inl e ↦ rw e tt
  | inr e ↦ rw e (paragraphs-Short c (split (trim_space content) (10 ∷ 10 ∷ [])) [] o (omega arith))
]
