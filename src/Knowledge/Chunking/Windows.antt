-- ===== src/Knowledge/Chunking/Windows.antt =====
-- The windows of splitBySize in internal/knowledge/chunking.go.
use agentic_demo.Prelude.{
  ℕ, zero, suc, ◌+◌, ◌-◌, ◌≤◌, ◌<◌, ◌≡◌, refl, sym, ap, ◌∙◌, inl, inr, true, false, List, [], ◌∷◌,
  ◌++◌, Text, length, take, drop, All, min, ltb, ◌==◌, arith, Bool-cases, subst, append-nil,
  take-append-drop, length-take, length-drop, take-of_length-le, ltb→lt, lt→ltb,
}
use agentic_demo.Knowledge.Chunking.{
  RecursiveChunker, Outcome, finished, panics, no_fuel, prepend, window, windows, split_by_size,
}

-- The run ends with a value that has the property.
abbrev pub Finishes : {A : Type 0} → (A → Type 0) → Outcome A → Type 0
Finishes P (finished x) = P x
Finishes P panics = ⊥
Finishes P no_fuel = ⊥

-- The text that windows with an overlap of k runes were cut from, after the first window.
unfoldable pub joined : ℕ → List Text → Text
joined k [] = []
joined k (p ∷ ps) = drop k p ++ joined k ps

unfoldable pub rebuild : ℕ → List Text → Text
unfolding joined
rebuild k [] = []
rebuild k (p ∷ ps) = p ++ joined k ps

pub Finishes-prepend :
    {A : Type 0} (P Q : List A → Type 0) (xs : List A) (r : Outcome (List A))
    → ((ys : List A) → P ys → Q (xs ++ ys))
    → Finishes P r
    → Finishes Q (prepend xs r)
Finishes-prepend P Q xs (finished ys) f h = f ys h
Finishes-prepend P Q xs panics f h = elim h [ ]
Finishes-prepend P Q xs no_fuel f h = elim h [ ]

zero_add : (n : ℕ) → 0 + n ≡ n
zero_add n = omega arith

suc_add : (m n : ℕ) → suc m + n ≡ suc (m + n)
suc_add m n = omega arith

drop-nil : (n : ℕ) → drop {A = ℕ} n [] ≡ []
drop-nil zero = refl
drop-nil (suc n) = refl

drop-drop : (n m : ℕ) (s : Text) → drop n (drop m s) ≡ drop (m + n) s
drop-drop n m [] = rw (drop-nil m, drop-nil n, drop-nil (m + n)) refl
drop-drop n zero (c ∷ s) = rw (zero_add n) refl
drop-drop n (suc m) (c ∷ s) = rw (suc_add m n) (drop-drop n m s)

drop-append : (k : ℕ) (s t : Text) → k ≤ length s → drop k (s ++ t) ≡ drop k s ++ t
drop-append zero s t h = refl
drop-append (suc k) [] t h = absurd (omega arith)
drop-append (suc k) (c ∷ s) t h = drop-append k s t (omega arith)

==_self : (n : ℕ) → (n == n) ≡ true
==_self n = ground arith

==_false : (n m : ℕ) → n < m → (n == m) ≡ false
==_false n m h = ground arith

ltb-false : (n m : ℕ) → m ≤ n → ltb n m ≡ false
ltb-false n m h = ground arith

pub ltb_false→le : {n m : ℕ} → ltb n m ≡ false → m ≤ n
ltb_false→le {n = n} {m = m} h = ground arith

min-right : (n m : ℕ) → m ≤ n → min n m ≡ m
min-right n m h = omega arith

min-left : (n m : ℕ) → n < m → min n m ≡ n
min-left n m h = omega arith

add-sub : (n m : ℕ) → n + m - n ≡ m
add-sub n m = omega arith

window-last :
    (c : RecursiveChunker) (runes : Text) (i : ℕ) (next : ℕ → Outcome (List Text))
    → i < length runes
    → length runes ≤ i + c.chunk_size
    → window c runes i next ≡ finished (drop i runes ∷ [])
window-last c runes i next h k =
    rw
      (
        lt→ltb i (length runes) h,
        min-right (i + c.chunk_size) (length runes) k,
        ==_self (length runes),
      )
      (ap (λ d. finished (d ∷ []))
        (take-of_length-le (length runes - i) (drop i runes) (omega (arith, length-drop i runes))))

pub window-more :
    (c : RecursiveChunker) (runes : Text) (i : ℕ) (next : ℕ → Outcome (List Text))
    → c.chunk_overlap ≤ c.chunk_size
    → i + c.chunk_size < length runes
    → window c runes i next
      ≡ prepend (take c.chunk_size (drop i runes) ∷ []) (next (i + c.chunk_size - c.chunk_overlap))
window-more c runes i next h k =
    rw
      (
        lt→ltb i (length runes) (omega arith),
        min-left (i + c.chunk_size) (length runes) k,
        ==_false (i + c.chunk_size) (length runes) k,
        ltb-false (i + c.chunk_size) c.chunk_overlap (omega arith),
        add-sub i c.chunk_size,
      )
      refl

-- What the windows after the first hold: at most a chunk each, and the text from index n on.
abbrev pub Tiles : RecursiveChunker → Text → ℕ → List Text → Type 0
Tiles c runes n ps =
    All (λ p. length p ≤ c.chunk_size) ps × (joined c.chunk_overlap ps ≡ drop n runes)

Tiles-more :
    (c : RecursiveChunker) (runes : Text) (i : ℕ)
    → c.chunk_overlap < c.chunk_size
    → i + c.chunk_size < length runes
    → (ps : List Text) → Tiles c runes (i + c.chunk_size) ps
    → Tiles c runes (i + c.chunk_overlap) (take c.chunk_size (drop i runes) ∷ ps)
unfolding joined
Tiles-more c runes i o k ps h = (
  (omega (arith, length-take c.chunk_size (drop i runes)), h.0),
  rw (h.1, sym (drop-drop c.chunk_size i runes))
      (sym (
          drop-append c.chunk_overlap (take c.chunk_size (drop i runes))
            (drop c.chunk_size (drop i runes))
            (omega (arith, length-take c.chunk_size (drop i runes), length-drop i runes)))
        ∙ (ap (drop c.chunk_overlap) (take-append-drop c.chunk_size (drop i runes))
            ∙ drop-drop c.chunk_overlap i runes)),
)

back-to : (n m : ℕ) → m ≤ n → n - m + m ≡ n
back-to n m h = omega arith

windows-Tiles :
    (fuel : ℕ) (c : RecursiveChunker) (runes : Text) (i : ℕ)
    → c.chunk_overlap < c.chunk_size
    → i + c.chunk_overlap < length runes
    → length runes ≤ fuel + i
    → Finishes (Tiles c runes (i + c.chunk_overlap)) (windows fuel c runes i)
unfolding windows joined
windows-Tiles zero c runes i o h f = absurd (omega arith)
windows-Tiles (suc fuel) c runes i o h f =
    elim (Bool-cases (ltb (i + c.chunk_size) (length runes))) [
      | inr e ↦ rw (window-last c runes i (windows fuel c runes) (omega arith) (ltb_false→le e)) (
        (omega (arith, length-drop i runes, ltb_false→le e), tt),
        append-nil (drop c.chunk_overlap (drop i runes)) ∙ drop-drop c.chunk_overlap i runes,
      )
      | inl e ↦
          rw
            (window-more c runes i (windows fuel c runes) (omega arith)
              (ltb→lt (i + c.chunk_size) (length runes) e))
            (Finishes-prepend (Tiles c runes (i + c.chunk_size))
              (Tiles c runes (i + c.chunk_overlap)) (take c.chunk_size (drop i runes) ∷ [])
              (windows fuel c runes (i + c.chunk_size - c.chunk_overlap))
              (Tiles-more c runes i o (ltb→lt (i + c.chunk_size) (length runes) e))
              (subst
                (λ n.
                  Finishes (Tiles c runes n)
                    (windows fuel c runes (i + c.chunk_size - c.chunk_overlap)))
                (back-to (i + c.chunk_size) c.chunk_overlap (omega arith))
                (windows-Tiles fuel c runes (i + c.chunk_size - c.chunk_overlap) o
                  (omega (arith, ltb→lt (i + c.chunk_size) (length runes) e)) (omega arith))))
    ]

-- Pieces of at most a chunk each, from which the text can be put together again.
abbrev pub Splits : RecursiveChunker → Text → List Text → Type 0
Splits c text ps = All (λ p. length p ≤ c.chunk_size) ps × (rebuild c.chunk_overlap ps ≡ text)

Splits-more :
    (c : RecursiveChunker) (text : Text) (ps : List Text)
    → Tiles c text (0 + c.chunk_size) ps
    → Splits c text (take c.chunk_size (drop 0 text) ∷ ps)
unfolding rebuild
Splits-more c text ps h = (
  (omega (arith, length-take c.chunk_size text), h.0),
  rw (h.1, zero_add c.chunk_size) (take-append-drop c.chunk_size text),
)

-- With an overlap below the chunk size, `splitBySize` terminates without a panic, every piece has
-- at most a chunk's size of runes, and the pieces without their overlaps make up the text.
pub split_by_size-Splits :
    (c : RecursiveChunker) (text : Text)
    → c.chunk_overlap < c.chunk_size
    → Finishes (Splits c text) (split_by_size c text)
unfolding split_by_size windows rebuild joined
split_by_size-Splits c [] o = (tt, refl)
split_by_size-Splits c (x ∷ s) o = elim (Bool-cases (ltb (0 + c.chunk_size) (length (x ∷ s)))) [
  | inr e ↦
      rw
        (window-last c (x ∷ s) 0 (windows (length (x ∷ s)) c (x ∷ s)) (omega arith)
          (ltb_false→le e))
        ((omega (arith, ltb_false→le e), tt), append-nil (x ∷ s))
  | inl e ↦
      rw
        (window-more c (x ∷ s) 0 (windows (length (x ∷ s)) c (x ∷ s)) (omega arith)
          (ltb→lt (0 + c.chunk_size) (length (x ∷ s)) e))
        (Finishes-prepend (Tiles c (x ∷ s) (0 + c.chunk_size)) (Splits c (x ∷ s))
          (take c.chunk_size (x ∷ s) ∷ [])
          (windows (length (x ∷ s)) c (x ∷ s) (0 + c.chunk_size - c.chunk_overlap))
          (Splits-more c (x ∷ s))
          (subst
            (λ n.
              Finishes (Tiles c (x ∷ s) n)
                (windows (length (x ∷ s)) c (x ∷ s) (0 + c.chunk_size - c.chunk_overlap)))
            (back-to (0 + c.chunk_size) c.chunk_overlap (omega arith))
            (windows-Tiles (length (x ∷ s)) c (x ∷ s) (0 + c.chunk_size - c.chunk_overlap) o
              (omega (arith, ltb→lt (0 + c.chunk_size) (length (x ∷ s)) e)) (omega arith))))
]
