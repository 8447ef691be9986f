-- ===== src/Ingestion/Parser/Pdf/Characters.antt =====
-- normalizePDFText of internal/ingestion/parser.go moves white space only.
use mathlib.Core.List.{reverse-cons, reverse-reverse}
use agentic_demo.Prelude.{
  ℕ, ◌≡◌, refl, sym, ap, ◌∙◌, inl, inr, Bool, true, false, not, List, [], ◌∷◌, ◌++◌, reverse,
  append_assoc, append-nil, Text, is_space, is_empty, trim_left, trim_space, split_from, split,
  join, has_prefix, keep_if, keep_if-append, if_both, if_split, Bool-cases, if◌then◌else◌, ◌==◌,
  ==_iff,
}
use agentic_demo.Ingestion.Parser.Pdf.{
  ends_sentence, spaced, join_words, last_char, flush_words, one_line, line_paragraphs,
  normalize_pdf_text,
}

-- The characters of a text that are no white space.
unfoldable pub squeeze : Text → Text
unfolding keep_if is_space
squeeze s = keep_if (λ c. not (is_space c)) s

abbrev squeeze_all : List Text → Text
squeeze_all [] = []
squeeze_all (p ∷ ps) = squeeze p ++ squeeze_all ps

squeeze-append : (s t : Text) → squeeze (s ++ t) ≡ squeeze s ++ squeeze t
unfolding squeeze
squeeze-append s t = keep_if-append (λ c. not (is_space c)) s t

squeeze_all-append : (ps qs : List Text) → squeeze_all (ps ++ qs) ≡ squeeze_all ps ++ squeeze_all qs
squeeze_all-append [] qs = refl
squeeze_all-append (p ∷ ps) qs =
    ap (λ s. squeeze p ++ s) (squeeze_all-append ps qs)
    ∙ sym (append_assoc (squeeze p) (squeeze_all ps) (squeeze_all qs))

squeeze-cons : (c : ℕ) (s : Text) → squeeze (c ∷ s) ≡ squeeze (c ∷ []) ++ squeeze s
squeeze-cons c s = squeeze-append (c ∷ []) s

squeeze-space : (c : ℕ) → is_space c ≡ true → squeeze (c ∷ []) ≡ []
unfolding squeeze keep_if
squeeze-space c h = rw h

squeeze-other : (c : ℕ) → is_space c ≡ false → squeeze (c ∷ []) ≡ c ∷ []
unfolding squeeze keep_if
squeeze-other c h = rw h

reversed :
    (c : ℕ) (s : Text)
    → squeeze (reverse s) ≡ reverse (squeeze s)
    → squeeze (reverse s) ++ squeeze (c ∷ []) ≡ reverse (squeeze (c ∷ s))
reversed c s h = elim (Bool-cases (is_space c)) [
  | inl e ↦ rw (squeeze-cons c s, squeeze-space c e, append-nil (squeeze (reverse s))) h
  | inr e ↦ rw (squeeze-cons c s, squeeze-other c e, h) (sym (reverse-cons c (squeeze s)))
]

squeeze-reverse : (s : Text) → squeeze (reverse s) ≡ reverse (squeeze s)
unfolding squeeze
squeeze-reverse [] = refl
squeeze-reverse (c ∷ s) =
    ap squeeze (reverse-cons c s)
    ∙ squeeze-append (reverse s) (c ∷ [])
    ∙ reversed c s (squeeze-reverse s)

squeeze-trim_left : (s : Text) → squeeze (trim_left s) ≡ squeeze s
unfolding trim_left
squeeze-trim_left [] = refl
squeeze-trim_left (c ∷ s) =
    if_split (λ (u : Text). squeeze u ≡ squeeze (c ∷ s)) (is_space c)
      (λ e. squeeze-trim_left s ∙ sym (squeeze-cons c s ∙ rw (squeeze-space c e))) (λ e. refl)

squeeze-trim_space : (s : Text) → squeeze (trim_space s) ≡ squeeze s
unfolding trim_space
squeeze-trim_space s =
    squeeze-reverse (trim_left (reverse (trim_left s)))
    ∙ ap reverse (squeeze-trim_left (reverse (trim_left s)) ∙ squeeze-reverse (trim_left s))
    ∙ reverse-reverse (squeeze (trim_left s))
    ∙ squeeze-trim_left s

abbrev line_feed : Text
line_feed = 10 ∷ []

split_from-line :
    (part : Text) (c : ℕ) (s : Text)
    → split_from line_feed 0 part (c ∷ s) ≡ (
        if c == 10
        then reverse part ∷ split_from line_feed 0 [] s
        else split_from line_feed 0 (c ∷ part) s)
unfolding split_from has_prefix
split_from-line part c s = elim (Bool-cases (c == 10)) [
  | inl e ↦ rw (split_from, has_prefix, e)
  | inr e ↦ rw (split_from, has_prefix, e)
]

is_space-line : (c : ℕ) → (c == 10) ≡ true → is_space c ≡ true
unfolding is_space
is_space-line c h = let e : c ≡ 10 = (==_iff c 10).0 h in rw e refl

squeeze-split_from :
    (part s : Text)
    → squeeze_all (split_from line_feed 0 part s) ≡ squeeze (reverse part) ++ squeeze s
unfolding split_from squeeze keep_if
squeeze-split_from part [] = refl
squeeze-split_from part (c ∷ s) = rw (split_from-line part c s) (
    if_split (λ (ps : List Text). squeeze_all ps ≡ squeeze (reverse part) ++ squeeze (c ∷ s))
      (c == 10)
      (λ e.
        ap (λ t. squeeze (reverse part) ++ t)
          (squeeze-split_from [] s
            ∙ sym (squeeze-cons c s ∙ rw (squeeze-space c (is_space-line c e)))))
      (λ e.
        squeeze-split_from (c ∷ part) s
        ∙ ap (λ t. t ++ squeeze s)
            (ap squeeze (reverse-cons c part) ∙ squeeze-append (reverse part) (c ∷ []))
        ∙ append_assoc (squeeze (reverse part)) (squeeze (c ∷ [])) (squeeze s)
        ∙ ap (λ t. squeeze (reverse part) ++ t) (sym (squeeze-cons c s))))

squeeze-join : (ps : List Text) → squeeze (join ps (10 ∷ 10 ∷ [])) ≡ squeeze_all ps
unfolding join squeeze keep_if is_space
squeeze-join [] = refl
squeeze-join (p ∷ []) = sym (append-nil (squeeze p))
squeeze-join (p ∷ q ∷ ps) =
    squeeze-append p ((10 ∷ 10 ∷ []) ++ join (q ∷ ps) (10 ∷ 10 ∷ []))
    ∙ ap (λ s. squeeze p ++ s)
        (squeeze-append (10 ∷ 10 ∷ []) (join (q ∷ ps) (10 ∷ 10 ∷ [])) ∙ squeeze-join (q ∷ ps))

is_space-blank : is_space 32 ≡ true
unfolding is_space
is_space-blank = refl

squeeze-nil : squeeze [] ≡ []
unfolding squeeze keep_if
squeeze-nil = refl

squeeze-spaced : (b : Text) → squeeze (spaced b) ≡ squeeze b
squeeze-spaced [] = refl
squeeze-spaced (c ∷ b) =
    squeeze-append (c ∷ b) (32 ∷ [])
    ∙ rw (squeeze-space 32 is_space-blank) (append-nil (squeeze (c ∷ b)))

squeeze-join_words :
    (b : Text) (join_next : Bool) (ws : List Text)
    → squeeze (join_words b join_next ws) ≡ squeeze b ++ squeeze_all ws
unfolding join_words
squeeze-join_words b join_next [] = sym (append-nil (squeeze b))
squeeze-join_words b true (w ∷ ws) =
    squeeze-join_words (b ++ w) false ws
    ∙ rw (squeeze-append b w) (append_assoc (squeeze b) (squeeze w) (squeeze_all ws))
squeeze-join_words b false (w ∷ ws) =
    squeeze-join_words (spaced b ++ w) (last_char w == b'-') ws
    ∙ rw (squeeze-append (spaced b) w, squeeze-spaced b)
        (append_assoc (squeeze b) (squeeze w) (squeeze_all ws))

squeeze-flush : (ws : List Text) → squeeze_all (flush_words ws) ≡ squeeze_all ws
unfolding flush_words
squeeze-flush [] = refl
squeeze-flush (w ∷ ws) = append-nil _ ∙ squeeze-join_words [] false (w ∷ ws) ∙ rw squeeze-nil

squeeze-one_line :
    (line : Text) (words : List Text) (next : List Text → List Text) (rest : Text)
    → ((ws : List Text) → squeeze_all (next ws) ≡ squeeze_all ws ++ rest)
    → squeeze_all (one_line line words next) ≡ squeeze_all words ++ (squeeze line ++ rest)
unfolding one_line is_empty
squeeze-one_line [] words next rest h = h words ∙ rw squeeze-nil
squeeze-one_line (c ∷ line) words next rest h =
    let added : squeeze_all (words ++ ((c ∷ line) ∷ [])) ≡ squeeze_all words ++ squeeze (c ∷ line) =
      squeeze_all-append words ((c ∷ line) ∷ [])
      ∙ ap (λ t. squeeze_all words ++ t) (append-nil (squeeze (c ∷ line))) in
    let assoc = append_assoc (squeeze_all words) (squeeze (c ∷ line)) rest in
    if_both (λ (ps : List Text). squeeze_all ps ≡ squeeze_all words ++ (squeeze (c ∷ line) ++ rest))
      (ends_sentence (c ∷ line))
      (squeeze_all-append (flush_words (words ++ ((c ∷ line) ∷ []))) (next [])
        ∙ rw (squeeze-flush (words ++ ((c ∷ line) ∷ [])), added, h []) assoc)
      (h (words ++ ((c ∷ line) ∷ [])) ∙ rw added assoc)

squeeze-paragraphs :
    (lines words : List Text)
    → squeeze_all (line_paragraphs lines words) ≡ squeeze_all words ++ squeeze_all lines
unfolding line_paragraphs
squeeze-paragraphs [] words = squeeze-flush words ∙ sym (append-nil (squeeze_all words))
squeeze-paragraphs (line ∷ lines) words =
    squeeze-one_line (trim_space line) words (line_paragraphs lines) (squeeze_all lines)
      (squeeze-paragraphs lines)
    ∙ rw (squeeze-trim_space line)

-- Normalising the text of a page keeps every character that is no white space, in order, and adds
-- none.
pub normalize_pdf_text-squeeze : (page : Text) → squeeze (normalize_pdf_text page) ≡ squeeze page
unfolding normalize_pdf_text split squeeze
normalize_pdf_text-squeeze page =
    squeeze-join (line_paragraphs (split page line_feed) [])
    ∙ squeeze-paragraphs (split page line_feed) []
    ∙ squeeze-split_from [] page
