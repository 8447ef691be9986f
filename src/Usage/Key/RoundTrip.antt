-- ===== src/Usage/Key/RoundTrip.antt =====
-- A usage key is parsed back into the parts that it was built from, and no other key is parsed.
use agentic_demo.Prelude.{
  ℕ, zero, suc, ◌+◌, ◌≡◌, ◌≢◌, ◌↔◌, refl, ap, ◌∙◌, inl, inr, true, false, some, List, [], ◌∷◌, ◌++◌,
  Text, lit, length, take, drop, All, has_prefix, is_empty, arith, Bool-cases, Option-cases, ◌==◌,
  if◌then◌else◌,
}
use native.Mathlib.Nat.{suc-add}
use agentic_demo.Usage.Key.{
  redis_key, index_of, split_n_from, split_n, three_parts, parse_usage_key,
}

-- A text without the separator.
abbrev pub NoColon : Text → Type 0
NoColon = All (λ c. c ≢ b':')

index_of-colon :
    (s rest : Text) → NoColon s → index_of (s ++ (lit ":" ++ rest)) (lit ":") ≡ some (length s)
unfolding index_of has_prefix
index_of-colon [] rest h = refl
index_of-colon (c ∷ s) rest h = ground (arith, index_of-colon s rest h.1, h.0)

take-length-append : (s t : Text) → take (length s) (s ++ t) ≡ s
take-length-append [] t = refl
take-length-append (c ∷ s) t = rw (take-length-append s t)

drop-length-append : (s t : Text) → drop (length s + 1) (s ++ (lit ":" ++ t)) ≡ t
drop-length-append [] t = refl
drop-length-append (c ∷ s) t = rw (suc-add (length s) 1) (drop-length-append s t)

-- A round of `splitN` takes the part in front of the first separator.
split_n_from-colon :
    (rounds : ℕ) (s rest : Text) (result : List Text)
    → NoColon s
    → split_n_from (suc rounds) (s ++ (lit ":" ++ rest)) (lit ":") result
      ≡ split_n_from rounds rest (lit ":") (result ++ (s ∷ []))
unfolding split_n_from
split_n_from-colon rounds s rest result h =
    rw (index_of-colon s rest h, split_n_from)
      (rw (take-length-append s (lit ":" ++ rest), drop-length-append s rest))

parts :
    (tenant date model : Text)
    → NoColon tenant
    → NoColon date
    → is_empty model ≡ false
    → split_n (tenant ++ (lit ":" ++ (date ++ (lit ":" ++ model)))) (lit ":") 3
      ≡ tenant ∷ date ∷ model ∷ []
unfolding split_n
parts tenant date model ht hd hm = rw (
  split_n_from-colon 1 tenant (date ++ (lit ":" ++ model)) [] ht,
  split_n_from-colon 0 date model (tenant ∷ []) hd,
  hm,
)

is_empty-colon : (s rest : Text) → is_empty (s ++ (lit ":" ++ rest)) ≡ false
unfolding is_empty
is_empty-colon [] rest = refl
is_empty-colon (c ∷ s) rest = refl

parse_usage_key-redis_key :
    (tenant date model : Text)
    → NoColon tenant
    → NoColon date
    → is_empty model ≡ false
    → parse_usage_key (redis_key tenant date model) ≡ some (tenant, date, model)
unfolding parse_usage_key redis_key
parse_usage_key-redis_key tenant date model ht hd hm =
    rw (parts tenant date model ht hd hm, parse_usage_key)
      (rw (is_empty-colon tenant (date ++ (lit ":" ++ model))))

has_prefix-drop : (s p : Text) → has_prefix s p ≡ true → s ≡ p ++ drop (length p) s
unfolding has_prefix
has_prefix-drop s [] h = refl
has_prefix-drop [] (b ∷ p) h = cc
has_prefix-drop (a ∷ s) (b ∷ p) h = ground (arith, has_prefix-drop s p)

-- What the first separator of a text is, one character further to the left.
index_of-tail :
    (c : ℕ) (s : Text) (i : ℕ)
    → (c == b':') ≡ false
    → (s ≡ take i s ++ (lit ":" ++ drop (i + 1) s)) × NoColon (take i s)
    → (c ∷ s ≡ take (suc i) (c ∷ s) ++ (lit ":" ++ drop (suc i + 1) (c ∷ s)))
      × NoColon (take (suc i) (c ∷ s))
index_of-tail c s i e h = (rw (suc-add i 1) (ap (◌∷◌ c) h.0), (λ p. ground arith, h.1))

-- The first separator splits the text, and none stands in front of it.
index_of-some :
    (s : Text) (i : ℕ)
    → index_of s (lit ":") ≡ some i
    → (s ≡ take i s ++ (lit ":" ++ drop (i + 1) s)) × NoColon (take i s)
unfolding index_of has_prefix
index_of-some [] i h = cc
index_of-some (c ∷ s) zero h = elim (Bool-cases (c == b':')) [
  | inl e ↦ ground arith
  | inr e ↦ elim (Option-cases (index_of s (lit ":"))) [
    | inl q ↦ ground arith
    | inr (j, q) ↦ ground arith
  ]
]
index_of-some (c ∷ s) (suc i) h = elim (Bool-cases (c == b':')) [
  | inl e ↦ ground arith
  | inr e ↦ elim (Option-cases (index_of s (lit ":"))) [
    | inl q ↦ ground arith
    | inr (j, q) ↦ index_of-tail c s i e (index_of-some s i (ground arith))
  ]
]

last_part :
    (a b r tenant date model : Text)
    → three_parts (if is_empty r then a ∷ b ∷ [] else a ∷ b ∷ r ∷ []) ≡ some (tenant, date, model)
    → (a ≡ tenant) × (b ≡ date) × (r ≡ model) × (is_empty r ≡ false)
unfolding three_parts
last_part a b r tenant date model h = ground arith

-- What three parts of a text are, when `splitN` finds exactly three.
three_parts-split_n :
    (rest tenant date model : Text)
    → three_parts (split_n rest (lit ":") 3) ≡ some (tenant, date, model)
    → (rest ≡ tenant ++ (lit ":" ++ (date ++ (lit ":" ++ model))))
      × NoColon tenant
      × NoColon date
      × (is_empty model ≡ false)
unfolding split_n three_parts
three_parts-split_n rest tenant date model h = elim (Option-cases (index_of rest (lit ":"))) [
  | inl p ↦ absurd (let k = rw (p, split_n_from) at h in cc)
  | inr (i, p) ↦ elim (Option-cases (index_of (drop (i + 1) rest) (lit ":"))) [
    | inl q ↦ absurd (let k = rw (p, split_n_from, q, split_n_from) at h in cc)
    | inr (j, q) ↦
        let (a, b, r, n) =
          last_part (take i rest) (take j (drop (i + 1) rest)) (drop (j + 1) (drop (i + 1) rest))
            tenant date model (rw (p, split_n_from, q, split_n_from) at h) in
        let (e, c) = index_of-some rest i p in
        let (e', c') = index_of-some (drop (i + 1) rest) j q in
        rw (← a, ← b, ← r) (e ∙ ap (λ z. take i rest ++ (lit ":" ++ z)) e', c, c', n)
  ]
]

parse_usage_key-some :
    (key tenant date model : Text)
    → parse_usage_key key ≡ some (tenant, date, model)
    → (key ≡ redis_key tenant date model) × NoColon tenant × NoColon date × (is_empty model ≡ false)
unfolding parse_usage_key redis_key
parse_usage_key-some key tenant date model h = elim (Bool-cases (has_prefix key (lit "usage:"))) [
  | inl p ↦ elim (Bool-cases (is_empty (drop 6 key))) [
    | inl q ↦ absurd (let k = rw (p, q) at h in cc)
    | inr q ↦
        let (e, a, b, n) = three_parts-split_n (drop 6 key) tenant date model (rw (p, q) at h) in
        (has_prefix-drop key (lit "usage:") p ∙ ap (λ z. lit "usage:" ++ z) e, a, b, n)
  ]
  | inr p ↦ absurd (let k = rw p at h in cc)
]

-- A key is parsed into a tenant, a date and a model exactly if it is the key that `redisKey` builds
-- from them, neither the tenant nor the date holds a colon, and the model is not empty.
pub parse_usage_key_iff :
    (key tenant date model : Text)
    → (parse_usage_key key ≡ some (tenant, date, model)) ↔ (
        (key ≡ redis_key tenant date model)
        × NoColon tenant
        × NoColon date
        × (is_empty model ≡ false))
parse_usage_key_iff key tenant date model = (
  parse_usage_key-some key tenant date model,
  λ h. rw h.0 (parse_usage_key-redis_key tenant date model h.1 h.2 h.3),
)
