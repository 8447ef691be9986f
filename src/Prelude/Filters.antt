-- ===== src/Prelude/Filters.antt =====
-- What `keep_if` keeps, and when two tests keep the same.
use mathlib.Core.Path.{◌≡◌, refl, subst}
use mathlib.Core.Logic.{◌≢◌, ◌⊎◌, inl, inr}
use mathlib.Core.Bool.{Bool, true, false, not}
use mathlib.Core.List.{List, [], ◌∷◌, ◌++◌}
use agentic_demo.Prelude.Tests.{if◌then◌else◌, if_both, Bool-cases}
use agentic_demo.Prelude.Lists.{keep_if, All, In}
use agentic_demo.Prelude.Texts.{Text, text_eq, text_eq_refl, eq_of_text_eq}

pub text_eq-ne : (s t : Text) → s ≢ t → text_eq s t ≡ false
text_eq-ne s t h = elim (Bool-cases (text_eq s t)) [
  | inl e ↦ absurd (h (eq_of_text_eq s t e))
  | inr e ↦ e
]

pub ne_of_text_eq : (s t : Text) → text_eq s t ≡ false → s ≢ t
ne_of_text_eq s t h e = let k = rw e at h in let r = text_eq_refl t in cc

pub text_eq-swap : (s t : Text) → text_eq s t ≡ false → text_eq t s ≡ false
text_eq-swap s t h = text_eq-ne t s (λ e. let k = rw e at h in let r = text_eq_refl s in cc)

module _ {ℓ} {A : Type ℓ} where
  pub keep_if-append :
      (p : A → Bool) (xs ys : List A) → keep_if p (xs ++ ys) ≡ keep_if p xs ++ keep_if p ys
  unfolding keep_if
  keep_if-append p [] ys = refl
  keep_if-append p (x ∷ xs) ys = elim (Bool-cases (p x)) [
    | inl e ↦ rw (e, keep_if-append p xs ys)
    | inr e ↦ rw (e, keep_if-append p xs ys)
  ]

  pub keep_if-same :
      (p q : A → Bool) (xs : List A) → All (λ x. p x ≡ q x) xs → keep_if p xs ≡ keep_if q xs
  unfolding keep_if
  keep_if-same p q [] h = refl
  keep_if-same p q (x ∷ xs) h = rw (h.0, keep_if-same p q xs h.1)

  pub keep_if_whole : (p : A → Bool) (xs : List A) → All (λ x. p x ≡ true) xs → keep_if p xs ≡ xs
  unfolding keep_if
  keep_if_whole p [] h = refl
  keep_if_whole p (x ∷ xs) h = rw (h.0, keep_if_whole p xs h.1)

  pub keep_if-none : (p : A → Bool) (xs : List A) → All (λ x. p x ≡ false) xs → keep_if p xs ≡ []
  unfolding keep_if
  keep_if-none p [] h = refl
  keep_if-none p (x ∷ xs) h = rw (h.0, keep_if-none p xs h.1)

  -- The second test passes what the first passes.
  pub keep_if_under :
      (p q : A → Bool) (xs : List A)
      → ((x : A) → p x ≡ true → q x ≡ true)
      → keep_if p (keep_if q xs) ≡ keep_if p xs
  unfolding keep_if
  keep_if_under p q [] h = refl
  keep_if_under p q (x ∷ xs) h = elim (Bool-cases (p x)) [
    | inl e ↦ rw (h x e, e, keep_if_under p q xs h)
    | inr e ↦ elim (Bool-cases (q x)) [
      | inl f ↦ rw (f, e, keep_if_under p q xs h)
      | inr f ↦ rw (f, e, keep_if_under p q xs h)
    ]
  ]

  -- What passes the first test passes the second.
  pub keep_if-not :
      (p q : A → Bool) (xs : List A)
      → ((x : A) → p x ≡ true → q x ≡ true)
      → keep_if p (keep_if (λ x. not (q x)) xs) ≡ []
  unfolding keep_if
  keep_if-not p q [] h = refl
  keep_if-not p q (x ∷ xs) h = elim (Bool-cases (q x)) [
    | inl f ↦ rw (f, keep_if-not p q xs h)
    | inr f ↦ elim (Bool-cases (p x)) [
      | inl e ↦ absurd (let k = h x e in cc)
      | inr e ↦ rw (f, e, if◌then◌else◌) (keep_if-not p q xs h)
    ]
  ]

pub keep_if-All {ℓ κ} :
    {A : Type ℓ} (P : A → Type κ) (p : A → Bool) (xs : List A) → All P xs → All P (keep_if p xs)
unfolding keep_if
keep_if-All P p [] h = tt
keep_if-All P p (x ∷ xs) h =
    if_both (All P) (p x) (h.0, keep_if-All P p xs h.1) (keep_if-All P p xs h.1)

pub keep_if-passes {ℓ} :
    {A : Type ℓ} (p : A → Bool) (xs : List A) → All (λ x. p x ≡ true) (keep_if p xs)
unfolding keep_if
keep_if-passes p [] = tt
keep_if-passes p (x ∷ xs) = elim (Bool-cases (p x)) [
  | inl e ↦ rw e (e, keep_if-passes p xs)
  | inr e ↦ rw e (keep_if-passes p xs)
]

pub All-map {ℓ κ ι} :
    {A : Type ℓ} (P : A → Type κ) (Q : A → Type ι) (xs : List A)
    → ((x : A) → P x → Q x)
    → All P xs
    → All Q xs
All-map P Q [] f h = tt
All-map P Q (x ∷ xs) f h = (f x h.0, All-map P Q xs f h.1)

pub All-both {ℓ κ ι} :
    {A : Type ℓ} (P : A → Type κ) (Q : A → Type ι) (xs : List A)
    → All P xs
    → All Q xs
    → All (λ x. P x × Q x) xs
All-both P Q [] h k = tt
All-both P Q (x ∷ xs) h k = ((h.0, k.0), All-both P Q xs h.1 k.1)

pub In-keep_if :
    {A : Type 0} (x : A) (p : A → Bool) (xs : List A) → In x (keep_if p xs) → In x xs × (p x ≡ true)
unfolding keep_if
In-keep_if x p [] h = absurd h
In-keep_if x p (y ∷ ys) h = elim (Bool-cases (p y)) [
  | inr e ↦ let g = rw e at h in let i = In-keep_if x p ys g in (inr i.0, i.1)
  | inl e ↦
      let g : (y ≡ x) ⊎ In x (keep_if p ys) = rw e at h in
      elim g [
        | inl q ↦ (inl q, subst (λ z. p z ≡ true) q e)
        | inr k ↦ let i = In-keep_if x p ys k in (inr i.0, i.1)
      ]
]
