-- ===== src/Ingestion/Connector/Keys.antt =====
-- The keys that internal/ingestion/connector.go accepts are those that internal/storage/key.go does.
use agentic_demo.Prelude.{
  ◌≡◌, refl, inl, inr, Bool, true, false, not, ◌||◌, List, [], ◌∷◌, Text, lit, text_eq, any_of,
  is_empty, has_prefix, split, Result, ok, err, Bool-cases, ◌∙◌,
}
use agentic_demo.Storage.Key.{StorageError, escapes, object_key}
use agentic_demo.Ingestion.Connector.{parts_valid, validate_object_key}

parts_valid-any_of :
    (parts : List Text) → parts_valid parts ≡ not (any_of (λ part. text_eq part (lit "..")) parts)
unfolding parts_valid any_of
parts_valid-any_of [] = refl
parts_valid-any_of (part ∷ parts) = elim (Bool-cases (text_eq part (lit ".."))) [
  | inl e ↦ rw e
  | inr e ↦ rw e (parts_valid-any_of parts)
]

pub validate_object_key-escapes : (key : Text) → validate_object_key key ≡ not (escapes key)
unfolding validate_object_key escapes
validate_object_key-escapes key = elim (Bool-cases (is_empty key)) [
  | inl e ↦ rw e
  | inr e ↦ elim (Bool-cases (has_prefix key (lit "/") || has_prefix key (lit "tenant/"))) [
    | inl f ↦ rw (e, f)
    | inr f ↦ rw (e, f) (parts_valid-any_of (split key (lit "/")))
  ]
]

abbrev pub is_ok : Result StorageError Text → Bool
is_ok (ok full) = true
is_ok (err e) = false

-- The resolver of connectors accepts exactly the keys that the object store accepts, for any tenant.
validate_object_key-object_key :
    (tenant key : Text) → validate_object_key key ≡ is_ok (object_key tenant key)
unfolding object_key
validate_object_key-object_key tenant key =
    validate_object_key-escapes key
    ∙ elim (Bool-cases (escapes key)) [ inl e ↦ rw e | inr e ↦ rw e ]
