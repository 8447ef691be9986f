-- ===== src/Sources/Reader/Projection.antt =====
-- What `Create` of internal/sources/service.go has written, `GetProjection` of reader.go reads.
use agentic_demo.Prelude.{
  ◌≡◌, ◌≢◌, refl, sym, ◌∙◌, inl, inr, Option, none, some, [], ◌∷◌, Text, text_eq, eq_of_text_eq,
  Result, ok, err, ◌>>=◌, Bool-cases, ne_of_text_eq,
}
use agentic_demo.Ingestion.Connector.{Source}
use agentic_demo.Sources.Service.{
  SourceRow, SourceError, answered, not_found, Sources, SourceEnv, SourceStep, CreateSource,
  create_source, encrypt_credentials, encrypted, get_source,
}
use agentic_demo.Sources.Service.Creation.{Holds, Written, create_source-Written}
use agentic_demo.Sources.Reader.{tenant_row, plain_credentials, projected, get_projection}

abbrev pub shown : Text → Option Text
shown [] = none
shown (c ∷ cs) = some (c ∷ cs)

-- The projection has the credentials in plaintext for the tenant, and is not found by another one.
abbrev pub Private : CreateSource → Text → Result SourceError Source → Type 0
Private p tenant (ok src) =
    (tenant ≡ p.tenant_id) × (src.tenant_id ≡ p.tenant_id) × (src.credentials ≡ shown p.credentials)
Private p tenant (err e) = (e ≡ not_found) × ¬ (tenant ≡ p.tenant_id)

-- Whatever `Create` has returned is read back so.
abbrev pub ReadBack : SourceEnv → CreateSource → SourceStep → Type 0
ReadBack env p (after, ok row) =
    (tenant : Text) → Private p tenant (get_projection env after tenant (some row.id))
ReadBack env p (after, err e) = Unit

module _ (env : SourceEnv)
    (opens : (x c : Text)
      → x ≢ []
      → env.encrypt x ≡ some c
      → (c ≢ []) × (env.decrypt c ≡ some x)) where
  plain-some :
      (x c : Text) → x ≢ [] → env.encrypt x ≡ some c → plain_credentials env c ≡ ok (some x)
  plain-some x [] n e = absurd ((opens x [] n e).0 refl)
  plain-some x (d ∷ ds) n e = rw ((opens x (d ∷ ds) n e).1)

  plain-encrypted :
      (x c : Text) (r : Option Text)
      → x ≢ []
      → env.encrypt x ≡ r
      → encrypted r ≡ ok c
      → plain_credentials env c ≡ ok (some x)
  plain-encrypted x c none n e h = absurd cc
  plain-encrypted x c (some d) n e h = let same : d ≡ c = cc in rw (← same) (plain-some x d n e)

  plain_credentials-encrypt_credentials :
      (x c : Text) → encrypt_credentials env x ≡ ok c → plain_credentials env c ≡ ok (shown x)
  unfolding encrypt_credentials
  plain_credentials-encrypt_credentials [] c h = let same : [] ≡ c = cc in rw (← same) refl
  plain_credentials-encrypt_credentials (x ∷ xs) c h =
      plain-encrypted (x ∷ xs) c (env.encrypt (x ∷ xs)) (λ e. absurd cc) refl h

  projected-Private :
      (p : CreateSource) (row : SourceRow) (tenant : Text)
      → row.tenant_id ≡ p.tenant_id
      → tenant ≡ row.tenant_id
      → plain_credentials env row.credentials ≡ ok (shown p.credentials)
      → Private p tenant (projected env row)
  projected-Private p row tenant own mine h = rw (h, ◌>>=◌) (mine ∙ own, own, refl)

  get_projection-Private :
      (p : CreateSource) (w : Sources) (row : SourceRow) (c : Text)
      → env.lookup ≡ answered
      → encrypt_credentials env p.credentials ≡ ok c
      → Holds p.tenant_id c (w, ok row)
      → (tenant : Text) → Private p tenant (get_projection env w tenant (some row.id))
  unfolding get_projection tenant_row get_source
  get_projection-Private p w row c up e (there, own, kept) tenant =
      let readable : plain_credentials env row.credentials ≡ ok (shown p.credentials) =
        rw kept (plain_credentials-encrypt_credentials p.credentials c e) in
      rw (up, there)
        (elim (Bool-cases (text_eq row.tenant_id tenant)) [
          | inl f ↦ rw f (
              projected-Private p row tenant own (sym (eq_of_text_eq row.tenant_id tenant f))
                readable)
          | inr f ↦ rw f (refl, λ same. ne_of_text_eq row.tenant_id tenant f (own ∙ sym same))
        ])

  written-ReadBack :
      (p : CreateSource) (s : SourceStep)
      → env.lookup ≡ answered
      → Written env p s
      → ReadBack env p s
  written-ReadBack p (after, ok row) up (c, e, h) = get_projection-Private p after row c up e h
  written-ReadBack p (after, err x) up h = tt

-- A source that was created is read back by its own tenant with the credentials in plaintext, and
-- is not found by any other tenant. A text that is not empty is encrypted to one that is not empty
-- and is decrypted to it, and the query of the row is answered.
pub get_projection-create_source :
    (env : SourceEnv)
    → ((x c : Text) → x ≢ [] → env.encrypt x ≡ some c → (c ≢ []) × (env.decrypt c ≡ some x))
    → env.lookup ≡ answered
    → (p : CreateSource) (w : Sources) → ReadBack env p (create_source env p w)
get_projection-create_source env opens up p w =
    written-ReadBack env opens p (create_source env p w) up (create_source-Written env p w)
