-- ===== src/Ingestion/Connector/Marks.antt =====
-- What Resolve of internal/ingestion/connector.go does to a source and to the object store.
use agentic_demo.Prelude.{
  ℕ, ◌≡◌, refl, inl, inr, true, Option, none, some, List, [], ◌∷◌, Text, text_eq, eq_of_text_eq,
  lit, is_empty, All, ok, err, if_both, Bool-cases, subst, if◌then◌else◌,
}
use agentic_demo.Ingestion.Parser.{DocType, pdf, docx, xlsx, text, csv, unknown}
use agentic_demo.Ingestion.Connector.{
  Source, FileUploadConfig, ResolveCause, resolution_failed, peek_failed, SourceCall, mark_error,
  read, ConnectorEnv, Resolution, validate_object_key, sniffed, sniff_doc_type, marked, with_type,
  after_calls, typed, configured, build_file_connector, loaded, resolve, extension_of,
  extension_to_doc_type, load_failed, unsupported_document_type, invalid_config, missing_object_key,
  invalid_object_key, foreign_source, unsupported_source_type,
}

-- The sources that the calls mark, in order.
abbrev pub marks_of : List SourceCall → List (Text × Text)
marks_of [] = []
marks_of (mark_error tenant id ∷ calls) = (tenant, id) ∷ marks_of calls
marks_of (read tenant key ∷ calls) = marks_of calls

abbrev pub SafeRead : Text → SourceCall → Type 0
SafeRead tenant (mark_error t id) = Unit
SafeRead tenant (read t key) = (t ≡ tenant) × (validate_object_key key ≡ true)

-- A source is marked once when it must not be tried again, and never when it resolves or the queue
-- retries; a connector reads a valid key of the tenant.
abbrev pub Marked : Text → Text → Resolution → Type 0
Marked tenant id (calls, ok c) =
    (marks_of calls ≡ [])
    × (c.tenant_id ≡ tenant)
    × (c.source_id ≡ id)
    × (validate_object_key c.object_key ≡ true)
Marked tenant id (calls, err (resolution_failed cause)) = marks_of calls ≡ (tenant, id) ∷ []
Marked tenant id (calls, err peek_failed) = marks_of calls ≡ []

abbrev pub Resolved : Text → Text → Resolution → Type 0
Resolved tenant id r = Marked tenant id r × All (SafeRead tenant) r.0

marked-Resolved :
    (tenant id : Text) (cause : ResolveCause) → Resolved tenant id (marked tenant id cause)
marked-Resolved tenant id cause = (refl, (tt, tt))

module _ (env : ConnectorEnv) (src : Source) (cfg : FileUploadConfig)
    (valid : validate_object_key cfg.object_key ≡ true) where
  with_type-Resolved :
      (t : DocType) → Resolved src.tenant_id src.source_id (with_type src cfg (ok t))
  with_type-Resolved unknown = marked-Resolved src.tenant_id src.source_id unsupported_document_type
  with_type-Resolved pdf = ((refl, refl, refl, valid), tt)
  with_type-Resolved docx = ((refl, refl, refl, valid), tt)
  with_type-Resolved xlsx = ((refl, refl, refl, valid), tt)
  with_type-Resolved text = ((refl, refl, refl, valid), tt)
  with_type-Resolved csv = ((refl, refl, refl, valid), tt)

  -- The call of a peek in front changes no mark.
  peeked-Resolved :
      (r : Resolution)
      → Resolved src.tenant_id src.source_id r
      → Resolved src.tenant_id src.source_id
          (after_calls (read src.tenant_id cfg.object_key ∷ []) r)
  peeked-Resolved (calls, ok c) h = (h.0, ((refl, valid), h.1))
  peeked-Resolved (calls, err (resolution_failed cause)) h = (h.0, ((refl, valid), h.1))
  peeked-Resolved (calls, err peek_failed) h = (h.0, ((refl, valid), h.1))

  sniffed-Resolved :
      (head : Option (List ℕ))
      → Resolved src.tenant_id src.source_id (with_type src cfg (sniffed head))
  sniffed-Resolved none = (refl, tt)
  sniffed-Resolved (some []) = (refl, tt)
  sniffed-Resolved (some (b ∷ bs)) = with_type-Resolved _

  typed-Resolved : (t : DocType) → Resolved src.tenant_id src.source_id (typed env src cfg t)
  unfolding typed sniff_doc_type
  typed-Resolved unknown =
      peeked-Resolved _ (sniffed-Resolved (env.get src.tenant_id cfg.object_key))
  typed-Resolved pdf = with_type-Resolved pdf
  typed-Resolved docx = with_type-Resolved docx
  typed-Resolved xlsx = with_type-Resolved xlsx
  typed-Resolved text = with_type-Resolved text
  typed-Resolved csv = with_type-Resolved csv

configured-Resolved :
    (env : ConnectorEnv) (src : Source) (cfg : Option FileUploadConfig)
    → Resolved src.tenant_id src.source_id (configured env src cfg)
unfolding configured
configured-Resolved env src none = marked-Resolved src.tenant_id src.source_id invalid_config
configured-Resolved env src (some cfg) =
    if_both (Resolved src.tenant_id src.source_id) (is_empty cfg.object_key)
      (marked-Resolved src.tenant_id src.source_id missing_object_key)
      (elim (Bool-cases (validate_object_key cfg.object_key)) [
        | inl e ↦ rw e (
            typed-Resolved env src cfg e
              (extension_to_doc_type (env.to_lower (extension_of cfg.filename))))
        | inr e ↦ rw e (marked-Resolved src.tenant_id src.source_id invalid_object_key)
      ])

-- The source that is meant: by the identifier of its projection, or by the one that was asked for, if
-- the tenant has no such source. A projection may spell the identifier otherwise.
abbrev pub meant : Text → Text → Option Source → Text
meant tenant id none = id
meant tenant id (some src) = if text_eq src.tenant_id tenant then src.source_id else id

loaded-Resolved :
    (env : ConnectorEnv) (tenant id : Text) (found : Option Source)
    → Resolved tenant (meant tenant id found) (loaded env tenant id found)
unfolding loaded build_file_connector
loaded-Resolved env tenant id none = marked-Resolved tenant id load_failed
loaded-Resolved env tenant id (some src) = elim (Bool-cases (text_eq src.tenant_id tenant)) [
  | inr e ↦ rw e (marked-Resolved tenant id foreign_source)
  | inl e ↦ rw e (
      if_both (Resolved tenant src.source_id) (text_eq src.source_type (lit "file_upload"))
        (subst (λ t. Resolved t src.source_id (build_file_connector env src))
          (eq_of_text_eq src.tenant_id tenant e)
          (configured-Resolved env src (env.parse_config src.config)))
        (marked-Resolved tenant src.source_id unsupported_source_type))
]

-- Whatever the sources and the object store answer: a resolution that fails for good marks the
-- tenant's source once and no other; one that succeeds, or that the queue retries, marks none.
-- Only objects of the tenant are read, under keys that do not escape its prefix. The source is named
-- by the identifier that its projection has, or by the one asked for if the tenant has no such source.
pub resolve-Resolved :
    (env : ConnectorEnv) (tenant id : Text)
    → Resolved tenant (meant tenant id (env.get_projection tenant id)) (resolve env tenant id)
unfolding resolve
resolve-Resolved env tenant id = loaded-Resolved env tenant id (env.get_projection tenant id)
