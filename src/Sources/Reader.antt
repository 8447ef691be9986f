-- ===== src/Sources/Reader.antt =====
-- internal/sources/reader.go: the data sources as ingestion reads them and marks them.
pub mod Projection
use agentic_demo.Prelude.{
  ℕ, Bool, true, false, not, Option, none, some, List, [], ◌∷◌, Text, lit, text_eq, ◌==◌, Result,
  ok, err, ◌>>=◌, if◌then◌else◌,
}
use agentic_demo.Ingestion.Connector.{Source}
use agentic_demo.Sources.Service.{
  SourceRow, SourceError, not_found, invalid_source_id, decryption_failed, unavailable, Sources,
  SourceEnv, SourceStep, checked_then, get_source, set_source,
}

abbrev pub parsed : Option ℕ → Result SourceError ℕ
parsed none = err invalid_source_id
parsed (some id) = ok id

-- The row of a source, if it belongs to the tenant; `id` is the text of an identifier, parsed.
unfoldable pub tenant_row : SourceEnv → Sources → Text → Option ℕ → Result SourceError SourceRow
unfolding get_source
tenant_row env w tenant id = do
  n ← parsed id
  row ← get_source env w n
  if not (text_eq row.tenant_id tenant) then err not_found else ok row

abbrev pub plain : Option Text → Result SourceError (Option Text)
plain none = err decryption_failed
plain (some c) = ok (some c)

-- The credentials in plaintext, none if there are none.
abbrev pub plain_credentials : SourceEnv → Text → Result SourceError (Option Text)
plain_credentials env [] = ok none
plain_credentials env (c ∷ cs) = plain (env.decrypt (c ∷ cs))

abbrev pub projected : SourceEnv → SourceRow → Result SourceError Source
projected env row = do
  credentials ← plain_credentials env row.credentials
  ok (record {
    source_id = env.id_text row.id;
    tenant_id = row.tenant_id;
    source_type = row.source_type;
    config = row.config;
    credentials = credentials;
  })

-- `GetProjection`.
unfoldable pub get_projection : SourceEnv → Sources → Text → Option ℕ → Result SourceError Source
unfolding tenant_row
get_projection env w tenant id = do row ← tenant_row env w tenant id; projected env row

-- `toPgText`.
unfoldable pub pg_text : Text → Option Text
pg_text [] = none
pg_text (c ∷ cs) = some (c ∷ cs)

-- `MarkError`; the time of the last sync is lost.
unfoldable pub mark_source_error : SourceEnv → Text → Option ℕ → Text → Sources → SourceStep
unfolding tenant_row set_source pg_text
mark_source_error env tenant id message w = checked_then w (tenant_row env w tenant id) (λ row.
    let row' : SourceRow = record row {
      last_sync_at = none;
      last_sync_status = pg_text message;
      status = lit "error";
    } in
    if not env.sync_ok then (w, err unavailable) else (set_source w row', ok row'))
