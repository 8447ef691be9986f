-- ===== src/Sources/Service.antt =====
-- internal/sources/service.go over the table data_source_configs and the object store. Identifiers are
-- numbers; JSON, the cipher, the texts of identifiers and what fails are in the environment. A step returns the row
-- that it is about.
pub mod Files
pub mod Creation
use agentic_demo.Prelude.{
  ℕ, suc, ◌+◌, ◌-◌, ◌*◌, ◌%◌, Bool, true, false, ◌&&◌, ◌||◌, not, Option, none, some, List, [], ◌∷◌,
  ◌++◌, map, Text, lit, text_eq, is_empty, trim_space, ltb, leb, ◌==◌, Result, ok, err, ◌>>=◌,
  if◌then◌else◌,
}
use agentic_demo.Storage.Key.{StorageError}
use agentic_demo.Storage.Memory.{Objects}
use agentic_demo.Storage.Memory as Memory
use agentic_demo.Queue.Tasks.{IngestionPayload}

-- A row of data_source_configs; no credentials are the empty text.
pub record SourceRow : Type 0 where
  pub id : ℕ
  pub tenant_id : Text
  pub source_type : Text
  pub name : Text
  pub config : Text
  pub credentials : Text
  pub status : Text
  pub last_sync_at : Option ℕ
  pub last_sync_status : Option Text

pub data SourceError : Type 0 where
  not_found invalid_tenant_id invalid_source_id invalid_name invalid_source_type : SourceError
  invalid_config encryption_failed decryption_failed connection_failed unavailable : SourceError

pub record CreateSource : Type 0 where
  pub tenant_id : Text
  pub source_type : Text
  pub name : Text
  pub config : Option Text
  pub credentials : Text
  pub file : List ℕ

-- An absent field is left as it is.
pub record UpdateSource : Type 0 where
  pub name : Option Text
  pub config : Option Text
  pub credentials : Option Text
  pub status : Option Text
  pub file : List ℕ

-- The rows, the objects, and the ingestions that were enqueued, newest first.
pub record Sources : Type 0 where
  pub rows : ℕ → Option SourceRow
  pub objects : Objects
  pub queued : List IngestionPayload

-- What the query of a row by its identifier runs into.
pub data Lookup : Type 0 where
  answered cancelled broken : Lookup

-- `fresh` is the identifier that the database gives; `set_key` sets the object key in a config, and
-- `key_of` reads it, "" if there is none; `keep_cleanup` says that the removal of an object succeeds.
pub record SourceEnv : Type 0 where
  pub fresh : ℕ
  pub now : ℕ
  pub id_text : ℕ → Text
  pub json_valid : Text → Bool
  pub set_key : Text → Text → Option Text
  pub key_of : Text → Text
  pub encrypt : Text → Option Text
  pub decrypt : Text → Option Text
  pub lookup : Lookup
  pub create_ok : Bool
  pub update_ok : Bool
  pub record_ok : Bool
  pub delete_ok : Bool
  pub put_ok : Bool
  pub cleanup_ok : Bool
  pub enqueue_ok : Bool
  pub sync_ok : Bool

-- `ValidSourceType`.
unfoldable pub valid_source_type : Text → Bool
unfolding text_eq
valid_source_type t =
    text_eq t (lit "file_upload")
    || text_eq t (lit "website")
    || text_eq t (lit "crm_hubspot")
    || text_eq t (lit "crm_salesforce")

abbrev pub valid_config : SourceEnv → Option Text → Bool
valid_config env none = true
valid_config env (some config) = env.json_valid config

-- `validateCreate`.
unfoldable pub validate_create : SourceEnv → CreateSource → Result SourceError (Unit {0})
unfolding valid_source_type is_empty trim_space
validate_create env p =
    if is_empty (trim_space p.tenant_id)
    then err invalid_tenant_id
    else if is_empty (trim_space p.name)
    then err invalid_name
    else if not (valid_source_type p.source_type)
    then err invalid_source_type
    else if not (valid_config env p.config)
    then err invalid_config
    else ok tt

abbrev pub encrypted : Option Text → Result SourceError Text
encrypted none = err encryption_failed
encrypted (some c) = ok c

-- `encryptCredentials`.
unfoldable pub encrypt_credentials : SourceEnv → Text → Result SourceError Text
encrypt_credentials env [] = ok []
encrypt_credentials env (c ∷ cs) = encrypted (env.encrypt (c ∷ cs))

unfoldable pub set_source : Sources → SourceRow → Sources
set_source w row = record w { rows = λ k. if k == row.id then some row else w.rows k }

abbrev pub SourceStep : Type 0
SourceStep = Sources × Result SourceError SourceRow

abbrev pub file_key : SourceEnv → SourceRow → Text
file_key env row = lit "sources/" ++ (env.id_text row.id ++ lit "/file")

-- The objects after an attempt to remove one.
abbrev pub removed : Objects → Result StorageError Objects → Objects
removed before (ok after) = after
removed before (err e) = before

-- The `cleanup` of `storeFile`.
unfoldable pub cleanup : SourceEnv → Text → Text → Sources → Sources
cleanup env tenant key w =
    if env.cleanup_ok
    then record w { objects = removed w.objects (Memory.delete w.objects tenant key) }
    else w

abbrev pub recorded : SourceEnv → Text → SourceRow → Sources → Option Text → SourceStep
unfolding cleanup set_source
recorded env tenant row w none = (cleanup env tenant (file_key env row) w, err invalid_config)
recorded env tenant row w (some config) =
    let row' : SourceRow = record row { config = config } in
    if env.record_ok
    then (set_source w row', ok row')
    else (cleanup env tenant (file_key env row) w, err unavailable)

abbrev pub put_file :
    SourceEnv → Text → SourceRow → Sources → Result StorageError Objects → SourceStep
unfolding recorded
put_file env tenant row w (err e) = (w, err unavailable)
put_file env tenant row w (ok objects) =
    let w' : Sources = record w { objects = objects } in
    recorded env tenant row w' (env.set_key row.config (file_key env row))

-- `storeFile`.
unfoldable pub store_file : SourceEnv → Text → SourceRow → List ℕ → Sources → SourceStep
unfolding put_file
store_file env tenant row content w =
    if not env.put_ok
    then (w, err unavailable)
    else put_file env tenant row w (Memory.put w.objects tenant (file_key env row) content)

abbrev pub or_braces : Option Text → Text
or_braces none = lit "{}"
or_braces (some config) = config

abbrev pub with_file : SourceEnv → SourceRow → Bool → List ℕ → Sources → SourceStep
unfolding store_file
with_file env row wanted [] w = (w, ok row)
with_file env row wanted (b ∷ bs) w =
    if wanted then store_file env row.tenant_id row (b ∷ bs) w else (w, ok row)

abbrev pub source_created : SourceEnv → CreateSource → Sources → Text → SourceStep
unfolding with_file set_source trim_space text_eq
source_created env p w credentials =
    let row : SourceRow = record {
      id = env.fresh;
      tenant_id = p.tenant_id;
      source_type = p.source_type;
      name = trim_space p.name;
      config = or_braces p.config;
      credentials = credentials;
      status = lit "inactive";
      last_sync_at = none;
      last_sync_status = none;
    } in
    if not env.create_ok
    then (w, err unavailable)
    else with_file env row (text_eq p.source_type (lit "file_upload")) p.file (set_source w row)

-- What follows a check that may fail without an effect.
abbrev pub checked_then :
    {A : Type 0} → Sources → Result SourceError A → (A → SourceStep) → SourceStep
checked_then w (err e) f = (w, err e)
checked_then w (ok a) f = f a

-- `Create`.
unfoldable pub create_source : SourceEnv → CreateSource → Sources → SourceStep
unfolding validate_create encrypt_credentials source_created
create_source env p w =
    checked_then w (validate_create env p)
      (λ u. checked_then w (encrypt_credentials env p.credentials) (source_created env p w))

abbrev pub source_looked_up : Lookup → Option SourceRow → Result SourceError SourceRow
source_looked_up cancelled row = err unavailable
source_looked_up broken row = err not_found
source_looked_up answered none = err not_found
source_looked_up answered (some row) = ok row

-- `GetByID` of the repository.
unfoldable pub get_source : SourceEnv → Sources → ℕ → Result SourceError SourceRow
get_source env w id = source_looked_up env.lookup (w.rows id)

abbrev pub decrypted : SourceRow → Option Text → Result SourceError SourceRow
decrypted row none = err decryption_failed
decrypted row (some c) = ok (record row { credentials = c })

abbrev pub with_credentials : SourceEnv → SourceRow → Text → Result SourceError SourceRow
with_credentials env row [] = ok row
with_credentials env row (c ∷ cs) = decrypted row (env.decrypt (c ∷ cs))

-- `GetByID` of the service.
unfoldable pub get_source_by_id : SourceEnv → Sources → ℕ → Result SourceError SourceRow
unfolding get_source
get_source_by_id env w id = do row ← get_source env w id; with_credentials env row row.credentials

abbrev pub new_name : Text → Option Text → Result SourceError Text
unfolding is_empty trim_space
new_name old none = ok old
new_name old (some name) =
    if is_empty (trim_space name) then err invalid_name else ok (trim_space name)

abbrev pub new_config : SourceEnv → Text → Option Text → Result SourceError Text
new_config env old none = ok old
new_config env old (some config) = if env.json_valid config then ok config else err invalid_config

abbrev pub new_credentials : SourceEnv → Text → Option Text → Result SourceError Text
unfolding encrypt_credentials
new_credentials env old none = ok old
new_credentials env old (some credentials) = encrypt_credentials env credentials

abbrev pub or_old : Text → Option Text → Text
or_old old none = old
or_old old (some new) = new

abbrev pub source_updated : SourceEnv → UpdateSource → Sources → SourceRow → SourceStep
unfolding set_source with_file
source_updated env p w row =
    if not env.update_ok
    then (w, err unavailable)
    else with_file env row true p.file (set_source w row)

abbrev pub edited : SourceEnv → UpdateSource → SourceRow → Result SourceError SourceRow
unfolding new_name new_credentials
edited env p row = do
  name ← new_name row.name p.name
  config ← new_config env row.config p.config
  credentials ← new_credentials env row.credentials p.credentials
  ok (record row {
    name = name;
    config = config;
    credentials = credentials;
    status = or_old row.status p.status;
  })

-- `Update`.
unfoldable pub update_source : SourceEnv → ℕ → UpdateSource → Sources → SourceStep
unfolding get_source edited source_updated
update_source env id p w =
    checked_then w (get_source env w id)
      (λ row. checked_then w (edited env p row) (source_updated env p w))

-- The object that a config names is removed, if that succeeds.
abbrev pub without_file : SourceEnv → Text → Text → Sources → Sources
unfolding cleanup
without_file env tenant [] w = w
without_file env tenant (c ∷ key) w = cleanup env tenant (c ∷ key) w

-- `Delete`.
unfoldable pub delete_source : SourceEnv → ℕ → Sources → SourceStep
unfolding get_source without_file
delete_source env id w = checked_then w (get_source env w id) (λ row.
    if not env.delete_ok then (w, err unavailable) else (
      without_file env row.tenant_id (env.key_of row.config)
          (record w { rows = λ k. if k == id then none else w.rows k }),
      ok row,
    ))

-- `Sync`.
unfoldable pub sync_source : SourceEnv → ℕ → Sources → SourceStep
unfolding get_source set_source
sync_source env id w = checked_then w (get_source env w id) (λ row.
    let job : IngestionPayload = record { tenant_id = row.tenant_id; source_id = env.id_text id } in
    let w' : Sources = record w { queued = job ∷ w.queued } in
    let row' : SourceRow = record row {
      last_sync_at = some env.now;
      last_sync_status = some (lit "sync_enqueued");
      status = lit "active";
    } in
    if not env.enqueue_ok
    then (w, err unavailable)
    else if not env.sync_ok
    then (w', err unavailable)
    else (set_source w' row', ok row'))

-- The page and its size that `ListByTenant` uses; they are not negative here, and 0 is no page.
unfoldable pub clamp_page : ℕ → ℕ → ℕ × ℕ
clamp_page page size =
    ((if ltb page 1 then 1 else page), (if ltb size 1 || ltb 100 size then 20 else size))

-- `int32((page - 1) * pageSize)` as the bits of the number.
unfoldable pub page_offset : ℕ × ℕ → ℕ
page_offset p = (p.0 - 1) * p.1 % 0x100000000
