-- ===== src/Sources/Service/Creation.antt =====
-- The rows that `Create` of internal/sources/service.go writes.
use agentic_demo.Prelude.{
  ℕ, ◌≡◌, refl, Bool, not, Option, none, some, List, [], ◌∷◌, Text, lit, text_eq, ==_iff, Result,
  ok, err, if_both,
}
use agentic_demo.Storage.Key.{StorageError}
use agentic_demo.Storage.Memory.{Objects, put}
use agentic_demo.Sources.Service.{
  SourceRow, SourceError, Sources, SourceEnv, SourceStep, CreateSource, set_source, file_key,
  recorded, put_file, store_file, with_file, source_created, create_source, encrypt_credentials,
  validate_create, checked_then,
}

-- The row is in the table, with this tenant and these credentials.
abbrev pub Holds : Text → Text → SourceStep → Type 0
Holds tenant credentials (after, ok row) =
    (after.rows row.id ≡ some row) × (row.tenant_id ≡ tenant) × (row.credentials ≡ credentials)
Holds tenant credentials (after, err e) = Unit

set_source_self : (w : Sources) (row : SourceRow) → (set_source w row).rows row.id ≡ some row
unfolding set_source
set_source_self w row = rw ((==_iff row.id row.id).1 refl)

recorded-Holds :
    (env : SourceEnv) (tenant : Text) (row : SourceRow) (w : Sources) (config : Option Text)
    → Holds row.tenant_id row.credentials (recorded env tenant row w config)
unfolding recorded
recorded-Holds env tenant row w none = tt
recorded-Holds env tenant row w (some config) =
    if_both (Holds row.tenant_id row.credentials) env.record_ok
      (set_source_self w (record row { config = config }), refl, refl) tt

put_file-Holds :
    (env : SourceEnv) (tenant : Text) (row : SourceRow) (w : Sources)
    (r : Result StorageError Objects)
    → Holds row.tenant_id row.credentials (put_file env tenant row w r)
unfolding put_file
put_file-Holds env tenant row w (err e) = tt
put_file-Holds env tenant row w (ok objects) =
    recorded-Holds env tenant row (record w { objects = objects })
      (env.set_key row.config (file_key env row))

with_file-Holds :
    (env : SourceEnv) (row : SourceRow) (wanted : Bool) (content : List ℕ) (w : Sources)
    → w.rows row.id ≡ some row
    → Holds row.tenant_id row.credentials (with_file env row wanted content w)
unfolding with_file store_file
with_file-Holds env row wanted [] w h = (h, refl, refl)
with_file-Holds env row wanted (b ∷ bs) w h =
    if_both (Holds row.tenant_id row.credentials) wanted
      (if_both (Holds row.tenant_id row.credentials) (not env.put_ok) tt (
        put_file-Holds env row.tenant_id row w
          (put w.objects row.tenant_id (file_key env row) (b ∷ bs))))
      (h, refl, refl)

source_created-Holds :
    (env : SourceEnv) (p : CreateSource) (w : Sources) (c : Text)
    → Holds p.tenant_id c (source_created env p w c)
unfolding source_created
source_created-Holds env p w c = if_both (Holds p.tenant_id c) (not env.create_ok) tt (
    with_file-Holds env _ (text_eq p.source_type (lit "file_upload")) p.file _
      (set_source_self w _))

-- What `Create` returns stands in the table, with the credentials encrypted.
abbrev pub Written : SourceEnv → CreateSource → SourceStep → Type 0
Written env p (after, ok row) =
    (c : Text) × (encrypt_credentials env p.credentials ≡ ok c)
    × Holds p.tenant_id c (after, ok row)
Written env p (after, err e) = Unit

written :
    (env : SourceEnv) (p : CreateSource) (s : SourceStep) (c : Text)
    → encrypt_credentials env p.credentials ≡ ok c
    → Holds p.tenant_id c s
    → Written env p s
written env p (after, ok row) c e h = (c, e, h)
written env p (after, err x) c e h = tt

encrypted-Written :
    (env : SourceEnv) (p : CreateSource) (w : Sources) (r : Result SourceError Text)
    → encrypt_credentials env p.credentials ≡ r
    → Written env p (checked_then w r (source_created env p w))
encrypted-Written env p w (err x) e = tt
encrypted-Written env p w (ok c) e =
    written env p (source_created env p w c) c e (source_created-Holds env p w c)

checked-Written :
    (env : SourceEnv) (p : CreateSource) (w : Sources) (v : Result SourceError (Unit {0}))
    → Written env p (
        checked_then w v
          (λ u. checked_then w (encrypt_credentials env p.credentials) (source_created env p w)))
checked-Written env p w (err x) = tt
checked-Written env p w (ok u) =
    encrypted-Written env p w (encrypt_credentials env p.credentials) refl

pub create_source-Written :
    (env : SourceEnv) (p : CreateSource) (w : Sources) → Written env p (create_source env p w)
unfolding create_source
create_source-Written env p w = checked-Written env p w (validate_create env p)
