-- ===== src/Storage/Memory.antt =====
-- internal/storage/memory.go: the object store in memory. The mutex makes each operation one step.
pub mod Isolation
use agentic_demo.Prelude.{
  ℕ, Bool, true, false, Option, none, some, List, Text, text_eq, has_prefix, Result, ok, err, ◌>>=◌,
  if◌then◌else◌,
}
use agentic_demo.Storage.Key.{StorageError, not_found, object_key, tenant_key_prefix}

-- The map from full keys to contents.
abbrev pub Objects : Type 0
Objects = Text → Option (List ℕ)

abbrev pub write : Objects → Text → Option (List ℕ) → Objects
write objects full value k = if text_eq k full then value else objects k

unfoldable pub or_not_found : Option (List ℕ) → Result StorageError (List ℕ)
or_not_found none = err not_found
or_not_found (some content) = ok content

-- `Put`, with the content that was read.
unfoldable pub put : Objects → Text → Text → List ℕ → Result StorageError Objects
put objects tenant key content = do
  full ← object_key tenant key
  ok (write objects full (some content))

-- `Get`.
unfoldable pub get : Objects → Text → Text → Result StorageError (List ℕ)
unfolding or_not_found
get objects tenant key = do full ← object_key tenant key; or_not_found (objects full)

-- `Delete`.
unfoldable pub delete : Objects → Text → Text → Result StorageError Objects
delete objects tenant key = do full ← object_key tenant key; ok (write objects full none)

-- `DeleteTenant`: every object under the tenant's prefix.
unfoldable pub delete_tenant : Objects → Text → Objects
delete_tenant objects tenant full =
    if has_prefix full (tenant_key_prefix tenant) then none else objects full
