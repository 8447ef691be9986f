-- ===== src/Storage/Key.antt =====
-- internal/storage/key.go: the full key of a tenant's object.
use agentic_demo.Prelude.{
  Bool, ◌||◌, ◌++◌, Text, lit, text_eq, is_empty, has_prefix, split, any_of, Result, ok, err,
  if◌then◌else◌,
}

pub data StorageError : Type 0 where
  invalid_key not_found : StorageError

unfoldable pub tenant_key_prefix : Text → Text
tenant_key_prefix tenant = lit "tenant/" ++ (tenant ++ lit "/")

-- Whether a relative key could escape the tenant's prefix: it is empty, absolute, names a tenant, or
-- has a part that goes up.
unfoldable pub escapes : Text → Bool
unfolding split any_of is_empty has_prefix
escapes key =
    is_empty key
    || (has_prefix key (lit "/") || has_prefix key (lit "tenant/"))
    || any_of (λ part. text_eq part (lit "..")) (split key (lit "/"))

-- `objectKey`.
unfoldable pub object_key : Text → Text → Result StorageError Text
unfolding tenant_key_prefix
object_key tenant key =
    if escapes key then err invalid_key else ok (tenant_key_prefix tenant ++ key)
