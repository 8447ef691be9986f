-- ===== src/Tenant/Service.antt =====
-- internal/tenant/service.go over the tables of internal/tenant/repository.go, the object store and
-- the knowledge base. Each call that may fail has a switch in the environment.
pub mod Teardown
pub mod Members
use agentic_demo.Prelude.{
  ℕ, Bool, true, false, ◌&&◌, Option, none, some, List, [], ◌∷◌, ◌++◌, Text, lit, text_eq, is_empty,
  trim_space, keep_if, not, Result, ok, err, ◌==◌, if◌then◌else◌,
}
use agentic_demo.Storage.Memory.{Objects}
use agentic_demo.Storage.Memory

pub data TenantStatus : Type 0 where
  active suspended deleted : TenantStatus

pub data Role : Type 0 where
  admin viewer : Role
  other_role : Text → Role

pub record Tenant : Type 0 where
  pub id : Text
  pub name : Text
  pub status : TenantStatus

pub data TenantError : Type 0 where
  invalid_name invalid_role tenant_not_found membership_not_found already_exists unavailable :
      TenantError

-- A chunk of the knowledge base, by the tenant that owns its document.
pub record OwnedChunk : Type 0 where
  pub tenant : Text
  pub content : Text

-- Users are numbers.
pub record World : Type 0 where
  pub tenants : Text → Option Tenant
  pub members : Text → ℕ → Option Role
  pub objects : Objects
  pub chunks : List OwnedChunk

-- Which calls succeed. `fresh` is the identifier that `uuid.New().String()[:8]` gives.
pub record TenantEnv : Type 0 where
  pub create_tenant_ok : Bool
  pub create_membership_ok : Bool
  pub lookup_ok : Bool
  pub objects_ok : Bool
  pub knowledge_ok : Bool
  pub mark_ok : Bool
  pub fresh : Text

unfoldable pub with_tenant : World → Text → Tenant → World
with_tenant w id t = record w { tenants = λ k. if text_eq k id then some t else w.tenants k }

unfoldable pub with_member : World → Text → ℕ → Role → World
with_member w id user role = record w {
  members = λ k u. if text_eq k id && (u == user) then some role else w.members k u;
}

abbrev pub looked_up : {A : Type 0} → TenantError → Bool → Option A → Result TenantError A
looked_up e false x = err unavailable
looked_up e true none = err e
looked_up e true (some x) = ok x

-- `GetTenantByID`: also a tenant that is marked deleted is found.
unfoldable pub get_by_id : TenantEnv → World → Text → Result TenantError Tenant
get_by_id env w id = looked_up tenant_not_found env.lookup_ok (w.tenants id)

-- `GetMembership`.
unfoldable pub get_membership : TenantEnv → World → Text → ℕ → Result TenantError Role
get_membership env w id user = looked_up membership_not_found env.lookup_ok (w.members id user)

-- Identifiers are the primary key of the table.
abbrev pub is_free : Option Tenant → Bool
is_free none = true
is_free (some t) = false

-- `Create`.
unfoldable pub create : TenantEnv → World → ℕ → Text → World × Result TenantError Tenant
unfolding with_tenant with_member
create env w owner name =
    let id = lit "t_" ++ env.fresh in
    let t : Tenant = record { id = id; name = trim_space name; status = active } in
    if is_empty (trim_space name)
    then (w, err invalid_name)
    else if not (env.create_tenant_ok && is_free (w.tenants id))
    then (w, err unavailable)
    else if not env.create_membership_ok
    then (with_tenant w id t, err unavailable)
    else (with_member (with_tenant w id t) id owner admin, ok t)

abbrev pub known_role : Role → Bool
known_role admin = true
known_role viewer = true
known_role (other_role r) = false

abbrev pub insert_member : TenantEnv → World → Text → ℕ → Role → World × Result TenantError Role
insert_member env w id user role =
    if env.create_membership_ok then (with_member w id user role, ok role) else (w, err unavailable)

abbrev pub checked_member :
    TenantEnv → World → Text → ℕ → Role → Result TenantError Role → World × Result TenantError Role
checked_member env w id user role (ok r) = (w, err already_exists)
checked_member env w id user role (err membership_not_found) = insert_member env w id user role
checked_member env w id user role (err e) = (w, err e)

abbrev pub after_lookup :
    TenantEnv
    → World
    → Text
    → ℕ
    → Role
    → Result TenantError Tenant
    → World × Result TenantError Role
unfolding get_membership
after_lookup env w id user role (err e) = (w, err e)
after_lookup env w id user role (ok t) =
    checked_member env w id user role (get_membership env w id user)

-- `AddMember`.
unfoldable pub add_member : TenantEnv → World → Text → ℕ → Role → World × Result TenantError Role
unfolding get_by_id with_member
add_member env w id user role =
    if known_role role
    then after_lookup env w id user role (get_by_id env w id)
    else (w, err invalid_role)

abbrev pub found : Result TenantError Role → Result TenantError Bool
found (ok r) = ok true
found (err membership_not_found) = ok false
found (err e) = err e

-- `IsMember`.
unfoldable pub is_member : TenantEnv → World → Text → ℕ → Result TenantError Bool
unfolding get_membership
is_member env w id user = found (get_membership env w id user)

abbrev pub found_admin : Result TenantError Role → Result TenantError Bool
found_admin (ok admin) = ok true
found_admin (ok r) = ok false
found_admin (err membership_not_found) = ok false
found_admin (err e) = err e

-- `IsAdmin`.
unfoldable pub is_admin : TenantEnv → World → Text → ℕ → Result TenantError Bool
unfolding get_membership
is_admin env w id user = found_admin (get_membership env w id user)

unfoldable pub drop_objects : World → Text → World
unfolding Memory.delete_tenant
drop_objects w id = record w { objects = Memory.delete_tenant w.objects id }

-- Deleting a tenant's documents cascades to their chunks.
unfoldable pub drop_chunks : World → Text → World
unfolding keep_if
drop_chunks w id = record w { chunks = keep_if (λ c. not (text_eq c.tenant id)) w.chunks }

-- `UPDATE tenants SET status = 'deleted'`.
unfoldable pub mark_deleted : World → Text → World
mark_deleted w id = record w {
  tenants = λ k.
      if text_eq k id
      then (elim (w.tenants k) [ none ↦ none | some t ↦ some (record t { status = deleted }) ])
      else w.tenants k;
}

unfoldable pub teardown :
    TenantEnv → World → Text → Result TenantError Tenant → World × Result TenantError (Unit {0})
unfolding drop_objects drop_chunks mark_deleted
teardown env w id (err e) = (w, err e)
teardown env w id (ok t) =
    if not env.objects_ok
    then (w, err unavailable)
    else if not env.knowledge_ok
    then (drop_objects w id, err unavailable)
    else if not env.mark_ok
    then (drop_chunks (drop_objects w id) id, err unavailable)
    else (mark_deleted (drop_chunks (drop_objects w id) id) id, ok tt)

-- `Delete`: objects, then chunks, then the mark; it stops at the first failure.
unfoldable pub delete : TenantEnv → World → Text → World × Result TenantError (Unit {0})
unfolding get_by_id
delete env w id = teardown env w id (get_by_id env w id)
