-- ===== src/Tenant/Service/Teardown.antt =====
-- The removal of a tenant by Delete of internal/tenant/service.go.
use agentic_demo.Prelude.{
  ◌≡◌, refl, inl, inr, Bool, true, false, not, Option, none, some, List, [], ◌∷◌, Text, text_eq,
  text_eq_refl, All, keep_if, has_prefix, Result, ok, err, arith, Bool-cases,
}
use agentic_demo.Storage.Key.{tenant_key_prefix}
use agentic_demo.Tenant.Service.{
  deleted, Tenant, TenantError, OwnedChunk, World, TenantEnv, get_by_id, drop_objects, drop_chunks,
  mark_deleted, delete, looked_up, teardown, tenant_not_found,
}

-- Nothing of a tenant is left in the object store or in the knowledge base.
pub record Gone (w : World) (id : Text) : Type 0 where
  pub no_objects :
      (key : Text) → has_prefix key (tenant_key_prefix id) ≡ true → w.objects key ≡ none
  pub no_chunks : All (λ c. text_eq c.tenant id ≡ false) w.chunks

abbrev pub IsMarked : Option Tenant → Type 0
IsMarked none = ⊥
IsMarked (some t) = t.status ≡ deleted

keep_if-others :
    (id : Text) (cs : List OwnedChunk)
    → All (λ c. text_eq c.tenant id ≡ false) (keep_if (λ c. not (text_eq c.tenant id)) cs)
unfolding keep_if
keep_if-others id [] = tt
keep_if-others id (c ∷ cs) = elim (Bool-cases (text_eq c.tenant id)) [
  | inl e ↦ rw e (keep_if-others id cs)
  | inr e ↦ rw e (e, keep_if-others id cs)
]

dropped-Gone : (w : World) (id : Text) → Gone (drop_chunks (drop_objects w id) id) id
unfolding drop_chunks drop_objects
dropped-Gone w id = record { no_objects = λ key h. rw h; no_chunks = keep_if-others id w.chunks }

marked-Gone : (w : World) (id : Text) → Gone w id → Gone (mark_deleted w id) id
unfolding mark_deleted
marked-Gone w id g = record { no_objects = g.no_objects; no_chunks = g.no_chunks }

abbrev pub Deleted : World → World → Text → Result TenantError (Unit {0}) → Type 0
Deleted w w' id (ok u) = Gone w' id × IsMarked (w'.tenants id)
Deleted w w' id (err e) = w'.tenants ≡ w.tenants

mark_deleted-IsMarked :
    (w : World) (id : Text) (t : Tenant)
    → w.tenants id ≡ some t
    → IsMarked ((mark_deleted w id).tenants id)
unfolding mark_deleted
mark_deleted-IsMarked w id t h = rw (text_eq_refl id, h) refl

looked_up-ok :
    {A : Type 0} (e : TenantError) (b : Bool) (x : Option A) (t : A)
    → looked_up e b x ≡ ok t
    → x ≡ some t
looked_up-ok e false x t h = ground arith
looked_up-ok e true none t h = ground arith
looked_up-ok e true (some u) t h = ground arith

teardown-Deleted :
    (env : TenantEnv) (w : World) (id : Text) (r : Result TenantError Tenant)
    → ((t : Tenant) → r ≡ ok t → w.tenants id ≡ some t)
    → Deleted w (teardown env w id r).0 id (teardown env w id r).1
unfolding teardown
teardown-Deleted env w id (err x) found = refl
teardown-Deleted env w id (ok t) found = elim (Bool-cases env.objects_ok) [
  | inr o ↦ rw o refl
  | inl o ↦ elim (Bool-cases env.knowledge_ok) [
    | inr k ↦ rw (o, k) refl
    | inl k ↦ elim (Bool-cases env.mark_ok) [
      | inr m ↦ rw (o, k, m) refl
      | inl m ↦
          rw (o, k, m)
            (
              marked-Gone (drop_chunks (drop_objects w id) id) id (dropped-Gone w id),
              mark_deleted-IsMarked (drop_chunks (drop_objects w id) id) id t (found t refl),
            )
    ]
  ]
]

-- `Delete` either succeeds, and then no object and no chunk of the tenant is left and the tenant
-- is marked deleted, or it fails, and then no row of the tenants table has changed.
pub delete-Deleted :
    (env : TenantEnv) (w : World) (id : Text) → Deleted w (delete env w id).0 id (delete env w id).1
unfolding delete get_by_id
delete-Deleted env w id =
    teardown-Deleted env w id (get_by_id env w id)
      (λ t. looked_up-ok tenant_not_found env.lookup_ok (w.tenants id) t)
