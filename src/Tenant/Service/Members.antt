-- ===== src/Tenant/Service/Members.antt =====
-- Who is a member of a tenant after Create and AddMember of internal/tenant/service.go.
use agentic_demo.Prelude.{
  ◌&&◌, ℕ, ◌≡◌, refl, inl, inr, Bool, true, false, ◌==◌, ==_iff, Option, none, some, Text, text_eq,
  lit, ◌++◌, text_eq_refl, eq_of_text_eq, trim_space, is_empty, Result, ok, err, arith, Bool-cases,
}
use agentic_demo.Tenant.Service.{
  is_free, Role, admin, active, Tenant, TenantError, World, TenantEnv, with_tenant, with_member,
  get_by_id, get_membership, create, add_member, is_admin, looked_up, insert_member, checked_member,
  after_lookup, known_role, membership_not_found,
}

abbrev pub Created : TenantEnv → World → World → ℕ → Result TenantError Tenant → Type 0
unfolding is_admin get_by_id
Created env w w' owner (ok t) =
    (is_admin env w' t.id owner ≡ ok true) × (get_by_id env w' t.id ≡ ok t)
Created env w w' owner (err e) = w'.members ≡ w.members

looked_up-some :
    {A : Type 0} (e : TenantError) (b : Bool) (x : A) → b ≡ true → looked_up e b (some x) ≡ ok x
looked_up-some e b x h = rw h refl

abbrev made : TenantEnv → Text → Tenant
made env name = record { id = lit "t_" ++ env.fresh; name = trim_space name; status = active }

same_user : (u : ℕ) → (u == u) ≡ true
same_user u = ground arith

with_member-same :
    (w : World) (id : Text) (u : ℕ) (r : Role) → (with_member w id u r).members id u ≡ some r
unfolding with_member
with_member-same w id u r = rw (text_eq_refl id, same_user u) refl

with_tenant-same : (w : World) (id : Text) (t : Tenant) → (with_tenant w id t).tenants id ≡ some t
unfolding with_tenant
with_tenant-same w id t = rw (text_eq_refl id) refl

is_admin-with_member :
    (env : TenantEnv) (w : World) (id : Text) (u : ℕ)
    → env.lookup_ok ≡ true
    → is_admin env (with_member w id u admin) id u ≡ ok true
unfolding is_admin get_membership
is_admin-with_member env w id u l = rw (with_member-same w id u admin, l) refl

get_by_id-created :
    (env : TenantEnv) (w : World) (id : Text) (t : Tenant) (u : ℕ) (r : Role)
    → env.lookup_ok ≡ true
    → get_by_id env (with_member (with_tenant w id t) id u r) id ≡ ok t
unfolding get_by_id with_member
get_by_id-created env w id t u r l = rw (with_tenant-same w id t, l) refl

-- When reads succeed, `Create` either returns a tenant that the next read finds and of which the
-- creator is an administrator, or fails, and then no membership has changed.
create-Created :
    (env : TenantEnv) (w : World) (owner : ℕ) (name : Text)
    → env.lookup_ok ≡ true
    → Created env w (create env w owner name).0 owner (create env w owner name).1
unfolding create Created with_tenant
create-Created env w owner name l = elim (Bool-cases (is_empty (trim_space name))) [
  | inl e ↦ rw e refl
  | inr e ↦
      elim (Bool-cases (env.create_tenant_ok && is_free (w.tenants (lit "t_" ++ env.fresh)))) [
        | inr t ↦ rw (e, t) refl
        | inl t ↦ elim (Bool-cases env.create_membership_ok) [
          | inr m ↦ rw (e, t, m) refl
          | inl m ↦
              rw (e, t, m)
                (
                  is_admin-with_member env (with_tenant w (lit "t_" ++ env.fresh) (made env name))
                      (lit "t_" ++ env.fresh) owner l,
                  get_by_id-created env w (lit "t_" ++ env.fresh) (made env name) owner admin l,
                )
        ]
      ]
]

clash :
    {B : Type 0} (w : World) {k id : Text} {u user : ℕ} {r : Role}
    → w.members k u ≡ some r
    → w.members id user ≡ none
    → k ≡ id
    → u ≡ user
    → B
clash w h n p q = cc

insert_member-keeps :
    (env : TenantEnv) (w : World) (id : Text) (user : ℕ) (role : Role) (k : Text) (u : ℕ) (r : Role)
    → w.members id user ≡ none
    → w.members k u ≡ some r
    → (insert_member env w id user role).0.members k u ≡ some r
unfolding with_member
insert_member-keeps env w id user role k u r n h = elim (Bool-cases env.create_membership_ok) [
  | inr m ↦ rw m h
  | inl m ↦ rw m (elim (Bool-cases (text_eq k id)) [
    | inr e ↦ rw e h
    | inl e ↦ rw e (elim (Bool-cases (u == user)) [
      | inr f ↦ rw f h
      | inl f ↦ clash w h n (eq_of_text_eq k id e) ((==_iff u user).0 f)
    ])
  ])
]

checked_member-keeps :
    (env : TenantEnv) (w : World) (id : Text) (user : ℕ) (role : Role) (k : Text) (u : ℕ) (r : Role)
    (b : Bool) (x : Option Role)
    → w.members id user ≡ x
    → w.members k u ≡ some r
    → (checked_member env w id user role (looked_up membership_not_found b x)).0.members k u
      ≡ some r
checked_member-keeps env w id user role k u r false x e h = h
checked_member-keeps env w id user role k u r true none e h =
    insert_member-keeps env w id user role k u r e h
checked_member-keeps env w id user role k u r true (some y) e h = h

after_lookup-keeps :
    (env : TenantEnv) (w : World) (id : Text) (user : ℕ) (role : Role) (k : Text) (u : ℕ) (r : Role)
    (x : Result TenantError Tenant)
    → w.members k u ≡ some r
    → (after_lookup env w id user role x).0.members k u ≡ some r
unfolding after_lookup get_membership
after_lookup-keeps env w id user role k u r (err e) h = h
after_lookup-keeps env w id user role k u r (ok t) h =
    checked_member-keeps env w id user role k u r env.lookup_ok (w.members id user) refl h

-- `AddMember` never changes the role of a user who is already a member, of any tenant.
pub add_member-keeps :
    (env : TenantEnv) (w : World) (id : Text) (user : ℕ) (role : Role) (k : Text) (u : ℕ) (r : Role)
    → w.members k u ≡ some r
    → (add_member env w id user role).0.members k u ≡ some r
unfolding add_member
add_member-keeps env w id user role k u r h = elim (Bool-cases (known_role role)) [
  | inr e ↦ rw e h
  | inl e ↦ rw e (after_lookup-keeps env w id user role k u r (get_by_id env w id) h)
]
