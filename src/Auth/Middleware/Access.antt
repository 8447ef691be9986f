-- ===== src/Auth/Middleware/Access.antt =====
-- Who is served by JWTMiddleware of internal/auth/middleware.go.
use agentic_demo.Prelude.{
  ℕ, ◌≡◌, refl, inl, inr, Bool, true, false, Option, none, some, Text, is_empty, Result, ok, err,
  Bool-cases,
}
use agentic_demo.Auth.Service.{Crypto, AuthEnv, AuthError, Claims, validate_token}
use agentic_demo.Tenant.Service.{World, TenantEnv, Tenant, TenantError, get_by_id, is_member}
use agentic_demo.Auth.Middleware.{
  Request, Reply, served, refused, split_header, is_bearer, with_claims, with_parts,
  auth_middleware, with_membership, with_tenant_found, tenant_middleware, jwt_middleware,
}

-- The request carries a token that is valid now, of this user.
pub record HasToken (x : Crypto) (env : AuthEnv) (r : Request) (user : ℕ) : Type 0 where
  pub scheme : Text
  pub token : Text
  pub claims : Claims
  pub is_sent : split_header r.authorization ≡ some (scheme, token)
  pub is_scheme : is_bearer scheme ≡ true
  pub is_valid : validate_token x env token ≡ ok claims
  pub is_user : claims.user_id ≡ user

abbrev pub Served : {A : Type 0} → (A → Type 0) → Reply A → Type 0
Served P (served a) = P a
Served P (refused n) = Unit

abbrev pub Allowed : Crypto → AuthEnv → TenantEnv → World → Request → ℕ × Text → Type 0
unfolding is_member
Allowed x env tenv w r context =
    HasToken x env r context.0
    × (r.x_tenant_id ≡ context.1)
    × (is_member tenv w context.1 context.0 ≡ ok true)

pub with_claims-Served :
    {A : Type 0} (P : A → Type 0) (c : Result AuthError Claims) (next : ℕ → Reply A)
    → ((cs : Claims) → c ≡ ok cs → Served P (next cs.user_id))
    → Served P (with_claims c next)
with_claims-Served P (err e) next h = tt
with_claims-Served P (ok cs) next h = h cs refl

with_parts-Served :
    {A : Type 0} (P : A → Type 0) (x : Crypto) (env : AuthEnv) (parts : Option (Text × Text))
    (next : ℕ → Reply A)
    → ((scheme token : Text) (cs : Claims)
        → parts ≡ some (scheme, token)
        → is_bearer scheme ≡ true
        → validate_token x env token ≡ ok cs
        → Served P (next cs.user_id))
    → Served P (with_parts x env parts next)
unfolding with_parts
with_parts-Served P x env none next h = tt
with_parts-Served P x env (some (scheme, token)) next h = elim (Bool-cases (is_bearer scheme)) [
  | inr b ↦ rw b tt
  | inl b ↦
      rw b (with_claims-Served P (validate_token x env token) next (λ cs. h scheme token cs refl b))
]

pub auth_middleware-Served :
    {A : Type 0} (P : A → Type 0) (x : Crypto) (env : AuthEnv) (r : Request) (next : ℕ → Reply A)
    → ((user : ℕ) → HasToken x env r user → Served P (next user))
    → Served P (auth_middleware x env r next)
unfolding auth_middleware
auth_middleware-Served P x env r next h = elim (Bool-cases (is_empty r.authorization)) [
  | inl e ↦ rw e tt
  | inr e ↦ rw e (
      with_parts-Served P x env (split_header r.authorization) next (λ s t cs p b v.
        h cs.user_id (record {
          scheme = s;
          token = t;
          claims = cs;
          is_sent = p;
          is_scheme = b;
          is_valid = v;
          is_user = refl;
        })))
]

pub with_membership-Served :
    {A : Type 0} (P : A → Type 0) (m : Result TenantError Bool) (next : Reply A)
    → (m ≡ ok true → Served P next)
    → Served P (with_membership m next)
with_membership-Served P (err e) next h = tt
with_membership-Served P (ok false) next h = tt
with_membership-Served P (ok true) next h = h refl

pub with_tenant_found-Served :
    {A : Type 0} (P : A → Type 0) (t : Result TenantError Tenant) (next : Reply A)
    → Served P next
    → Served P (with_tenant_found t next)
with_tenant_found-Served P (err e) next h = tt
with_tenant_found-Served P (ok t) next h = h

pub tenant_middleware-Served :
    {A : Type 0} (P : A → Type 0) (tenv : TenantEnv) (w : World) (r : Request) (user : ℕ)
    (next : Text → Reply A)
    → (is_member tenv w r.x_tenant_id user ≡ ok true → Served P (next r.x_tenant_id))
    → Served P (tenant_middleware tenv w r user next)
unfolding tenant_middleware
tenant_middleware-Served P tenv w r user next h = elim (Bool-cases (is_empty r.x_tenant_id)) [
  | inl e ↦ rw e tt
  | inr e ↦ rw e (
      with_tenant_found-Served P (get_by_id tenv w r.x_tenant_id) _
        (with_membership-Served P (is_member tenv w r.x_tenant_id user) (next r.x_tenant_id) h))
]

-- A request that `JWTMiddleware` lets through carries a bearer token that is valid now, the handler
-- sees the token's user and the tenant that the request names, and that user is a member of it.
pub jwt_middleware-Allowed :
    (x : Crypto) (env : AuthEnv) (tenv : TenantEnv) (w : World) (r : Request)
    → Served (Allowed x env tenv w r) (jwt_middleware x env tenv w r)
unfolding jwt_middleware
jwt_middleware-Allowed x env tenv w r =
    auth_middleware-Served (Allowed x env tenv w r) x env r
      (λ user. tenant_middleware tenv w r user (λ id. served (user, id)))
      (λ user t.
        tenant_middleware-Served (Allowed x env tenv w r) tenv w r user (λ id. served (user, id))
          (λ m. (t, refl, m)))
