-- ===== src/Auth/Middleware.antt =====
-- internal/auth/middleware.go. A handler is served the user and the tenant of the request's
-- context, or the request is refused with a status.
pub mod Access
use agentic_demo.Prelude.{
  ℕ, ◌+◌, Bool, true, false, ◌&&◌, Option, none, some, List, [], ◌∷◌, map, Text, lit, text_eq,
  is_empty, Result, ok, err, leb, ◌==◌, if◌then◌else◌,
}
use agentic_demo.Auth.Service.{Crypto, AuthEnv, AuthError, Claims, validate_token}
use agentic_demo.Tenant.Service.{World, TenantEnv, Tenant, TenantError, get_by_id, is_member}

-- The headers that the middleware reads; a header that is missing is empty.
pub record Request : Type 0 where
  pub authorization : Text
  pub x_tenant_id : Text

pub data Reply (A : Type 0) : Type 0 where
  served : A → Reply A
  refused : ℕ → Reply A

abbrev after_space : ℕ → Option (Text × Text) → Option (Text × Text)
after_space c none = none
after_space c (some parts) = some (c ∷ parts.0, parts.1)

-- `strings.SplitN(header, " ", 2)`, when it has two parts.
unfoldable pub split_header : Text → Option (Text × Text)
split_header [] = none
split_header (c ∷ s) = if c == 32 then some ([], s) else after_space c (split_header s)

-- `strings.EqualFold(part, "bearer")`: no letter of the word has a further case.
unfoldable pub is_bearer : Text → Bool
unfolding text_eq
is_bearer part = text_eq (map (λ c. if leb 65 c && leb c 90 then c + 32 else c) part) (lit "bearer")

abbrev pub with_claims : {A : Type 0} → Result AuthError Claims → (ℕ → Reply A) → Reply A
with_claims (err e) next = refused 401
with_claims (ok c) next = next c.user_id

abbrev pub with_parts :
    {A : Type 0} → Crypto → AuthEnv → Option (Text × Text) → (ℕ → Reply A) → Reply A
unfolding validate_token is_bearer
with_parts x env none next = refused 401
with_parts x env (some parts) next =
    if is_bearer parts.0 then with_claims (validate_token x env parts.1) next else refused 401

-- `AuthMiddleware`.
unfoldable pub auth_middleware : {A : Type 0} → Crypto → AuthEnv → Request → (ℕ → Reply A) → Reply A
unfolding with_parts split_header
auth_middleware x env r next =
    if is_empty r.authorization
    then refused 401
    else with_parts x env (split_header r.authorization) next

abbrev pub with_membership : {A : Type 0} → Result TenantError Bool → Reply A → Reply A
with_membership (err e) next = refused 500
with_membership (ok false) next = refused 403
with_membership (ok true) next = next

abbrev pub with_tenant_found : {A : Type 0} → Result TenantError Tenant → Reply A → Reply A
with_tenant_found (err e) next = refused 404
with_tenant_found (ok t) next = next

-- `TenantMiddleware`, for the user of the context.
unfoldable pub tenant_middleware :
    {A : Type 0} → TenantEnv → World → Request → ℕ → (Text → Reply A) → Reply A
unfolding get_by_id is_member
tenant_middleware tenv w r user next =
    if is_empty r.x_tenant_id
    then refused 400
    else with_tenant_found (get_by_id tenv w r.x_tenant_id)
        (with_membership (is_member tenv w r.x_tenant_id user) (next r.x_tenant_id))

-- `JWTMiddleware` around a handler that answers with the context it sees.
unfoldable pub jwt_middleware : Crypto → AuthEnv → TenantEnv → World → Request → Reply (ℕ × Text)
unfolding auth_middleware tenant_middleware
jwt_middleware x env tenv w r =
    auth_middleware x env r (λ user. tenant_middleware tenv w r user (λ id. served (user, id)))
