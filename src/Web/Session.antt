-- ===== src/Web/Session.antt =====
-- internal/web/middleware.go: access by cookies, with the headers as a fallback. A redirect is a
-- refusal with status 303. The email and the tenant's name in the context are left out.
use agentic_demo.Prelude.{
  ℕ, ◌≡◌, ◌⊎◌, refl, inl, inr, true, not, Text, is_empty, ok, if_both, if◌then◌else◌,
}
use agentic_demo.Auth.Service.{Crypto, AuthEnv, Claims, validate_token}
use agentic_demo.Tenant.Service.{World, TenantEnv, get_by_id, is_member}
use agentic_demo.Auth.Middleware.{
  Request, Reply, served, refused, with_claims, auth_middleware, with_membership, with_tenant_found,
  tenant_middleware,
}
use agentic_demo.Auth.Middleware.Access.{
  HasToken, Served, with_claims-Served, auth_middleware-Served, with_membership-Served,
  with_tenant_found-Served, tenant_middleware-Served,
}

-- The headers, and the cookies `jwt` and `tenant_id`; a cookie that is missing is empty.
pub record PageRequest : Type 0 where
  pub headers : Request
  pub jwt_cookie : Text
  pub tenant_cookie : Text

-- `CookieAuthMiddleware`.
unfoldable pub cookie_auth_middleware :
    {A : Type 0} → Crypto → AuthEnv → PageRequest → (ℕ → Reply A) → Reply A
unfolding validate_token is_empty auth_middleware
cookie_auth_middleware x env r next =
    if is_empty r.jwt_cookie
    then auth_middleware x env r.headers next
    else with_claims (validate_token x env r.jwt_cookie) next

-- `CookieTenantMiddleware`, for the user of the context.
unfoldable pub cookie_tenant_middleware :
    {A : Type 0} → TenantEnv → World → PageRequest → ℕ → (Text → Reply A) → Reply A
unfolding get_by_id is_member is_empty tenant_middleware
cookie_tenant_middleware tenv w r user next =
    if not (is_empty r.tenant_cookie)
    then with_tenant_found (get_by_id tenv w r.tenant_cookie)
        (with_membership (is_member tenv w r.tenant_cookie user) (next r.tenant_cookie))
    else if not (is_empty r.headers.x_tenant_id)
    then tenant_middleware tenv w r.headers user next
    else refused 303

-- `CookieJWTMiddleware` around a handler that answers with the context it sees.
unfoldable pub cookie_jwt_middleware :
    Crypto → AuthEnv → TenantEnv → World → PageRequest → Reply (ℕ × Text)
unfolding cookie_auth_middleware cookie_tenant_middleware
cookie_jwt_middleware x env tenv w r =
    cookie_auth_middleware x env r
      (λ user. cookie_tenant_middleware tenv w r user (λ id. served (user, id)))

-- The request carries a token of the user that is valid now, in its cookie or in its header.
abbrev pub SignedIn : Crypto → AuthEnv → PageRequest → ℕ → Type 0
SignedIn x env r user =
    ((c : Claims) × (validate_token x env r.jwt_cookie ≡ ok c) × (c.user_id ≡ user))
    ⊎ HasToken x env r.headers user

abbrev pub Admitted : Crypto → AuthEnv → TenantEnv → World → PageRequest → ℕ × Text → Type 0
Admitted x env tenv w r context =
    SignedIn x env r context.0 × (is_member tenv w context.1 context.0 ≡ ok true)

cookie_auth_middleware-Served :
    {A : Type 0} (P : A → Type 0) (x : Crypto) (env : AuthEnv) (r : PageRequest)
    (next : ℕ → Reply A)
    → ((user : ℕ) → SignedIn x env r user → Served P (next user))
    → Served P (cookie_auth_middleware x env r next)
unfolding cookie_auth_middleware
cookie_auth_middleware-Served P x env r next h =
    if_both (Served P) (is_empty r.jwt_cookie)
      (auth_middleware-Served P x env r.headers next (λ user t. h user (inr t)))
      (with_claims-Served P (validate_token x env r.jwt_cookie) next
        (λ c e. h c.user_id (inl (c, e, refl))))

cookie_tenant_middleware-Served :
    {A : Type 0} (P : A → Type 0) (tenv : TenantEnv) (w : World) (r : PageRequest) (user : ℕ)
    (next : Text → Reply A)
    → ((id : Text) → is_member tenv w id user ≡ ok true → Served P (next id))
    → Served P (cookie_tenant_middleware tenv w r user next)
unfolding cookie_tenant_middleware
cookie_tenant_middleware-Served P tenv w r user next h =
    if_both (Served P) (not (is_empty r.tenant_cookie))
      (with_tenant_found-Served P (get_by_id tenv w r.tenant_cookie)
        (with_membership (is_member tenv w r.tenant_cookie user) (next r.tenant_cookie))
        (with_membership-Served P (is_member tenv w r.tenant_cookie user) (next r.tenant_cookie)
          (h r.tenant_cookie)))
      (if_both (Served P) (not (is_empty r.headers.x_tenant_id))
        (tenant_middleware-Served P tenv w r.headers user next (h r.headers.x_tenant_id)) tt)

-- A page is served only to a user with a token that is valid now, from the cookie or the header, and
-- only within a tenant of which that user is a member.
pub cookie_jwt_middleware-Admitted :
    (x : Crypto) (env : AuthEnv) (tenv : TenantEnv) (w : World) (r : PageRequest)
    → Served (Admitted x env tenv w r) (cookie_jwt_middleware x env tenv w r)
unfolding cookie_jwt_middleware
cookie_jwt_middleware-Admitted x env tenv w r =
    cookie_auth_middleware-Served (Admitted x env tenv w r) x env r
      (λ user. cookie_tenant_middleware tenv w r user (λ id. served (user, id)))
      (λ user s.
        cookie_tenant_middleware-Served (Admitted x env tenv w r) tenv w r user
          (λ id. served (user, id)) (λ id m. (s, m)))
