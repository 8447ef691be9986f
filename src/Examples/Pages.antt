-- ===== src/Examples/Pages.antt =====
-- Inputs for the middleware of the pages.
use agentic_demo.Prelude.{refl, true, none, some, [], lit}
use agentic_demo.Auth.Service.{Crypto, AuthEnv}
use agentic_demo.Auth.Middleware.Access.{Served}
use agentic_demo.Tenant.Service.{World, TenantEnv, active, admin}
use agentic_demo.Web.Csrf.{CsrfRequest, Repeats, csrf_middleware, csrf_middleware-Repeats}
use agentic_demo.Web.Session.{
  PageRequest, Admitted, cookie_jwt_middleware, cookie_jwt_middleware-Admitted,
}

abbrev submission : CsrfRequest
submission = record {
  method = lit "POST";
  cookie = lit "c0ffee";
  header = [];
  field = lit "c0ffee ";
}

csrf_middleware-Repeats_example :
    Served (Repeats submission) (csrf_middleware (lit "f00d") submission)
unfolding agentic_demo.Web.Csrf.is_state_changing
csrf_middleware-Repeats_example = csrf_middleware-Repeats (lit "f00d") submission refl

abbrev one_user : Crypto
one_user = record {
  generate = λ p. some p;
  compare_hash = λ h p. true;
  sign = λ c. lit "token";
  parse = λ now t.
      some (record { user_id = 7; email = lit "ann@acme.org"; issued_at = 0; expires_at = 86400 });
}

abbrev auth_env : AuthEnv
auth_env = record { lookup_ok = true; create_ok = true; next_id = 8; now = 10 }

abbrev tenant_env : TenantEnv
tenant_env = record {
  create_tenant_ok = true;
  create_membership_ok = true;
  lookup_ok = true;
  objects_ok = true;
  knowledge_ok = true;
  mark_ok = true;
  fresh = lit "0a1b2c3d";
}

abbrev one_tenant : World
one_tenant = record {
  tenants = λ k. some (record { id = k; name = lit "Acme"; status = active });
  members = λ k u. some admin;
  objects = λ k. none;
  chunks = [];
}

abbrev page : PageRequest
page = record {
  headers = record { authorization = []; x_tenant_id = [] };
  jwt_cookie = lit "token";
  tenant_cookie = lit "acme";
}

cookie_jwt_middleware-Admitted_example :
    Served
      (Admitted one_user auth_env tenant_env one_tenant page)
      (cookie_jwt_middleware one_user auth_env tenant_env one_tenant page)
cookie_jwt_middleware-Admitted_example =
    cookie_jwt_middleware-Admitted one_user auth_env tenant_env one_tenant page
