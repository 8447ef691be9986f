-- ===== src/Examples/Tenancy.antt =====
-- Inputs for the object store, the tenants and the accounts.
use agentic_demo.Prelude.{
  ℕ, ◌+◌, ◌<◌, ◌≡◌, ◌≢◌, refl, ◌⊎◌, inl, inr, Bool, true, false, ◌==◌, ◌&&◌, ◌||◌, if◌then◌else◌,
  ltb, lt→ltb, Option, none, some, List, [], ◌∷◌, ◌++◌, Text, lit, text_eq, text_eq_refl, Result,
  ok, err, arith,
}
use agentic_demo.Storage.Key.{not_found}
use agentic_demo.Storage.Memory.{Objects, put, get, write}
use agentic_demo.Storage.Memory.Isolation.{store-isolated}
use agentic_demo.Tenant.Service
use agentic_demo.Tenant.Service.{
  World, TenantEnv, Tenant, Role, active, admin, viewer, create, add_member,
}
use agentic_demo.Tenant.Service.Teardown.{Gone, IsMarked, delete-Deleted}
use agentic_demo.Auth.Service.{
  User, Claims, Crypto, Documented, AuthEnv, register, login, validate_token,
}
use agentic_demo.Auth.Service.Accounts.{claims_for, register-login}
use agentic_demo.Auth.Middleware.{Request, jwt_middleware}
use agentic_demo.Auth.Middleware.Access.{Allowed, jwt_middleware-Allowed}

abbrev acme : Text
acme = lit "acme"

abbrev rival : Text
rival = lit "rival"

abbrev empty : Objects
empty k = none

abbrev file : Text
file = lit "notes.txt"

abbrev stored : Objects
stored = write empty (lit "tenant/acme/notes.txt") (some (1 ∷ 2 ∷ []))

store-isolated_example : get stored rival file ≡ get empty rival file
unfolding put agentic_demo.Storage.Key.object_key agentic_demo.Storage.Key.escapes text_eq
store-isolated_example =
    store-isolated empty stored acme rival file (ground arith) (ground arith) (ground arith)
      (inl (file, 1 ∷ 2 ∷ [], refl))

abbrev world : World
world = record {
  tenants = λ k.
      if text_eq k acme || text_eq k rival
      then some (record { id = k; name = lit "A tenant"; status = active })
      else none;
  members = λ k u. if text_eq k rival && (u == 7) then some viewer else none;
  objects = stored;
  chunks =
      record { tenant = acme; content = file } ∷ record { tenant = rival; content = file } ∷ [];
}

abbrev healthy : TenantEnv
healthy = record {
  create_tenant_ok = true;
  create_membership_ok = true;
  lookup_ok = true;
  objects_ok = true;
  knowledge_ok = true;
  mark_ok = true;
  fresh = lit "0a1b2c3d";
}

-- The deletion succeeds.
delete-Deleted_example :
    Gone (Service.delete healthy world acme).0 acme
    × IsMarked ((Service.delete healthy world acme).0.tenants acme)
unfolding Service.delete Service.get_by_id Service.teardown text_eq
delete-Deleted_example = delete-Deleted healthy world acme

abbrev parsed : ℕ → Text → Option Claims
parsed now (user ∷ issued ∷ expires ∷ email) =
    if ltb now expires
    then some (record { user_id = user; email = email; issued_at = issued; expires_at = expires })
    else none
parsed now _ = none

-- A cipher that only labels.
abbrev crypto : Crypto
crypto = record {
  generate = λ p. some (1 ∷ p);
  compare_hash = λ h p. text_eq h (1 ∷ p);
  sign = λ c. c.user_id ∷ c.issued_at ∷ c.expires_at ∷ c.email;
  parse = parsed;
}

labelled : (p h : Text) → some (1 ∷ p) ≡ some h → text_eq h (1 ∷ p) ≡ true
labelled p h e = let q : 1 ∷ p ≡ h = cc in rw (← q) (text_eq_refl (1 ∷ p))

crypto-Documented : Documented crypto
crypto-Documented = record {
  hash_matches = λ p h e. labelled p h e;
  token_valid = λ c now h. rw (lt→ltb now c.expires_at h) refl;
}

abbrev env : AuthEnv
env = record { lookup_ok = true; create_ok = true; next_id = 7; now = 1000 }

abbrev email : Text
email = lit "ann@acme.org"

abbrev password : Text
password = lit "correct horse"

abbrev ann : User
ann = record { id = 7; email = email; password_hash = 1 ∷ password }

register-login_example :
    (token : Text) × (login crypto env (ann ∷ []) email password ≡ ok token)
    × (validate_token crypto env token ≡ ok (claims_for env ann))
unfolding register agentic_demo.Prelude.is_empty agentic_demo.Prelude.any_of
    agentic_demo.Prelude.utf8_len
register-login_example =
    register-login crypto crypto-Documented env env env [] email password refl refl (omega arith)

abbrev request : Request
request = record { authorization = lit "Bearer " ++ (7 ∷ 1000 ∷ 2000 ∷ email); x_tenant_id = rival }

-- The request is served, for the user 7 and the tenant.
jwt_middleware-Allowed_example : Allowed crypto env healthy world request (7, rival)
unfolding jwt_middleware text_eq agentic_demo.Prelude.is_empty
jwt_middleware-Allowed_example = jwt_middleware-Allowed crypto env healthy world request
