-- ===== src/Web/Csrf.antt =====
-- internal/web/csrf.go.
use agentic_demo.Prelude.{
  ◌≡◌, refl, inl, inr, Bool, true, false, ◌||◌, Option, none, some, Text, lit, text_eq,
  eq_of_text_eq, is_empty, trim_space, if_both, if_split, ◌⊎◌, if◌then◌else◌,
}
use agentic_demo.Auth.Middleware.{Reply, served, refused}
use agentic_demo.Auth.Middleware.Access.{Served}

-- A cookie, a header or a form field that is missing is empty.
pub record CsrfRequest : Type 0 where
  pub method : Text
  pub cookie : Text
  pub header : Text
  pub field : Text

-- The token of the request's context, and the cookie that is set.
pub record CsrfContext : Type 0 where
  pub token : Option Text
  pub new_cookie : Option Text

unfoldable pub is_safe : Text → Bool
unfolding text_eq
is_safe m = text_eq m (lit "GET") || (text_eq m (lit "HEAD") || text_eq m (lit "OPTIONS"))

unfoldable pub is_state_changing : Text → Bool
unfolding text_eq
is_state_changing m =
    text_eq m (lit "POST")
    || (text_eq m (lit "PUT") || (text_eq m (lit "DELETE") || text_eq m (lit "PATCH")))

-- `getOrGenerateToken`; `fresh` is what `generateToken` gives.
unfoldable pub get_or_generate_token : Text → CsrfRequest → CsrfContext
unfolding is_empty
get_or_generate_token fresh r =
    if is_empty r.cookie
    then record { token = some fresh; new_cookie = some fresh }
    else record { token = some r.cookie; new_cookie = none }

-- `extractRequestToken`.
unfoldable pub extract_request_token : CsrfRequest → Text
unfolding is_empty
extract_request_token r = if is_empty r.header then r.field else r.header

-- `secureCompare`.
unfoldable pub secure_compare : Text → Text → Bool
unfolding text_eq trim_space
secure_compare a b = text_eq (trim_space a) (trim_space b)

-- The check of a state-changing request.
abbrev pub checked : CsrfRequest → Reply CsrfContext
unfolding extract_request_token secure_compare is_empty
checked r =
    if is_empty r.cookie
    then refused 403
    else if is_empty (extract_request_token r)
    then refused 403
    else if secure_compare r.cookie (extract_request_token r)
    then served (record { token = some r.cookie; new_cookie = none })
    else refused 403

-- `CSRFMiddleware` around a handler that answers with the context it sees.
unfoldable pub csrf_middleware : Text → CsrfRequest → Reply CsrfContext
unfolding is_safe is_state_changing get_or_generate_token checked
csrf_middleware fresh r =
    if is_safe r.method
    then served (get_or_generate_token fresh r)
    else if is_state_changing r.method
    then checked r
    else served (record { token = none; new_cookie = none })

-- The request repeats the token of its cookie, which is not empty, in its header or in its form.
pub record Repeats (r : CsrfRequest) (c : CsrfContext) : Type 0 where
  pub has_cookie : is_empty r.cookie ≡ false
  pub same_token : trim_space r.cookie ≡ trim_space (extract_request_token r)
  pub in_context : c.token ≡ some r.cookie

checked-Repeats : (r : CsrfRequest) → Served (Repeats r) (checked r)
unfolding checked secure_compare
checked-Repeats r =
    if_split (Served (Repeats r)) (is_empty r.cookie) (λ e. tt)
      (λ e. if_both (Served (Repeats r)) (is_empty (extract_request_token r)) tt (
        if_split (Served (Repeats r)) (secure_compare r.cookie (extract_request_token r))
          (λ t. record { has_cookie = e; same_token = eq_of_text_eq _ _ t; in_context = refl })
          (λ t. tt)))

-- One of two tests passes.
or_cases : (a b : Bool) → a || b ≡ true → (a ≡ true) ⊎ (b ≡ true)
or_cases true b h = inl refl
or_cases false b h = inr h

unsafe_method : (m name : Text) → is_safe name ≡ false → text_eq m name ≡ true → is_safe m ≡ false
unsafe_method m name h e = rw (eq_of_text_eq m name e) h

safe_apart : (m : Text) → is_state_changing m ≡ true → is_safe m ≡ false
unfolding is_state_changing is_safe text_eq
safe_apart m h = elim (or_cases (text_eq m (lit "POST")) _ h) [
  | inl e ↦ unsafe_method m (lit "POST") refl e
  | inr k ↦ elim (or_cases (text_eq m (lit "PUT")) _ k) [
    | inl e ↦ unsafe_method m (lit "PUT") refl e
    | inr l ↦ elim (or_cases (text_eq m (lit "DELETE")) _ l) [
      | inl e ↦ unsafe_method m (lit "DELETE") refl e
      | inr e ↦ unsafe_method m (lit "PATCH") refl e
    ]
  ]
]

clash : {B : Type 0} {b : Bool} → b ≡ false → b ≡ true → B
clash p q = cc

-- A state-changing request reaches its handler only if it repeats the token of its cookie.
pub csrf_middleware-Repeats :
    (fresh : Text) (r : CsrfRequest)
    → is_state_changing r.method ≡ true
    → Served (Repeats r) (csrf_middleware fresh r)
unfolding csrf_middleware
csrf_middleware-Repeats fresh r h =
    if_split (Served (Repeats r)) (is_safe r.method) (λ s. clash (safe_apart r.method h) s)
      (λ s.
        if_split (Served (Repeats r)) (is_state_changing r.method) (λ k. checked-Repeats r)
          (λ k. clash k h))
