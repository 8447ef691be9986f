-- ===== src/Auth/Service.antt =====
-- internal/auth/service.go over the users table of internal/auth/repository.go. The functions of
-- the bcrypt and jwt packages are the fields of Crypto; emails are compared as the database does,
-- by equality. A time is a number of seconds.
pub mod Accounts
use agentic_demo.Prelude.{
  ℕ, ◌+◌, ◌≡◌, refl, sym, ◌⊎◌, inl, inr, Bool, true, false, ◌||◌, not, Option, none, some, List, [],
  ◌∷◌, Text, text_eq, text_eq_refl, is_empty, trim_space, any_of, utf8_len, ltb, ◌≤◌, ◌<◌, ◌==◌,
  Result, ok, err, arith, Bool-cases, Option-cases, if◌then◌else◌,
}

pub record User : Type 0 where
  pub id : ℕ
  pub email : Text
  pub password_hash : Text

pub data AuthError : Type 0 where
  invalid_email weak_password user_exists invalid_credentials invalid_token unavailable : AuthError

-- `Claims`.
pub record Claims : Type 0 where
  pub user_id : ℕ
  pub email : Text
  pub issued_at : ℕ
  pub expires_at : ℕ

-- `bcrypt.GenerateFromPassword` and `CompareHashAndPassword`, `jwt` signing, and `jwt` parsing at a
-- time, both with the service's secret.
pub record Crypto : Type 0 where
  pub generate : Text → Option Text
  pub compare_hash : Text → Text → Bool
  pub sign : Claims → Text
  pub parse : ℕ → Text → Option Claims

-- What the packages document: a hash matches its password, and a token that was signed is valid
-- until it expires.
pub record Documented (x : Crypto) : Type 0 where
  pub hash_matches : (p h : Text) → x.generate p ≡ some h → x.compare_hash h p ≡ true
  pub token_valid : (c : Claims) (now : ℕ) → now < c.expires_at → x.parse now (x.sign c) ≡ some c

-- Which statements of the database succeed, and the next identifier.
pub record AuthEnv : Type 0 where
  pub lookup_ok : Bool
  pub create_ok : Bool
  pub next_id : ℕ
  pub now : ℕ

unfoldable pub user_by_email : List User → Text → Option User
user_by_email [] email = none
user_by_email (u ∷ us) email = if text_eq u.email email then some u else user_by_email us email

abbrev pub create_user :
    AuthEnv → List User → Text → Option Text → List User × Result AuthError User
create_user env users email none = (users, err unavailable)
create_user env users email (some hash) =
    let u : User = record { id = env.next_id; email = email; password_hash = hash } in
    if env.create_ok then (u ∷ users, ok u) else (users, err unavailable)

abbrev pub new_user :
    Crypto → AuthEnv → List User → Text → Text → Option User → List User × Result AuthError User
new_user x env users email password (some u) = (users, err user_exists)
new_user x env users email password none = create_user env users email (x.generate password)

-- `Register`.
unfoldable pub register :
    Crypto → AuthEnv → List User → Text → Text → List User × Result AuthError User
unfolding trim_space user_by_email
register x env users email password =
    if is_empty (trim_space email) || not (any_of (λ c. c == 64) (trim_space email))
    then (users, err invalid_email)
    else if ltb (utf8_len password) 8
    then (users, err weak_password)
    else if not env.lookup_ok
    then (users, err unavailable)
    else new_user x env users (trim_space email) password (user_by_email users (trim_space email))

-- `issueToken`: a token that is valid for 24 hours.
unfoldable pub issue_token : Crypto → AuthEnv → User → Text
issue_token x env u =
    x.sign (record {
      user_id = u.id;
      email = u.email;
      issued_at = env.now;
      expires_at = env.now + 86400;
    })

abbrev pub checked_password : Crypto → AuthEnv → Text → Option User → Result AuthError Text
unfolding issue_token
checked_password x env password none = err invalid_credentials
checked_password x env password (some u) =
    if x.compare_hash u.password_hash password
    then ok (issue_token x env u)
    else err invalid_credentials

-- `Login`.
unfoldable pub login : Crypto → AuthEnv → List User → Text → Text → Result AuthError Text
unfolding trim_space user_by_email checked_password
login x env users email password =
    if env.lookup_ok
    then checked_password x env password (user_by_email users (trim_space email))
    else err unavailable

abbrev pub claims_of : Option Claims → Result AuthError Claims
claims_of none = err invalid_token
claims_of (some c) = ok c

-- `ValidateToken`.
unfoldable pub validate_token : Crypto → AuthEnv → Text → Result AuthError Claims
validate_token x env token = claims_of (x.parse env.now token)
