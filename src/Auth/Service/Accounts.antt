-- ===== src/Auth/Service/Accounts.antt =====
-- Registration, login and tokens of internal/auth/service.go together.
use agentic_demo.Prelude.{
  ◌+◌, ◌≡◌, refl, inl, inr, true, ◌||◌, not, Option, none, some, List, ◌∷◌, Text, text_eq_refl,
  is_empty, trim_space, any_of, utf8_len, ltb, ◌<◌, ◌==◌, Result, ok, err, Bool-cases, Option-cases,
}
use agentic_demo.Auth.Service.{
  User, AuthError, Claims, Crypto, Documented, AuthEnv, user_by_email, create_user, new_user,
  register, issue_token, checked_password, login, validate_token,
}

-- The claims of a token that `Login` issues to a user.
abbrev pub claims_for : AuthEnv → User → Claims
claims_for env u = record {
  user_id = u.id;
  email = u.email;
  issued_at = env.now;
  expires_at = env.now + 86400;
}

-- A registered user can log in, and the token is accepted as theirs until it expires; a refused
-- registration leaves the users as they are.
abbrev Registered : Crypto → List User → List User → Text → Text → Result AuthError User → Type 0
Registered x users users' email password (err e) = users' ≡ users
Registered x users users' email password (ok u) =
    (env env' : AuthEnv)
    → env.lookup_ok ≡ true
    → env'.now < env.now + 86400
    → (token : Text) × (login x env users' email password ≡ ok token)
      × (validate_token x env' token ≡ ok (claims_for env u))

login-registered :
    (x : Crypto) (env : AuthEnv) (users : List User) (email password : Text) (u : User)
    → env.lookup_ok ≡ true
    → user_by_email users (trim_space email) ≡ some u
    → x.compare_hash u.password_hash password ≡ true
    → login x env users email password ≡ ok (issue_token x env u)
unfolding login checked_password
login-registered x env users email password u l f c = rw (l, f, c) refl

validate-issued :
    (x : Crypto) (d : Documented x) (env env' : AuthEnv) (u : User)
    → env'.now < env.now + 86400
    → validate_token x env' (issue_token x env u) ≡ ok (claims_for env u)
unfolding validate_token issue_token
validate-issued x d env env' u h = rw (d.token_valid (claims_for env u) env'.now h) refl

newest-found : (u : User) (users : List User) → user_by_email (u ∷ users) u.email ≡ some u
unfolding user_by_email
newest-found u users = rw (text_eq_refl u.email) refl

create_user-Registered :
    (x : Crypto) (d : Documented x) (env : AuthEnv) (users : List User) (email password : Text)
    → Registered x users
        (create_user env users (trim_space email) (x.generate password)).0
        email
        password
        (create_user env users (trim_space email) (x.generate password)).1
create_user-Registered x d env users email password = elim (Option-cases (x.generate password)) [
  | inl g ↦ rw g refl
  | inr (hash, g) ↦ elim (Bool-cases env.create_ok) [
    | inr c ↦ rw (g, c) refl
    | inl c ↦
        rw (g, c)
          (λ env1 env2 l t. (
            issue_token x env1 (made hash),
            (login-registered x env1 (made hash ∷ users) email password (made hash) l
                (newest-found (made hash) users) (d.hash_matches password hash g)),
            validate-issued x d env1 env2 (made hash) t,
          ))
  ]
]
  where
    made : Text → User
    made hash = record { id = env.next_id; email = trim_space email; password_hash = hash }

new_user-Registered :
    (x : Crypto) (d : Documented x) (env : AuthEnv) (users : List User) (email password : Text)
    (f : Option User)
    → Registered x users
        (new_user x env users (trim_space email) password f).0
        email
        password
        (new_user x env users (trim_space email) password f).1
new_user-Registered x d env users email password (some u) = refl
new_user-Registered x d env users email password none =
    create_user-Registered x d env users email password

register-Registered :
    (x : Crypto) (d : Documented x) (env : AuthEnv) (users : List User) (email password : Text)
    → Registered x users
        (register x env users email password).0
        email
        password
        (register x env users email password).1
unfolding register
register-Registered x d env users email password =
    elim (Bool-cases
      (is_empty (trim_space email) || not (any_of (λ c. c == 64) (trim_space email)))) [
        | inl e ↦ rw e refl
        | inr e ↦ rw e (elim (Bool-cases (ltb (utf8_len password) 8)) [
          | inl p ↦ rw p refl
          | inr p ↦ rw p (elim (Bool-cases env.lookup_ok) [
            | inr l ↦ rw l refl
            | inl l ↦ rw l (
                new_user-Registered x d env users email password
                  (user_by_email users (trim_space email)))
          ])
        ])
      ]

-- When the packages behave as documented, a user whom `Register` has returned can then log in with
-- the same email and password, as long as reads succeed, and the token is accepted with their
-- claims for 24 hours.
pub register-login :
    (x : Crypto) (d : Documented x) (env env1 env2 : AuthEnv) (users : List User)
    (email password : Text) {users' : List User} {u : User}
    → register x env users email password ≡ (users', ok u)
    → env1.lookup_ok ≡ true
    → env2.now < env1.now + 86400
    → (token : Text) × (login x env1 users' email password ≡ ok token)
      × (validate_token x env2 token ≡ ok (claims_for env1 u))
register-login x d env env1 env2 users email password h l t =
    (rw h at (register-Registered x d env users email password)) env1 env2 l t
