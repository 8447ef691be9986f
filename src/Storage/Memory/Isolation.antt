-- ===== src/Storage/Memory/Isolation.antt =====
-- What the store of internal/storage/memory.go keeps apart. A tenant identifier with a slash could
-- reach into another tenant's prefix; the identifiers that the program generates have none.
use agentic_demo.Prelude.{
  ◌⊎◌, inl, inr, ℕ, ◌≡◌, ◌≢◌, refl, sym, ap, ◌∙◌, inl, inr, true, false, Option, none, some, List,
  [], ◌∷◌, ◌++◌, Text, lit, All, text_eq, text_eq_refl, eq_of_text_eq, has_prefix, ok, err,
  Result-cases, ◌>>=◌, arith, Bool-cases, append_assoc, drop, subst,
}
use agentic_demo.Storage.Key.{not_found, tenant_key_prefix, escapes, object_key}
use agentic_demo.Storage.Memory.{Objects, put, get, delete, delete_tenant, write, or_not_found}

abbrev pub NoSlash : Text → Type 0
NoSlash = All (λ c. c ≢ b'/')

slash_split :
    (t u k j : Text) → NoSlash t → NoSlash u → t ++ (b'/' ∷ k) ≡ u ++ (b'/' ∷ j) → (t ≡ u) × (k ≡ j)
slash_split [] [] k j ht hu h = ground arith
slash_split [] (b ∷ u) k j ht hu h = absurd (ground arith)
slash_split (a ∷ t) [] k j ht hu h = absurd (ground arith)
slash_split (a ∷ t) (b ∷ u) k j ht hu h = ground (arith, slash_split t u k j ht.1 hu.1)

has_prefix-slash :
    (t u j : Text)
    → NoSlash t
    → NoSlash u
    → has_prefix (u ++ (b'/' ∷ j)) (t ++ (b'/' ∷ [])) ≡ true
    → t ≡ u
unfolding has_prefix
has_prefix-slash [] [] j ht hu h = refl
has_prefix-slash [] (b ∷ u) j ht hu h = absurd (ground arith)
has_prefix-slash (a ∷ t) [] j ht hu h = absurd (ground arith)
has_prefix-slash (a ∷ t) (b ∷ u) j ht hu h = ground (arith, has_prefix-slash t u j ht.1 hu.1)

has_prefix_self : (t k : Text) → has_prefix (t ++ k) t ≡ true
unfolding has_prefix
has_prefix_self [] k = refl
has_prefix_self (a ∷ t) k = ground (arith, has_prefix_self t k)

full_key : Text → Text → Text
full_key tenant key = tenant_key_prefix tenant ++ key

object_key-ok :
    (tenant key full : Text) → object_key tenant key ≡ ok full → full ≡ full_key tenant key
unfolding object_key full_key
object_key-ok tenant key full h = elim (Bool-cases (escapes key)) [
  | inl e ↦ absurd (let k = rw e at h in cc)
  | inr e ↦ let k = rw e at h in cc
]

full_key-tenant : (t u k j : Text) → NoSlash t → NoSlash u → full_key t k ≡ full_key u j → t ≡ u
unfolding full_key tenant_key_prefix
full_key-tenant t u k j ht hu e =
    (slash_split t u k j ht hu
      (sym (append_assoc t (lit "/") k) ∙ ap (drop 7) e ∙ append_assoc u (lit "/") j)).0

full_key-apart :
    (t u k j : Text) → NoSlash t → NoSlash u → t ≢ u → text_eq (full_key t k) (full_key u j) ≡ false
full_key-apart t u k j ht hu h = elim (Bool-cases (text_eq (full_key t k) (full_key u j))) [
  | inr e ↦ e
  | inl e ↦ absurd (h (full_key-tenant t u k j ht hu (eq_of_text_eq _ _ e)))
]

prefix-apart :
    (t u j : Text)
    → NoSlash t
    → NoSlash u
    → t ≢ u
    → has_prefix (full_key u j) (tenant_key_prefix t) ≡ false
unfolding full_key tenant_key_prefix has_prefix
prefix-apart t u j ht hu h = elim (Bool-cases (has_prefix ((u ++ lit "/") ++ j) (t ++ lit "/"))) [
  | inr e ↦ e
  | inl e ↦ absurd (
      h (
        has_prefix-slash t u j ht hu
          (subst (λ s. has_prefix s (t ++ lit "/") ≡ true) (append_assoc u (lit "/") j) e)))
]

-- The reads of a store at two keys that it holds alike are alike.
get-same :
    (objects objects' : Objects) (u j : Text)
    → objects' (full_key u j) ≡ objects (full_key u j)
    → get objects' u j ≡ get objects u j
unfolding get
get-same objects objects' u j h = elim (Result-cases (object_key u j)) [
  | inl (full, e) ↦ rw (e, ◌>>=◌) (rw (object_key-ok u j full e, h))
  | inr (x, e) ↦ rw (e, ◌>>=◌)
]

get-write :
    (objects : Objects) (t u k j : Text) (value : Option (List ℕ))
    → NoSlash t
    → NoSlash u
    → t ≢ u
    → get (write objects (full_key t k) value) u j ≡ get objects u j
get-write objects t u k j value ht hu h =
    get-same objects (write objects (full_key t k) value) u j
      (rw (full_key-apart u t j k hu ht (λ e. h (sym e))))

put-write :
    (objects objects' : Objects) (t k : Text) (content : List ℕ)
    → put objects t k content ≡ ok objects'
    → write objects (full_key t k) (some content) ≡ objects'
unfolding put
put-write objects objects' t k content p = elim (Result-cases (object_key t k)) [
  | inl (full, e) ↦
      let q = rw (e, ◌>>=◌) at p in
      let w : write objects full (some content) ≡ objects' = cc in rw (← object_key-ok t k full e) w
  | inr (x, e) ↦ absurd (let q = rw (e, ◌>>=◌) at p in cc)
]

delete-write :
    (objects objects' : Objects) (t k : Text)
    → delete objects t k ≡ ok objects'
    → write objects (full_key t k) none ≡ objects'
unfolding delete
delete-write objects objects' t k p = elim (Result-cases (object_key t k)) [
  | inl (full, e) ↦
      let q = rw (e, ◌>>=◌) at p in
      let w : write objects full none ≡ objects' = cc in rw (← object_key-ok t k full e) w
  | inr (x, e) ↦ absurd (let q = rw (e, ◌>>=◌) at p in cc)
]

-- What a tenant can do to the objects: store one, remove one, or be removed.
abbrev pub Changed : Objects → Text → Objects → Type 0
Changed objects t objects' =
    ((k : Text) × (content : List ℕ) × (put objects t k content ≡ ok objects'))
    ⊎ ((k : Text) × (delete objects t k ≡ ok objects'))
    ⊎ (objects' ≡ delete_tenant objects t)

-- What one tenant stores or removes never changes what another tenant reads, under any key of either,
-- and removing a tenant leaves the objects of the others; neither tenant's identifier has a slash.
pub store-isolated :
    (objects objects' : Objects) (t u j : Text)
    → NoSlash t
    → NoSlash u
    → t ≢ u
    → Changed objects t objects'
    → get objects' u j ≡ get objects u j
unfolding delete_tenant
store-isolated objects objects' t u j ht hu h (inl (k, content, p)) =
    rw (← put-write objects objects' t k content p)
      (get-write objects t u k j (some content) ht hu h)
store-isolated objects objects' t u j ht hu h (inr (inl (k, p))) =
    rw (← delete-write objects objects' t k p) (get-write objects t u k j none ht hu h)
store-isolated objects objects' t u j ht hu h (inr (inr p)) =
    rw p (get-same objects (delete_tenant objects t) u j (rw (prefix-apart t u j ht hu h)))

-- A key that the store has accepted.
get-accepted :
    (objects : Objects) (t k : Text)
    → escapes k ≡ false
    → get objects t k ≡ or_not_found (objects (full_key t k))
unfolding get object_key full_key
get-accepted objects t k h = rw (h, ◌>>=◌)

has_prefix-tenant : (t k : Text) → has_prefix (full_key t k) (tenant_key_prefix t) ≡ true
unfolding full_key
has_prefix-tenant t k = has_prefix_self (tenant_key_prefix t) k

-- A tenant reads back what it stored under a key that does not escape its prefix; after a delete of
-- the key, and after the removal of the tenant, it finds nothing there.
pub get-put :
    (objects stored removed : Objects) (t k : Text) (content : List ℕ)
    → escapes k ≡ false
    → put objects t k content ≡ ok stored
    → delete objects t k ≡ ok removed
    → (get stored t k ≡ ok content)
      × (get removed t k ≡ err not_found)
      × (get (delete_tenant objects t) t k ≡ err not_found)
unfolding or_not_found delete_tenant
get-put objects stored removed t k content h p q = (
  rw (← put-write objects stored t k content p) (
      get-accepted (write objects (full_key t k) (some content)) t k h
      ∙ rw (text_eq_refl (full_key t k))),
  rw (← delete-write objects removed t k q)
      (get-accepted (write objects (full_key t k) none) t k h ∙ rw (text_eq_refl (full_key t k))),
  get-accepted (delete_tenant objects t) t k h ∙ rw (has_prefix-tenant t k),
)
