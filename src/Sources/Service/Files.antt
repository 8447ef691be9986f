-- ===== src/Sources/Service/Files.antt =====
-- The uploaded files behind `storeFile` of internal/sources/service.go.
use agentic_demo.Prelude.{
  ℕ, ◌≡◌, refl, inl, inr, ◌⊎◌, true, false, not, Option, none, some, List, Text, ==_iff, Result, ok,
  err, ◌>>=◌, if_both, if_split,
}
use agentic_demo.Storage.Key.{StorageError, not_found, escapes, object_key}
use agentic_demo.Storage.Memory.{Objects, put, get, delete}
use agentic_demo.Storage.Memory.Isolation.{get-put}
use agentic_demo.Sources.Service.{
  SourceRow, Sources, SourceEnv, SourceStep, set_source, file_key, removed, cleanup, recorded,
  put_file, store_file,
}

-- A key that is accepted can be written and deleted.
put-accepted :
    (objects : Objects) (t k : Text) (content : List ℕ)
    → escapes k ≡ false
    → (stored : Objects) × (put objects t k content ≡ ok stored)
unfolding put object_key
put-accepted objects t k content h = rw (h, ◌>>=◌) (_, refl)

delete-accepted :
    (objects : Objects) (t k : Text)
    → escapes k ≡ false
    → (left : Objects) × (delete objects t k ≡ ok left)
unfolding delete object_key
delete-accepted objects t k h = rw (h, ◌>>=◌) (_, refl)

-- The file is there and the row names it, or nothing has changed, or no object is left behind and
-- the row is as it was.
abbrev pub Filed : SourceEnv → Text → SourceRow → List ℕ → Sources → SourceStep → Type 0
Filed env tenant row content w (after, ok row') =
    (get after.objects tenant (file_key env row) ≡ ok content)
    × (after.rows row.id ≡ some row')
    × (env.set_key row.config (file_key env row) ≡ some row'.config)
Filed env tenant row content w (after, err e) =
    (after ≡ w)
    ⊎ ((get after.objects tenant (file_key env row) ≡ err not_found) × (after.rows ≡ w.rows))

module _ (env : SourceEnv) (tenant : Text) (row : SourceRow) (content : List ℕ) (w : Sources)
    (valid : escapes (file_key env row) ≡ false) where
  stored-content :
      (objects : Objects)
      → put w.objects tenant (file_key env row) content ≡ ok objects
      → get objects tenant (file_key env row) ≡ ok content
  stored-content objects p =
      let d = delete-accepted w.objects tenant (file_key env row) valid in
      (get-put w.objects objects d.0 tenant (file_key env row) content valid p d.1).0

  cleaned-content :
      (objects : Objects)
      → get (removed objects (delete objects tenant (file_key env row))) tenant (file_key env row)
        ≡ err not_found
  cleaned-content objects =
      let d = delete-accepted objects tenant (file_key env row) valid in
      let p = put-accepted objects tenant (file_key env row) content valid in
      rw d.1 (get-put objects p.0 d.0 tenant (file_key env row) content valid p.1 d.1).1

  recorded-Filed :
      env.cleanup_ok ≡ true
      → (objects : Objects) (config : Option Text)
      → put w.objects tenant (file_key env row) content ≡ ok objects
      → env.set_key row.config (file_key env row) ≡ config
      → Filed env tenant row content w
          (recorded env tenant row (record w { objects = objects }) config)
  unfolding recorded cleanup set_source
  recorded-Filed c objects none p s = inr (rw c (cleaned-content objects), rw c refl)
  recorded-Filed c objects (some config) p s =
      if_split (Filed env tenant row content w) env.record_ok
        (λ e. (stored-content objects p, rw ((==_iff row.id row.id).1 refl), s))
        (λ e. inr (rw c (cleaned-content objects), rw c refl))

  put_file-Filed :
      env.cleanup_ok ≡ true
      → (r : Result StorageError Objects) → put w.objects tenant (file_key env row) content ≡ r
      → Filed env tenant row content w (put_file env tenant row w r)
  unfolding put_file
  put_file-Filed c (err e) p = inl refl
  put_file-Filed c (ok objects) p =
      recorded-Filed c objects (env.set_key row.config (file_key env row)) p refl

-- An upload that succeeds leaves the bytes in the object store under the key that the row's new
-- config names; one that fails changes nothing or leaves no object behind, with the rows as they
-- were. The key does not escape the tenant's prefix, and the removal of an object succeeds.
pub store_file-Filed :
    (env : SourceEnv) (tenant : Text) (row : SourceRow) (content : List ℕ) (w : Sources)
    → escapes (file_key env row) ≡ false
    → env.cleanup_ok ≡ true
    → Filed env tenant row content w (store_file env tenant row content w)
unfolding store_file
store_file-Filed env tenant row content w valid c =
    if_both (Filed env tenant row content w) (not env.put_ok) (inl refl) (
      put_file-Filed env tenant row content w valid c
        (put w.objects tenant (file_key env row) content) refl)
