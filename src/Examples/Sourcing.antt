-- ===== src/Examples/Sourcing.antt =====
-- Inputs for the data sources: a toy cipher, and an upload that creates a source.
use agentic_demo.Prelude.{
  Result, ok, err, ◌≡◌, ◌≢◌, refl, true, false, Option, none, some, [], ◌∷◌, ◌++◌, Text, lit,
  length, text_eq,
}
use agentic_demo.Storage.Key.{escapes}
use agentic_demo.Sources.Crypto.{Bytes, Aead, CryptError, nonce_size, encrypt, decrypt}
use agentic_demo.Sources.Crypto.RoundTrip.{Restored, decrypt-encrypt}
use agentic_demo.Sources.Service.{
  SourceRow, Sources, SourceEnv, CreateSource, answered, file_key, store_file, create_source,
}
use agentic_demo.Sources.Service.Files.{Filed, store_file-Filed}
use agentic_demo.Sources.Reader.Projection.{ReadBack, get_projection-create_source}

-- A cipher that puts the tag 7 before the text.
abbrev untagged : Bytes → Option Bytes
untagged [] = none
untagged (tag ∷ text) = some text

abbrev toy : Aead
toy = record { seal = λ key nonce text. 7 ∷ text; open_sealed = λ key nonce text. untagged text }

abbrev twelve : Bytes
twelve = 1 ∷ 2 ∷ 3 ∷ 4 ∷ 5 ∷ 6 ∷ 7 ∷ 8 ∷ 9 ∷ 10 ∷ 11 ∷ 12 ∷ []

twelve-size : (n : Bytes) → some twelve ≡ some n → length n ≡ nonce_size
twelve-size n e = let h : twelve ≡ n = cc in rw (← h) refl

decrypt-encrypt_example :
    Restored toy [] (104 ∷ 105 ∷ []) (encrypt toy [] (some twelve) (104 ∷ 105 ∷ []))
decrypt-encrypt_example =
    decrypt-encrypt toy (λ key nonce text. refl) [] (some twelve) twelve-size (104 ∷ 105 ∷ [])

abbrev if_ok : Result CryptError Bytes → Option Text
if_ok (ok s) = some s
if_ok (err e) = none

abbrev sourcing : SourceEnv
sourcing = record {
  fresh = 4;
  now = 100;
  id_text = λ n. lit "4";
  json_valid = λ s. true;
  set_key = λ config key. some key;
  key_of = λ config. config;
  encrypt = λ s. if_ok (encrypt toy [] (some twelve) s);
  decrypt = λ s. if_ok (decrypt toy [] s);
  lookup = answered;
  create_ok = true;
  update_ok = true;
  record_ok = true;
  delete_ok = true;
  put_ok = true;
  cleanup_ok = true;
  enqueue_ok = true;
  sync_ok = true;
}

abbrev nothing_yet : Sources
nothing_yet = record { rows = λ k. none; objects = λ k. none; queued = [] }

abbrev handbook : SourceRow
handbook = record {
  id = 4;
  tenant_id = lit "acme";
  source_type = lit "file_upload";
  name = lit "Handbook";
  config = lit "{}";
  credentials = [];
  status = lit "inactive";
  last_sync_at = none;
  last_sync_status = none;
}

key-inside : escapes (file_key sourcing handbook) ≡ false
unfolding escapes text_eq
key-inside = refl

store_file-Filed_example :
    Filed sourcing
      (lit "acme")
      handbook
      (1 ∷ 2 ∷ [])
      nothing_yet
      (store_file sourcing (lit "acme") handbook (1 ∷ 2 ∷ []) nothing_yet)
store_file-Filed_example =
    store_file-Filed sourcing (lit "acme") handbook (1 ∷ 2 ∷ []) nothing_yet key-inside refl

abbrev crm : CreateSource
crm = record {
  tenant_id = lit "acme";
  source_type = lit "crm_hubspot";
  name = lit " Contacts ";
  config = none;
  credentials = lit "token";
  file = [];
}

-- The cipher of the sources, over the toy, opens what it has encrypted.
toy-opens :
    (x c : Text) → x ≢ [] → sourcing.encrypt x ≡ some c → (c ≢ []) × (sourcing.decrypt c ≡ some x)
unfolding encrypt
toy-opens [] c n e = absurd (n refl)
toy-opens (d ∷ ds) c n e =
    let same : twelve ++ (7 ∷ d ∷ ds) ≡ c = cc in
    let back : decrypt toy [] (twelve ++ (7 ∷ d ∷ ds)) ≡ ok (d ∷ ds) =
      decrypt-encrypt toy (λ key nonce text. refl) [] (some twelve) twelve-size (d ∷ ds) in
    rw (← same) ((λ h. absurd cc), rw back refl)

get_projection-create_source_example :
    ReadBack sourcing crm (create_source sourcing crm nothing_yet)
get_projection-create_source_example =
    get_projection-create_source sourcing toy-opens refl crm nothing_yet
