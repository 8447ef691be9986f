-- ===== src/Sources/Crypto.antt =====
-- internal/sources/crypto.go. The cipher is an argument: `seal` and `open` under a key and a nonce.
pub mod RoundTrip
use agentic_demo.Prelude.{
  ℕ, Bool, Option, none, some, List, [], ◌∷◌, ◌++◌, take, drop, length, ltb, ◌==◌, not, Result, ok,
  err, if◌then◌else◌,
}

abbrev pub Bytes : Type 0
Bytes = List ℕ

pub record Aead : Type 0 where
  pub seal : Bytes → Bytes → Bytes → Bytes
  pub open_sealed : Bytes → Bytes → Bytes → Option Bytes

pub data CryptError : Type 0 where
  bad_key no_nonce too_short not_authentic : CryptError

-- `gcm.NonceSize()`.
abbrev pub nonce_size : ℕ
nonce_size = 12

-- `NewAESGCMService`: the key.
unfoldable pub new_aes_gcm : Bytes → Result CryptError Bytes
new_aes_gcm key = if not (length key == 32) then err bad_key else ok key

abbrev pub sealed : Aead → Bytes → Option Bytes → Bytes → Result CryptError Bytes
sealed c key none plaintext = err no_nonce
sealed c key (some n) plaintext = ok (n ++ c.seal key n plaintext)

-- `Encrypt`; `random` is what the random reader gives.
unfoldable pub encrypt : Aead → Bytes → Option Bytes → Bytes → Result CryptError Bytes
encrypt c key random [] = ok []
encrypt c key random (b ∷ bs) = sealed c key random (b ∷ bs)

abbrev pub authentic : Option Bytes → Result CryptError Bytes
authentic none = err not_authentic
authentic (some plaintext) = ok plaintext

-- `Decrypt`.
unfoldable pub decrypt : Aead → Bytes → Bytes → Result CryptError Bytes
decrypt c key [] = ok []
decrypt c key (b ∷ bs) =
    if ltb (length (b ∷ bs)) nonce_size
    then err too_short
    else authentic (c.open_sealed key (take nonce_size (b ∷ bs)) (drop nonce_size (b ∷ bs)))
