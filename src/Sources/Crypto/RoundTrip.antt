-- ===== src/Sources/Crypto/RoundTrip.antt =====
-- Credentials survive internal/sources/crypto.go.
use agentic_demo.Prelude.{
  false, ℕ, zero, suc, ◌≡◌, refl, ◌∙◌, Option, none, some, [], ◌∷◌, ◌++◌, take, drop, length,
  length-append, ltb, Result, ok, err, arith,
}
use agentic_demo.Sources.Crypto.{Bytes, Aead, CryptError, nonce_size, encrypt, authentic, decrypt}

take-prefix : (n : ℕ) (xs ys : Bytes) → length xs ≡ n → take n (xs ++ ys) ≡ xs
take-prefix zero [] ys h = refl
take-prefix zero (x ∷ xs) ys h = absurd (omega arith)
take-prefix (suc n) [] ys h = absurd (omega arith)
take-prefix (suc n) (x ∷ xs) ys h = rw (take-prefix n xs ys (omega arith))

drop-prefix : (n : ℕ) (xs ys : Bytes) → length xs ≡ n → drop n (xs ++ ys) ≡ ys
drop-prefix zero [] ys h = refl
drop-prefix zero (x ∷ xs) ys h = absurd (omega arith)
drop-prefix (suc n) [] ys h = absurd (omega arith)
drop-prefix (suc n) (x ∷ xs) ys h = drop-prefix n xs ys (omega arith)

-- What `decrypt` makes of a text of at least a nonce.
decrypt-long :
    (c : Aead) (key n s : Bytes)
    → length n ≡ nonce_size
    → decrypt c key (n ++ s) ≡ authentic (c.open_sealed key n s)
unfolding decrypt
decrypt-long c key [] s h = absurd (omega arith)
decrypt-long c key (b ∷ n) s h =
    let e : ltb (length ((b ∷ n) ++ s)) nonce_size ≡ false =
      let l = length-append (b ∷ n) s in ground arith in
    rw (e, take-prefix 11 n s (omega arith), drop-prefix 11 n s (omega arith))

-- What was encrypted is decrypted to the plaintext; encryption fails only without a nonce.
abbrev pub Restored : Aead → Bytes → Bytes → Result CryptError Bytes → Type 0
Restored c key plaintext (ok ciphertext) = decrypt c key ciphertext ≡ ok plaintext
Restored c key plaintext (err CryptError.no_nonce) = Unit
Restored c key plaintext (err e) = ⊥

-- Decryption gives back what was encrypted, also the empty text, and encryption fails only where the
-- random reader gives no nonce. The cipher opens what it has sealed under the same key and nonce,
-- and nonces have 12 bytes.
pub decrypt-encrypt :
    (c : Aead)
    → ((key nonce plaintext : Bytes)
        → c.open_sealed key nonce (c.seal key nonce plaintext) ≡ some plaintext)
    → (key : Bytes) (random : Option Bytes)
    → ((n : Bytes) → random ≡ some n → length n ≡ nonce_size)
    → (plaintext : Bytes) → Restored c key plaintext (encrypt c key random plaintext)
unfolding encrypt decrypt
decrypt-encrypt c opens key random size [] = refl
decrypt-encrypt c opens key none size (b ∷ bs) = tt
decrypt-encrypt c opens key (some n) size (b ∷ bs) =
    decrypt-long c key n (c.seal key n (b ∷ bs)) (size n refl) ∙ rw (opens key n (b ∷ bs))
