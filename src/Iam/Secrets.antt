-- ===== src/Iam/Secrets.antt =====
-- Secrets as the database holds them: crates/strix-iam/src/secrets.rs, with `encryption_key`,
-- `encrypt_secret` and `decrypt_secret` of store.rs.
use strix.Base.{
  ◌≡◌, refl, ap, ◌≢◌, sym, ◌∙◌, Bool, false, [], ◌∷◌, ◌++◌, some, Text, codes, as_bytes, from_utf8,
  is_char, from_utf8-as_bytes, all, true, length, arith, Result, ok, err, ok_or, ◌>>=◌, >>=-eq-ok,
  ok-injective,
}
use strix.Crypto.{
  Bytes, Ciphers, EncryptionError, nonce_size, encrypt_aes256_gcm, decrypt_aes256_gcm,
}
use strix.Crypto.RoundTrip.{IsAead, decrypt-encrypt_aes256_gcm}
use strix.Iam.{IamError, encryption}

-- `str::is_empty`
abbrev pub is_empty : Text → Bool
is_empty [] = true
is_empty (_ ∷ _) = false

-- `map_err(|e| IamError::Encryption(…))`
abbrev encrypted {ℓ} : {A : Type ℓ} → Result EncryptionError A → Result IamError A
encrypted (ok a) = ok a
encrypted (err e) = err encryption

unfoldable pub derive_encryption_key : (Bytes → Bytes) → Text → Bytes
derive_encryption_key sha256 passphrase =
    sha256 (as_bytes (codes "strix-secret-encryption:" ++ passphrase))

module _ (c : Ciphers) where
  -- `nonce` is what `encrypt_aes256_gcm` draws.
  unfoldable pub encrypt_secret : Bytes → Text → Bytes → Result IamError Text
  encrypt_secret nonce secret encryption_key = do
    ciphertext ← encrypted (encrypt_aes256_gcm c nonce encryption_key (as_bytes secret))
    ok (c.base64_encode ciphertext)

  unfoldable pub decrypt_secret : Text → Bytes → Result IamError Text
  decrypt_secret stored encryption_key = do
    ciphertext ← ok_or (c.base64_decode stored) encryption
    plaintext ← encrypted (decrypt_aes256_gcm c encryption_key ciphertext)
    ok_or (from_utf8 plaintext) encryption

-- Base64 reads what it writes, and writes nothing for no bytes.
abbrev pub IsBase64 : Ciphers → Type 0
IsBase64 c =
    ((bytes : Bytes) → c.base64_decode (c.base64_encode bytes) ≡ some bytes)
    × (c.base64_encode [] ≡ [])

encrypted-eq-ok :
    {A : Type 0} (r : Result EncryptionError A) {a : A} → encrypted r ≡ ok a → r ≡ ok a
encrypted-eq-ok (ok b) h = cc
encrypted-eq-ok (err e) h = cc

module _ (c : Ciphers) (aead : IsAead c) (base64 : IsBase64 c) where
  pub decrypt-encrypt_secret :
      (nonce key : Bytes) (secret stored : Text)
      → length nonce ≡ nonce_size
      → all is_char secret ≡ true
      → encrypt_secret c nonce secret key ≡ ok stored
      → decrypt_secret c stored key ≡ ok secret
  unfolding encrypt_secret decrypt_secret
  decrypt-encrypt_secret nonce key secret stored n chars e =
      let (ciphertext, sealed, e₁) =
        >>=-eq-ok (encrypted (encrypt_aes256_gcm c nonce key (as_bytes secret))) _ e in
      rw
        (
          ← ok-injective e₁,
          base64.0 ciphertext,
          decrypt-encrypt_aes256_gcm c aead nonce key (as_bytes secret) ciphertext n
              (encrypted-eq-ok _ sealed),
          from_utf8-as_bytes secret chars,
        )
        refl

  -- The empty text is no stored secret.
  pub decrypt_secret-empty : (key : Bytes) (secret : Text) → decrypt_secret c [] key ≢ ok secret
  unfolding decrypt_secret decrypt_aes256_gcm
  decrypt_secret-empty key secret e =
      let empty : c.base64_decode [] ≡ some [] = ap c.base64_decode (sym base64.1) ∙ base64.0 [] in
      let opened : (encrypted (decrypt_aes256_gcm c key []) >>= λ plaintext.
      ok_or (from_utf8 plaintext) encryption)
          ≡ ok secret =
        rw (← e, empty) refl in
      let (_, read, _) = >>=-eq-ok (encrypted (decrypt_aes256_gcm c key [])) _ opened in
      ground arith

  -- What is stored is not empty.
  pub encrypt_secret-nonempty :
      (nonce key : Bytes) (secret stored : Text)
      → length nonce ≡ nonce_size
      → all is_char secret ≡ true
      → encrypt_secret c nonce secret key ≡ ok stored
      → is_empty stored ≡ false
  encrypt_secret-nonempty nonce key secret [] n chars e =
      absurd
        (decrypt_secret-empty key secret (decrypt-encrypt_secret nonce key secret [] n chars e))
  encrypt_secret-nonempty nonce key secret (x ∷ stored) n chars e = refl
