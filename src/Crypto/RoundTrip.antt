-- ===== src/Crypto/RoundTrip.antt =====
-- What is encrypted can be decrypted with the same key.
use strix.Base.{
  ℕ, zero, suc, ◌+◌, ◌≤◌, ok_or-eq-ok, ◌≡◌, refl, false, not, List, [], ◌∷◌, ◌++◌, some, take, drop,
  length, length-append, arith, ltb, ◌==◌, ok, ok_or, reject_if, >>=-eq-ok, ok-injective,
  reject_if-eq-ok,
}
use strix.Crypto.{
  Bytes, Ciphers, nonce_size, key_size, tag_size, encrypt_aes256_gcm, decrypt_aes256_gcm,
}

pub take-append : {A : Type 0} (n : ℕ) (xs ys : List A) → length xs ≡ n → take n (xs ++ ys) ≡ xs
take-append zero [] ys h = refl
take-append zero (x ∷ xs) ys h = absurd (omega arith)
take-append (suc n) [] ys h = absurd (omega arith)
take-append (suc n) (x ∷ xs) ys h = rw (take-append n xs ys (omega arith))

drop-append : {A : Type 0} (n : ℕ) (xs ys : List A) → length xs ≡ n → drop n (xs ++ ys) ≡ ys
drop-append zero [] ys h = refl
drop-append zero (x ∷ xs) ys h = absurd (omega arith)
drop-append (suc n) [] ys h = absurd (omega arith)
drop-append (suc n) (x ∷ xs) ys h = drop-append n xs ys (omega arith)

-- AES-256-GCM opens what it sealed, and its tag makes the data 16 bytes longer.
abbrev pub IsAead : Ciphers → Type 0
IsAead c =
    (key nonce plaintext sealed : Bytes)
    → c.seal key nonce plaintext ≡ some sealed
    → (c.unseal key nonce sealed ≡ some plaintext) × (length sealed ≡ length plaintext + tag_size)

long_enough : (n : ℕ) → 28 ≤ n → ltb n 28 ≡ false
long_enough n h = ground arith

module _ (c : Ciphers) (aead : IsAead c) where
  decrypt_sealed :
      (nonce key plaintext sealed : Bytes)
      → length nonce ≡ nonce_size
      → length key ≡ key_size
      → c.seal key nonce plaintext ≡ some sealed
      → decrypt_aes256_gcm c key (nonce ++ sealed) ≡ ok plaintext
  unfolding decrypt_aes256_gcm
  decrypt_sealed nonce key plaintext sealed n k s =
      let (opened, long) = aead key nonce plaintext sealed s in
      rw (
        take-append 12 nonce sealed n,
        drop-append 12 nonce sealed n,
        opened,
        k,
        long_enough (length (nonce ++ sealed)) (omega (arith, length-append nonce sealed)),
      )

  -- Decryption with the key of an encryption that succeeded gives the data back, for a nonce of
  -- 12 bytes, where AES-256-GCM opens what it sealed and makes it 16 bytes longer.
  pub decrypt-encrypt_aes256_gcm :
      (nonce key plaintext ciphertext : Bytes)
      → length nonce ≡ nonce_size
      → encrypt_aes256_gcm c nonce key plaintext ≡ ok ciphertext
      → decrypt_aes256_gcm c key ciphertext ≡ ok plaintext
  unfolding encrypt_aes256_gcm
  decrypt-encrypt_aes256_gcm nonce key plaintext ciphertext n e =
      let (u, sized, e₁) = >>=-eq-ok (reject_if (not (length key == key_size)) _) _ e in
      let (sealed, s, e₂) = >>=-eq-ok (ok_or (c.seal key nonce plaintext) _) _ e₁ in
      rw (← ok-injective e₂) (
        decrypt_sealed nonce key plaintext sealed n (ground (arith, reject_if-eq-ok _ _ sized))
          (ok_or-eq-ok _ _ s))
