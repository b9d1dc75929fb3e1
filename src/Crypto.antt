-- ===== src/Crypto.antt =====
-- crates/strix-crypto/src/lib.rs: ETags, and encryption of object data.
pub mod RoundTrip
use strix.Base.{
  ℕ, zero, suc, ◌+◌, ◌/◌, ◌%◌, trim_matches, Bool, true, false, not, ◌||◌, List, [], ◌∷◌, ◌++◌,
  Option, none, some, Text, codes, text_eq, take, drop, length, ltb, ◌==◌, if◌then◌else◌, Result,
  ok, err, ok_or, reject_if, ◌>>=◌, ◌>>◌,
}

abbrev pub Bytes : Type 0
Bytes = List ℕ

abbrev pub nonce_size : ℕ
nonce_size = 12

abbrev pub key_size : ℕ
key_size = 32

abbrev pub tag_size : ℕ
tag_size = 16

-- The functions of the crates md5, hmac, sha2, hex, base64 and aes-gcm. `seal` and `open` are
-- AES-256-GCM with a key, a nonce and data.
pub record Ciphers : Type 0 where
  pub md5 : Bytes → Bytes
  pub hmac_sha256 : Bytes → Bytes → Bytes
  pub hex_encode : Bytes → Text
  pub base64_encode : Bytes → Text
  pub base64_decode : Text → Option Bytes
  pub hex_decode : Text → Option Bytes
  pub seal : Bytes → Bytes → Bytes → Option Bytes
  pub unseal : Bytes → Bytes → Bytes → Option Bytes

pub data EncryptionError : Type 0 where
  invalid_key_size invalid_nonce_size encryption_failed decryption_failed : EncryptionError
  invalid_ciphertext : EncryptionError

-- The MD5 in quotes.
unfoldable pub format_etag : Text → Text
format_etag md5_hash = b'"' ∷ md5_hash ++ b'"' ∷ []

-- The decimal digits of a number, at most 20 for a `usize`.
decimal_digits : ℕ → ℕ → Text
decimal_digits zero n = []
decimal_digits (suc k) n =
    let rest = decimal_digits k (n / 10) in (if ltb n 10 then [] else rest) ++ (b'0' + n % 10) ∷ []

unfoldable pub decimal : ℕ → Text
unfolding decimal_digits
decimal n = decimal_digits 20 n

module _ (c : Ciphers) where
  unfoldable pub md5_hex : Bytes → Text
  md5_hex bytes = c.hex_encode (c.md5 bytes)

  unfoldable pub md5_base64 : Bytes → Text
  md5_base64 bytes = c.base64_encode (c.md5 bytes)

  -- The hashes of the parts, one after the other; one that is not hexadecimal is left out.
  unfoldable pub combined_md5s : List Text → Bytes
  unfolding trim_matches
  combined_md5s [] = []
  combined_md5s (etag ∷ part_etags) =
      elim (c.hex_decode (trim_matches b'"' etag)) [ none ↦ [] | some bytes ↦ bytes ]
      ++ combined_md5s part_etags

  -- The hash of the parts' hashes, and their number.
  unfoldable pub format_multipart_etag : List Text → Text
  unfolding combined_md5s md5_hex decimal
  format_multipart_etag part_etags =
      b'"' ∷ md5_hex (combined_md5s part_etags) ++ b'-' ∷ decimal (length part_etags) ++ b'"' ∷ []

  unfoldable pub derive_key : Bytes → Bytes → Bytes
  derive_key master_key context = c.hmac_sha256 master_key context

  -- `nonce` is what `generate_nonce` draws.
  unfoldable pub encrypt_aes256_gcm : Bytes → Bytes → Bytes → Result EncryptionError Bytes
  encrypt_aes256_gcm nonce key plaintext = do
    reject_if (not (length key == key_size)) invalid_key_size
    ciphertext ← ok_or (c.seal key nonce plaintext) encryption_failed
    ok (nonce ++ ciphertext)

  unfoldable pub encrypt_aes256_gcm_with_nonce :
      Bytes → Bytes → Bytes → Result EncryptionError Bytes
  encrypt_aes256_gcm_with_nonce key nonce plaintext = do
    reject_if (not (length key == key_size)) invalid_key_size
    reject_if (not (length nonce == nonce_size)) invalid_nonce_size
    ok_or (c.seal key nonce plaintext) encryption_failed

  unfoldable pub decrypt_aes256_gcm : Bytes → Bytes → Result EncryptionError Bytes
  decrypt_aes256_gcm key ciphertext = do
    reject_if (not (length key == key_size)) invalid_key_size
    reject_if (ltb (length ciphertext) (nonce_size + tag_size)) invalid_ciphertext
    ok_or (c.unseal key (take nonce_size ciphertext) (drop nonce_size ciphertext)) decryption_failed

  unfoldable pub decrypt_aes256_gcm_with_nonce :
      Bytes → Bytes → Bytes → Result EncryptionError Bytes
  decrypt_aes256_gcm_with_nonce key nonce ciphertext = do
    reject_if (not (length key == key_size)) invalid_key_size
    reject_if (not (length nonce == nonce_size)) invalid_nonce_size
    reject_if (ltb (length ciphertext) tag_size) invalid_ciphertext
    ok_or (c.unseal key nonce ciphertext) decryption_failed

  -- Does the customer's MD5 differ from the key's?
  md5_differs : Bytes → Option Text → Bool
  unfolding md5_base64
  md5_differs key none = false
  md5_differs key (some md5_b64) = not (text_eq md5_b64 (md5_base64 key))

  unfoldable pub validate_sse_c_key : Text → Option Text → Result EncryptionError Bytes
  unfolding md5_differs
  validate_sse_c_key key_base64 key_md5_base64 = do
    key ← ok_or (c.base64_decode key_base64) invalid_key_size
    reject_if (not (length key == key_size)) invalid_key_size
    reject_if (md5_differs key key_md5_base64) invalid_key_size
    ok key
