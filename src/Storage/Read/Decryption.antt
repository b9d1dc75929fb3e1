-- ===== src/Storage/Read/Decryption.antt =====
-- The content of an object's file, decrypted with the keys of its encryption.
use mathlib.Core.Option.{some-injective}
use strix.Base.{
  ◌≡◌, refl, sym, ap, ◌∙◌, inl, inr, Option, none, some, Text, codes, text_eq, text_eq_sound,
  length, Bool-cases, Result, ok, err, ok_or, ok_or-eq-ok, >>=-eq-ok, ok-injective,
}
use strix.Crypto.{
  Bytes, Ciphers, EncryptionError, nonce_size, encrypt_aes256_gcm, validate_sse_c_key,
}
use strix.Crypto.RoundTrip.{IsAead, decrypt-encrypt_aes256_gcm}
use strix.Storage.Tables.{LocalFsStore, StorageError, internal, invalid_argument}
use strix.Storage.Put.{
  ServerSideEncryption, aes256, sse_c, PutObjectOpts, map_err, customer_key, encrypt_body,
  derive_object_key,
}
use strix.Storage.Read.{
  GetObjectOpts, ObjectInfo, parse_encryption_info, client_version, or_default, decrypt_body,
}

-- A read of the latest version with a customer's key, if there is one, no range and no condition.
abbrev pub latest_opts : Option Text → Option Text → GetObjectOpts
latest_opts customer_key key_md5 = record {
  range = none;
  if_match = none;
  if_none_match = none;
  if_modified_since = none;
  if_unmodified_since = none;
  version_id = none;
  sse_customer_key = customer_key;
  sse_customer_key_md5 = key_md5;
}

-- With the customer's key of the put.
abbrev pub get_opts : PutObjectOpts → GetObjectOpts
get_opts opts = latest_opts opts.sse_customer_key opts.sse_customer_key_md5

-- The version in the context of the key is the row's.
pub version_again : (v : Text) → or_default (codes "null") (client_version v) ≡ v
unfolding or_default client_version
version_again v = elim (Bool-cases (text_eq v (codes "null"))) [
  | inl e ↦ rw e (sym (text_eq_sound v (codes "null") e))
  | inr n ↦ rw n refl
]

pub map_err-eq-ok :
    {A : Type 0} (e : StorageError) (r : Result EncryptionError A) {a : A}
    → map_err e r ≡ ok a
    → r ≡ ok a
map_err-eq-ok e (ok a) h = cc
map_err-eq-ok e (err x) h = cc

customer_key_inv :
    (c : Ciphers) (key md5 : Option Text) (k : Bytes) {o : Option Bytes}
    → customer_key c key md5 ≡ ok o
    → o ≡ some k
    → (b64 : Text) × (key ≡ some b64) × (validate_sse_c_key c b64 md5 ≡ ok k)
unfolding customer_key
customer_key_inv c none md5 k h e = cc
customer_key_inv c (some b64) md5 k h e =
    let (j, valid, e₁) = >>=-eq-ok (map_err invalid_argument (validate_sse_c_key c b64 md5)) _ h in
    (
      b64,
      refl,
      map_err-eq-ok invalid_argument _ valid ∙ ap ok (some-injective _ _ (ok-injective e₁ ∙ e)),
    )

module _ (c : Ciphers) (aead : IsAead c) where
  -- The body of an answer without a range is the file's content, decrypted.
  pub decrypted :
      (s : LocalFsStore) (bucket key v : Text) (nonce : Bytes) (opts : PutObjectOpts)
      (sse_c_key : Option Bytes) (plaintext content : Bytes) (algorithm key_md5 : Option Text)
      (info : ObjectInfo) (sse : Option ServerSideEncryption)
      → opts.server_side_encryption ≡ sse
      → length nonce ≡ nonce_size
      → customer_key c opts.sse_customer_key opts.sse_customer_key_md5 ≡ ok sse_c_key
      → encrypt_body c s bucket key v nonce opts sse_c_key plaintext
        ≡ ok (content, algorithm, key_md5)
      → info.version_id ≡ client_version v
      → info.encryption ≡ parse_encryption_info algorithm key_md5
      → decrypt_body c s bucket key info (get_opts opts) content ≡ ok plaintext
  unfolding encrypt_body decrypt_body parse_encryption_info text_eq
  decrypted s bucket key v nonce opts sse_c_key plaintext content algorithm key_md5 info none kind n
        k e iv ie =
      let e' = ok-injective (rw (encrypt_body, kind) at e) in
      let same : plaintext ≡ content = ap (λ t. t.0) e' in
      let alg : none ≡ algorithm = ap (λ t. t.1) e' in
      rw (decrypt_body, ie, ← alg) (unfold parse_encryption_info in ap ok (sym same))
  decrypted s bucket key v nonce opts sse_c_key plaintext content algorithm key_md5 info
        (some aes256) kind n k e iv ie =
      let e₀ = rw (encrypt_body, kind) at e in
      let (enc, h, e₁) =
        >>=-eq-ok
          (map_err internal
            (encrypt_aes256_gcm c nonce (derive_object_key c s bucket key v) plaintext))
          _ e₀ in
      let stored : enc ≡ content = ap (λ t. t.0) (ok-injective e₁) in
      let alg : some (codes "AES256") ≡ algorithm = ap (λ t. t.1) (ok-injective e₁) in
      rw
        (
          decrypt_body,
          ie,
          ← alg,
          parse_encryption_info,
          text_eq,
          iv,
          version_again v,
          ← stored,
          decrypt-encrypt_aes256_gcm c aead nonce (derive_object_key c s bucket key v) plaintext enc
              n (map_err-eq-ok internal _ h),
        )
        refl
  decrypted s bucket key v nonce opts sse_c_key plaintext content algorithm key_md5 info
        (some sse_c) kind n k e iv ie =
      let e₀ = rw (encrypt_body, kind) at e in
      let (sse_key, given, e₁) = >>=-eq-ok (ok_or sse_c_key invalid_argument) _ e₀ in
      let (enc, h, e₂) =
        >>=-eq-ok (map_err internal (encrypt_aes256_gcm c nonce sse_key plaintext)) _ e₁ in
      let stored : enc ≡ content = ap (λ t. t.0) (ok-injective e₂) in
      let alg : some (codes "SSE-C") ≡ algorithm = ap (λ t. t.1) (ok-injective e₂) in
      let (b64, customer, valid) =
        customer_key_inv c opts.sse_customer_key opts.sse_customer_key_md5 sse_key k
          (ok_or-eq-ok _ _ given) in
      rw
        (
          decrypt_body,
          ie,
          ← alg,
          parse_encryption_info,
          text_eq,
          customer,
          valid,
          ← stored,
          decrypt-encrypt_aes256_gcm c aead nonce sse_key plaintext enc n
              (map_err-eq-ok internal _ h),
        )
        refl
