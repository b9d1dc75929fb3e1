-- ===== src/Storage/Read.antt =====
-- `get_object` of crates/strix-storage/src/localfs.rs.
pub mod Decryption
pub mod RoundTrip
pub mod Ranges
pub mod Hidden
use strix.Base.{
  ℕ, ◌+◌, ◌-◌, Bool, true, false, not, ◌&&◌, ◌||◌, List, [], ◌∷◌, ◌++◌, Option, none, some, Text,
  codes, text_eq, find, length, take, drop, ltb, leb, ◌==◌, trim_matches, if◌then◌else◌, Result, ok,
  err, ok_or, reject_if, ◌>>=◌, ◌>>◌,
}
use strix.Crypto.{Bytes, Ciphers, decrypt_aes256_gcm, validate_sse_c_key}
use strix.Storage.Tables.{
  StorageClass, parse_storage_class, ObjectRow, LocalFsStore, StorageError, object_not_found,
  precondition_failed, not_modified, invalid_range, invalid_argument, internal, Instant, of_seconds,
  is_version, read_blob,
}
use strix.Storage.Put.{ServerSideEncryption, aes256, sse_c, map_err, derive_object_key}

pub record GetObjectOpts : Type 0 where
  pub range : Option (ℕ × Option ℕ)
  pub if_match : Option Text
  pub if_none_match : Option Text
  pub if_modified_since : Option Instant
  pub if_unmodified_since : Option Instant
  pub version_id : Option Text
  pub sse_customer_key : Option Text
  pub sse_customer_key_md5 : Option Text

pub record EncryptionInfo : Type 0 where
  pub algorithm : ServerSideEncryption
  pub sse_customer_key_md5 : Option Text

pub record ObjectInfo : Type 0 where
  pub key : Text
  pub size : ℕ
  pub etag : Text
  pub content_type : Option Text
  pub last_modified : Instant
  pub metadata : List (Text × Text)
  pub storage_class : StorageClass
  pub version_id : Option Text
  pub is_latest : Bool
  pub is_delete_marker : Bool
  pub encryption : Option EncryptionInfo

abbrev when {ℓ} : {A : Type ℓ} → Option A → (A → Bool) → Bool
when none test = false
when (some a) test = test a

-- Entity tags are compared without their quotes.
unfoldable pub etag_eq : Text → Text → Bool
etag_eq a b = text_eq (trim_matches b'"' a) (trim_matches b'"' b)

-- The four conditional headers, in the order of the code.
unfoldable pub check_conditions : ObjectRow → GetObjectOpts → Result StorageError (Unit {0})
unfolding etag_eq
check_conditions r opts = do
  reject_if (when opts.if_match (λ e. not (etag_eq r.etag e) && not (text_eq e (codes "*"))))
      precondition_failed
  reject_if (when opts.if_none_match (λ e. etag_eq r.etag e || text_eq e (codes "*"))) not_modified
  reject_if (when opts.if_modified_since (λ t. leb (of_seconds r.last_modified) t)) not_modified
  reject_if (when opts.if_unmodified_since (λ t. ltb t (of_seconds r.last_modified)))
      precondition_failed

unfoldable pub parse_encryption_info : Option Text → Option Text → Option EncryptionInfo
parse_encryption_info none key_md5 = none
parse_encryption_info (some algorithm) key_md5 = some (record {
  algorithm = if text_eq algorithm (codes "SSE-C") then sse_c else aes256;
  sse_customer_key_md5 = key_md5;
})

-- The version `null` is no version to clients.
unfoldable pub client_version : Text → Option Text
client_version v = if text_eq v (codes "null") then none else some v

unfoldable pub or_default {ℓ} : {A : Type ℓ} → A → Option A → A
or_default d none = d
or_default d (some a) = a

unfoldable pub object_info : ObjectRow → ObjectInfo
unfolding client_version parse_encryption_info or_default
object_info r = record {
  key = r.key;
  size = r.size;
  etag = r.etag;
  content_type = r.content_type;
  last_modified = of_seconds r.last_modified;
  metadata = or_default [] r.user_metadata;
  storage_class = parse_storage_class r.storage_class;
  version_id = client_version r.version_id;
  is_latest = r.is_latest;
  is_delete_marker = r.is_delete_marker;
  encryption = parse_encryption_info r.encryption_algorithm r.encryption_key_md5;
}

abbrev pub min : ℕ → ℕ → ℕ
min a b = if leb a b then a else b

-- The first byte and the number of bytes of a range of `total_size` bytes.
unfoldable pub resolve_range : ℕ → Option (ℕ × Option ℕ) → Result StorageError (ℕ × ℕ)
unfolding or_default
resolve_range total_size none = ok (0, total_size)
resolve_range total_size (some (req_start, req_end)) = do
  reject_if (total_size == 0) invalid_range
  reject_if (leb total_size req_start) invalid_range
  let end = or_default (total_size - 1) req_end
  reject_if (ltb end req_start) invalid_range
  ok (req_start, (min end (total_size - 1) - req_start) + 1)

-- `plaintext[start..start + length.min(total_size - start)]`
unfoldable pub slice : Bytes → ℕ × ℕ → Bytes
slice plaintext (start, n) = take (min n (length plaintext - start)) (drop start plaintext)

module _ (c : Ciphers) where
  -- The row's columns name the algorithm.
  unfoldable pub decrypt_body :
      LocalFsStore → Text → Text → ObjectInfo → GetObjectOpts → Bytes → Result StorageError Bytes
  unfolding derive_object_key or_default
  decrypt_body s bucket key info opts ciphertext = elim info.encryption [
    | none ↦ ok ciphertext
    | some enc ↦ elim enc.algorithm [
      | aes256 ↦ map_err internal (
          decrypt_aes256_gcm c
            (derive_object_key c s bucket key (or_default (codes "null") info.version_id))
            ciphertext)
      | sse_c ↦ do
        key_b64 ← ok_or opts.sse_customer_key invalid_argument
        sse_key ← map_err invalid_argument (validate_sse_c_key c key_b64 opts.sse_customer_key_md5)
        map_err internal (decrypt_aes256_gcm c sse_key ciphertext)
    ]
  ]

  -- The object's data are the body of the answer.
  unfoldable pub get_object :
      LocalFsStore → Text → Text → GetObjectOpts → Result StorageError (ObjectInfo × Bytes)
  unfolding check_conditions object_info read_blob decrypt_body resolve_range slice
  get_object s bucket key opts = do
    row ←
        ok_or (find (is_version bucket key opts.version_id) s.objects) (object_not_found bucket key)
    reject_if row.is_delete_marker (object_not_found bucket key)
    check_conditions row opts
    let info = object_info row
    ciphertext ← ok_or (read_blob row.id s.blobs) (object_not_found bucket key)
    plaintext ← decrypt_body s bucket key info opts ciphertext
    bounds ← resolve_range (length plaintext) opts.range
    ok (info, slice plaintext bounds)
