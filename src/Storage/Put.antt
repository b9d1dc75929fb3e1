-- ===== src/Storage/Put.antt =====
-- `put_object` of crates/strix-storage/src/localfs.rs.
pub mod Inversion
pub mod Replaced
use strix.Base.{
  ℕ, update, Bool, true, false, not, ◌&&◌, ◌||◌, List, [], ◌∷◌, ◌++◌, Option, none, some, Text,
  codes, as_bytes, text_eq, find, length, remove, keep, map, if◌then◌else◌, Result, ok, err, ok_or,
  reject_if, ◌>>=◌, ◌>>◌,
}
use strix.Crypto.{
  Bytes, Ciphers, EncryptionError, md5_hex, format_etag, derive_key, encrypt_aes256_gcm,
  validate_sse_c_key,
}
use strix.Storage.Tables.{
  StorageClass, standard, class_to_text, BucketRow, ObjectRow, Blob, LocalFsStore, StorageError,
  bucket_not_found, internal, invalid_argument, Instant, seconds, is_object, not_latest, status_of,
  write_blob, remove_blob,
}

pub data ServerSideEncryption : Type 0 where
  aes256 sse_c : ServerSideEncryption

pub record PutObjectOpts : Type 0 where
  pub content_type : Option Text
  pub content_encoding : Option Text
  pub content_disposition : Option Text
  pub cache_control : Option Text
  pub storage_class : Option StorageClass
  pub metadata : List (Text × Text)
  pub server_side_encryption : Option ServerSideEncryption
  pub sse_customer_key : Option Text
  pub sse_customer_key_md5 : Option Text

pub record PutObjectResponse : Type 0 where
  pub etag : Text
  pub version_id : Option Text

-- `map_err` of an operation of strix-crypto.
abbrev pub map_err {ℓ} :
    {A : Type ℓ} → StorageError → Result EncryptionError A → Result StorageError A
map_err e (ok a) = ok a
map_err e (err x) = err e

-- The chunks of the body, up to the first that fails.
unfoldable pub read_body : List (Result StorageError Bytes) → Result StorageError Bytes
read_body [] = ok []
read_body (ok chunk ∷ body) = read_body body >>= λ rest. ok (chunk ++ rest)
read_body (err e ∷ body) = err e

-- `unwrap_or_default`
abbrev pub class_or_default : Option StorageClass → StorageClass
class_or_default (some class) = class
class_or_default none = standard

-- The context of an object's key.
unfoldable pub object_context : Text → Text → Text → Text
object_context bucket key version_id =
    codes "object:" ++ bucket ++ codes ":" ++ key ++ codes ":" ++ version_id

-- The rows of the key before the new row goes in.
unfoldable pub make_room : Bool → Text → Text → List ObjectRow → List ObjectRow
make_room is_versioned bucket key rows =
    if is_versioned
    then update (is_object bucket key) not_latest rows
    else remove (is_object bucket key) rows

module _ (c : Ciphers) where
  unfoldable pub derive_object_key : LocalFsStore → Text → Text → Text → Bytes
  unfolding object_context as_bytes
  derive_object_key s bucket key version_id =
      derive_key c s.master_key (as_bytes (object_context bucket key version_id))

  -- The customer's key, if there is one, is checked before the body is read.
  unfoldable pub customer_key : Option Text → Option Text → Result StorageError (Option Bytes)
  customer_key none key_md5 = ok none
  customer_key (some key_b64) key_md5 =
      map_err invalid_argument (validate_sse_c_key c key_b64 key_md5) >>= λ k. ok (some k)

  -- The bytes of the file, with the columns for the algorithm and the MD5 of the key.
  unfoldable pub encrypt_body :
      LocalFsStore
      → Text
      → Text
      → Text
      → Bytes
      → PutObjectOpts
      → Option Bytes
      → Bytes
      → Result StorageError (Bytes × Option Text × Option Text)
  unfolding derive_object_key
  encrypt_body s bucket key version_id nonce opts sse_c_key plaintext =
      elim opts.server_side_encryption [
        | none ↦ ok (plaintext, none, none)
        | some aes256 ↦ do
          let object_key = derive_object_key s bucket key version_id
          encrypted ← map_err internal (encrypt_aes256_gcm c nonce object_key plaintext)
          ok (encrypted, some (codes "AES256"), none)
        | some sse_c ↦ do
          sse_key ← ok_or sse_c_key invalid_argument
          encrypted ← map_err internal (encrypt_aes256_gcm c nonce sse_key plaintext)
          ok (encrypted, some (codes "SSE-C"), opts.sse_customer_key_md5)
      ]

  abbrev pub new_row :
      Text
      → Text
      → Text
      → Text
      → Instant
      → Bytes
      → PutObjectOpts
      → Option Text
      → Option Text
      → ObjectRow
  new_row object_id version_id bucket key now body opts algorithm key_md5 = record {
    id = object_id;
    bucket = bucket;
    key = key;
    version_id = version_id;
    size = length body;
    etag = format_etag (md5_hex c body);
    content_type = opts.content_type;
    content_encoding = opts.content_encoding;
    content_disposition = opts.content_disposition;
    cache_control = opts.cache_control;
    storage_class = class_to_text (class_or_default opts.storage_class);
    user_metadata = some opts.metadata;
    is_multipart = false;
    part_count = none;
    is_latest = true;
    is_delete_marker = false;
    encryption_algorithm = algorithm;
    encryption_key_md5 = key_md5;
    encryption_nonce = none;
    retention_mode = none;
    retain_until_date = none;
    legal_hold = false;
    created_at = seconds now;
    last_modified = seconds now;
  }

  -- `object_id` is the new ULID and `nonce` what encryption draws.
  unfoldable pub put_object :
      LocalFsStore
      → (object_id : Text) → (nonce : Bytes) → Instant
      → Text
      → Text
      → List (Result StorageError Bytes)
      → PutObjectOpts
      → Result StorageError (LocalFsStore × PutObjectResponse)
  unfolding status_of read_body customer_key encrypt_body write_blob make_room
  put_object s object_id nonce now bucket key body opts = do
    versioning_status ← status_of s bucket
    let is_versioned = text_eq versioning_status (codes "Enabled")
    let version_id = if is_versioned then object_id else codes "null"
    sse_c_key ← customer_key opts.sse_customer_key opts.sse_customer_key_md5
    plaintext ← read_body body
    (content, algorithm, key_md5) ←
        encrypt_body s bucket key version_id nonce opts sse_c_key plaintext
    let row = new_row object_id version_id bucket key now plaintext opts algorithm key_md5
    ok (
      record s {
        objects = make_room is_versioned bucket key s.objects ++ row ∷ [];
        blobs = write_blob object_id content s.blobs;
      },
      record { etag = row.etag; version_id = if is_versioned then some version_id else none },
    )
