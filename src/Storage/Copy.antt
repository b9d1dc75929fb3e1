-- ===== src/Storage/Copy.antt =====
-- `copy_object` of crates/strix-storage/src/localfs.rs.
pub mod Copied
use strix.Base.{
  ℕ, Bool, true, false, List, [], ◌∷◌, ◌++◌, Option, none, some, Text, codes, text_eq, find,
  if◌then◌else◌, Result, ok, err, ok_or, ◌>>=◌,
}
use strix.Crypto.{Bytes, Ciphers, encrypt_aes256_gcm, decrypt_aes256_gcm}
use strix.Storage.Tables.{
  class_to_text, ObjectRow, LocalFsStore, StorageError, internal, Instant, seconds, is_version,
  status_of, write_blob, read_blob,
}
use strix.Storage.Put.{map_err, make_room, derive_object_key}
use strix.Storage.Read.{ObjectInfo, or_default}
use strix.Storage.Listing.{head_object}

pub data MetadataDirective : Type 0 where
  copy replace : MetadataDirective

pub record CopyObjectOpts : Type 0 where
  pub metadata_directive : MetadataDirective
  pub metadata : List (Text × Text)

pub record CopyObjectResponse : Type 0 where
  pub etag : Text
  pub last_modified : Instant
  pub version_id : Option Text

abbrev pub copied_metadata : CopyObjectOpts → ObjectInfo → List (Text × Text)
copied_metadata opts info = elim opts.metadata_directive [
  | copy ↦ info.metadata
  | replace ↦ opts.metadata
]

abbrev pub copied_row :
    ObjectInfo → ObjectRow → Text → Text → Text → Text → Instant → CopyObjectOpts → ObjectRow
copied_row info src object_id version_id bucket key now opts = record {
  id = object_id;
  bucket = bucket;
  key = key;
  version_id = version_id;
  size = info.size;
  etag = info.etag;
  content_type = info.content_type;
  content_encoding = none;
  content_disposition = none;
  cache_control = none;
  storage_class = class_to_text info.storage_class;
  user_metadata = some (copied_metadata opts info);
  is_multipart = false;
  part_count = none;
  is_latest = true;
  is_delete_marker = false;
  encryption_algorithm = src.encryption_algorithm;
  encryption_key_md5 = src.encryption_key_md5;
  encryption_nonce = none;
  retention_mode = none;
  retain_until_date = none;
  legal_hold = false;
  created_at = seconds now;
  last_modified = seconds now;
}

module _ (c : Ciphers) where
  -- The bytes of the new file. What is encrypted with the server's key is encrypted anew, with the
  -- key of the new object; `read` is the content of the source's file.
  unfoldable pub copy_content :
      LocalFsStore
      → (src_bucket src_key : Text) → ObjectInfo
      → Option Text
      → (dst_bucket dst_key version_id : Text) → (nonce : Bytes) → Bytes
      → Result StorageError Bytes
  unfolding derive_object_key or_default text_eq
  copy_content s src_bucket src_key info none dst_bucket dst_key version_id nonce read = ok read
  copy_content s src_bucket src_key info (some algorithm) dst_bucket dst_key version_id nonce read =
      if text_eq algorithm (codes "AES256")
      then (map_err internal (
            decrypt_aes256_gcm c
              (derive_object_key c s src_bucket src_key (or_default (codes "null") info.version_id))
              read)
          >>= λ plaintext. map_err internal (
              encrypt_aes256_gcm c nonce (derive_object_key c s dst_bucket dst_key version_id)
                plaintext))
      else ok read

  -- `object_id` is the new ULID and `nonce` what encryption draws.
  unfoldable pub copy_object :
      LocalFsStore
      → (object_id : Text) → (nonce : Bytes) → Instant
      → (src_bucket src_key dst_bucket dst_key : Text) → CopyObjectOpts
      → Result StorageError (LocalFsStore × CopyObjectResponse)
  unfolding head_object status_of read_blob copy_content make_room write_blob
  copy_object s object_id nonce now src_bucket src_key dst_bucket dst_key opts = do
    info ← head_object s src_bucket src_key
    src ← ok_or (find (is_version src_bucket src_key none) s.objects) internal
    versioning_status ← status_of s dst_bucket
    let is_versioned = text_eq versioning_status (codes "Enabled")
    let version_id = if is_versioned then object_id else codes "null"
    read ← ok_or (read_blob src.id s.blobs) internal
    content ←
        copy_content s src_bucket src_key info src.encryption_algorithm dst_bucket dst_key
          version_id nonce read
    let row = copied_row info src object_id version_id dst_bucket dst_key now opts
    ok (
      record s {
        objects = make_room is_versioned dst_bucket dst_key s.objects ++ row ∷ [];
        blobs = write_blob object_id content s.blobs;
      },
      record {
        etag = info.etag;
        last_modified = now;
        version_id = if is_versioned then some version_id else none;
      },
    )
