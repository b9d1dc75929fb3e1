-- ===== src/Storage/Multipart.antt =====
-- Multipart uploads of crates/strix-storage/src/localfs.rs.
pub mod Sent
pub mod Complete
pub mod Assembled
pub mod Torn
pub mod CustomerKeys
use strix.Base.{
  ℕ, zero, suc, ◌+◌, ◌-◌, ◌*◌, Bool, true, false, not, ◌&&◌, ◌||◌, List, [], ◌∷◌, ◌++◌, Option,
  none, some, Text, codes, text_eq, any, find, length, remove, map, ltb, leb, ◌==◌, is_empty,
  if◌then◌else◌, Result, ok, err, ok_or, reject_if, ◌>>=◌, ◌>>◌,
}
use strix.Crypto.{Bytes, Ciphers, md5_hex, format_etag, format_multipart_etag, encrypt_aes256_gcm}
use strix.Storage.Tables.{
  StorageClass, class_to_text, ObjectRow, UploadRow, PartRow, PartFile, LocalFsStore, StorageError,
  bucket_not_found, internal, invalid_argument, invalid_part_order, entity_too_small,
  missing_security_header, upload_not_found, invalid_part_number, no_such_part, Instant, seconds,
  bucket_exists, status_of, write_blob,
}
use strix.Storage.Put.{
  ServerSideEncryption, aes256, sse_c, PutObjectOpts, PutObjectResponse, map_err, class_or_default,
  derive_object_key, make_room,
}
use strix.Storage.Read.{etag_eq}

pub record MultipartUpload : Type 0 where
  pub upload_id : Text
  pub bucket : Text
  pub key : Text
  pub initiated : Instant

pub record PartInfo : Type 0 where
  pub part_number : ℕ
  pub etag : Text
  pub size : ℕ
  pub last_modified : Instant

pub record CompletePart : Type 0 where
  pub part_number : ℕ
  pub etag : Text

-- The columns for the algorithm and the MD5 of the key.
unfoldable pub encryption_settings : PutObjectOpts → Option Text × Option Text
encryption_settings opts = elim opts.server_side_encryption [
  | none ↦ (none, none)
  | some aes256 ↦ (some (codes "AES256"), none)
  | some sse_c ↦ (some (codes "SSE-C"), opts.sse_customer_key_md5)
]

abbrev pub new_upload : Text → Text → Text → Instant → PutObjectOpts → UploadRow
new_upload upload_id bucket key now opts = record {
  upload_id = upload_id;
  bucket = bucket;
  key = key;
  content_type = opts.content_type;
  content_encoding = opts.content_encoding;
  content_disposition = opts.content_disposition;
  cache_control = opts.cache_control;
  storage_class = class_to_text (class_or_default opts.storage_class);
  user_metadata = some opts.metadata;
  encryption_algorithm = (encryption_settings opts).0;
  encryption_key_md5 = (encryption_settings opts).1;
  initiated_at = seconds now;
}

-- `upload_id` is the new ULID.
unfoldable pub create_multipart_upload :
    LocalFsStore
    → (upload_id : Text) → Instant
    → Text
    → Text
    → PutObjectOpts
    → Result StorageError (LocalFsStore × MultipartUpload)
unfolding bucket_exists encryption_settings
create_multipart_upload s upload_id now bucket key opts = do
  reject_if (not (bucket_exists s bucket)) (bucket_not_found bucket)
  ok (
    record s { uploads = s.uploads ++ new_upload upload_id bucket key now opts ∷ [] },
    record { upload_id = upload_id; bucket = bucket; key = key; initiated = now },
  )

abbrev pub is_upload : Text → UploadRow → Bool
is_upload id u = text_eq u.upload_id id

-- `WHERE upload_id = ?1 AND part_number = ?2`
abbrev pub is_part : Text → ℕ → PartRow → Bool
is_part id n p = text_eq p.upload_id id && p.part_number == n

abbrev pub is_part_of_upload : Text → PartRow → Bool
is_part_of_upload id p = text_eq p.upload_id id

abbrev pub is_part_file : Text → ℕ → PartFile → Bool
is_part_file id n f = text_eq f.upload_id id && f.part_number == n

abbrev pub is_file_of_upload : Text → PartFile → Bool
is_file_of_upload id f = text_eq f.upload_id id

-- `open` with `truncate`, and then writes.
unfoldable pub write_part_file : Text → ℕ → Bytes → List PartFile → List PartFile
write_part_file id n content files =
    remove (is_part_file id n) files
    ++ record { upload_id = id; part_number = n; content = content } ∷ []

-- What the loop writes to the file, up to the first chunk that fails, and that chunk's error.
unfoldable pub write_chunks : List (Result StorageError Bytes) → Bytes × Option StorageError
write_chunks [] = ([], none)
write_chunks (ok chunk ∷ body) = let (rest, failure) = write_chunks body in (chunk ++ rest, failure)
write_chunks (err e ∷ body) = ([], some e)

module _ (c : Ciphers) where
  abbrev pub new_part : Text → ℕ → Text → Instant → Bytes → PartRow
  new_part id n blob_id now content = record {
    upload_id = id;
    part_number = n;
    blob_id = blob_id;
    size = length content;
    etag = format_etag (md5_hex c content);
    created_at = seconds now;
  }

  -- The row of a part whose body was received.
  unfoldable pub record_part :
      LocalFsStore → Text → ℕ → Text → Instant → Bytes → LocalFsStore × Result StorageError PartInfo
  record_part s id n blob_id now content =
      let row = new_part id n blob_id now content in
      (
        record s { parts = remove (is_part id n) s.parts ++ row ∷ [] },
        ok (record { part_number = n; etag = row.etag; size = row.size; last_modified = now }),
      )

  -- The file is written before the body ends, so a body that fails changes the store too.
  unfoldable pub store_part :
      LocalFsStore
      → Text
      → ℕ
      → Text
      → Instant
      → Bytes × Option StorageError
      → LocalFsStore × Result StorageError PartInfo
  unfolding record_part write_part_file
  store_part s id n blob_id now (content, failure) =
      let s₁ = record s { part_files = write_part_file id n content s.part_files } in
      elim failure [ some e ↦ (s₁, err e) | none ↦ record_part s₁ id n blob_id now content ]

  unfoldable pub upload_part :
      LocalFsStore
      → MultipartUpload
      → (blob_id : Text) → Instant
      → (part_number : ℕ) → List (Result StorageError Bytes)
      → LocalFsStore × Result StorageError PartInfo
  unfolding store_part write_chunks
  upload_part s upload blob_id now n body =
      if not (leb 1 n && leb n 10000)
      then (s, err (invalid_part_number n))
      else if not (any (is_upload upload.upload_id) s.uploads)
      then (s, err (upload_not_found upload.upload_id))
      else store_part s upload.upload_id n blob_id now (write_chunks body)

-- The numbers rise from `last`.
unfoldable pub check_part_order : ℕ → List CompletePart → Result StorageError (Unit {0})
check_part_order last [] = ok tt
check_part_order last (p ∷ parts) =
    reject_if (leb p.part_number last) invalid_part_order >> check_part_order p.part_number parts

abbrev pub min_part_size : ℕ
min_part_size = 5 * 1024 * 1024

-- Each part's row has the entity tag, and at least the least size unless it is the last.
unfoldable pub validate_parts :
    List PartRow → Text → List CompletePart → Result StorageError (Unit {0})
unfolding etag_eq
validate_parts rows id [] = ok tt
validate_parts rows id (p ∷ parts) = do
  stored ← ok_or (find (is_part id p.part_number) rows) (no_such_part 0)
  reject_if (not (etag_eq stored.etag p.etag)) invalid_argument
  reject_if (not (is_empty parts) && ltb stored.size min_part_size) entity_too_small
  validate_parts rows id parts

-- The files of the parts, one after the other.
unfoldable pub read_parts : List PartFile → Text → List CompletePart → Result StorageError Bytes
read_parts files id [] = ok []
read_parts files id (p ∷ parts) = do
  file ← ok_or (find (is_part_file id p.part_number) files) (no_such_part p.part_number)
  rest ← read_parts files id parts
  ok (file.content ++ rest)

-- The rows and the files of an upload go.
unfoldable pub discard_upload : Text → LocalFsStore → LocalFsStore
discard_upload id s = record s {
  uploads = remove (is_upload id) s.uploads;
  parts = remove (is_part_of_upload id) s.parts;
  part_files = remove (is_file_of_upload id) s.part_files;
}

module _ (c : Ciphers) where
  unfoldable pub encrypt_upload :
      LocalFsStore → UploadRow → Text → Bytes → Bytes → Result StorageError (Bytes × Option Text)
  unfolding derive_object_key text_eq
  encrypt_upload s u version_id nonce plaintext = elim u.encryption_algorithm [
    | none ↦ ok (plaintext, none)
    | some algorithm ↦
        if text_eq algorithm (codes "AES256")
        then (map_err internal (
              encrypt_aes256_gcm c nonce (derive_object_key c s u.bucket u.key version_id)
                plaintext)
            >>= λ encrypted. ok (encrypted, some (codes "AES256")))
        else if text_eq algorithm (codes "SSE-C")
        then err missing_security_header
        else ok (plaintext, none)
  ]

  abbrev pub completed_row :
      UploadRow → Text → Text → Instant → Bytes → Text → ℕ → Option Text → ObjectRow
  completed_row u object_id version_id now plaintext etag part_count algorithm = record {
    id = object_id;
    bucket = u.bucket;
    key = u.key;
    version_id = version_id;
    size = length plaintext;
    etag = etag;
    content_type = u.content_type;
    content_encoding = u.content_encoding;
    content_disposition = u.content_disposition;
    cache_control = u.cache_control;
    storage_class = u.storage_class;
    user_metadata = u.user_metadata;
    is_multipart = true;
    part_count = some part_count;
    is_latest = true;
    is_delete_marker = false;
    encryption_algorithm = algorithm;
    encryption_key_md5 = none;
    encryption_nonce = none;
    retention_mode = none;
    retain_until_date = none;
    legal_hold = false;
    created_at = seconds now;
    last_modified = seconds now;
  }

  -- `object_id` is the new ULID and `nonce` what encryption draws.
  unfoldable pub complete_multipart_upload :
      LocalFsStore
      → MultipartUpload
      → (object_id : Text) → (nonce : Bytes) → Instant
      → List CompletePart
      → Result StorageError (LocalFsStore × PutObjectResponse)
  unfolding status_of check_part_order validate_parts read_parts encrypt_upload make_room write_blob
      discard_upload
  complete_multipart_upload s upload object_id nonce now parts = do
    check_part_order 0 parts
    u ← ok_or (find (is_upload upload.upload_id) s.uploads) (upload_not_found upload.upload_id)
    versioning_status ← status_of s u.bucket
    let is_versioned = text_eq versioning_status (codes "Enabled")
    validate_parts s.parts upload.upload_id parts
    let version_id = if is_versioned then object_id else codes "null"
    plaintext ← read_parts s.part_files upload.upload_id parts
    let etag = format_multipart_etag c (map (λ (p : CompletePart). p.etag) parts)
    (content, algorithm) ← encrypt_upload s u version_id nonce plaintext
    let row = completed_row u object_id version_id now plaintext etag (length parts) algorithm
    ok (
      discard_upload upload.upload_id (record s {
        objects = make_room is_versioned u.bucket u.key s.objects ++ row ∷ [];
        blobs = write_blob object_id content s.blobs;
      }),
      record { etag = etag; version_id = if is_versioned then some version_id else none },
    )

unfoldable pub abort_multipart_upload :
    LocalFsStore → MultipartUpload → Result StorageError LocalFsStore
unfolding discard_upload
abort_multipart_upload s upload = do
  reject_if (not (any (is_upload upload.upload_id) s.uploads)) (upload_not_found upload.upload_id)
  ok (discard_upload upload.upload_id s)
