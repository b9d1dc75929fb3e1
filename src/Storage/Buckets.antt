-- ===== src/Storage/Buckets.antt =====
-- Buckets: `validate_bucket_name`, `create_bucket`, `delete_bucket` and versioning of
-- crates/strix-storage/src/localfs.rs.
use strix.Base.{
  ℕ, update, Bool, true, false, not, ◌&&◌, ◌||◌, [], ◌∷◌, ◌++◌, Option, none, some, Text, codes,
  text_eq, List, any, all, remove, ltb, leb, ◌==◌, if◌then◌else◌, byte_len, starts_with, ends_with,
  Result, ok, reject_if, ◌>>=◌, ◌>>◌,
}
use strix.Storage.Tables.{
  Instant, seconds, VersioningStatus, unversioned, enabled, suspended, as_str, from_db_str,
  BucketRow, ObjectRow, UploadRow, PartRow, LocalFsStore, StorageError, bucket_not_found,
  bucket_already_exists, bucket_not_empty, invalid_bucket_name, bucket_exists, status_of,
}

-- `is_ascii_lowercase`, `is_ascii_digit`, a hyphen or a period.
unfoldable pub is_name_char : ℕ → Bool
is_name_char c = (leb b'a' c && leb c b'z') || (leb b'0' c && leb c b'9') || c == b'-' || c == b'.'

-- The three checks give one error with different texts.
unfoldable pub validate_bucket_name : Text → Result StorageError (Unit {0})
unfolding is_name_char
validate_bucket_name name = do
  reject_if (ltb (byte_len name) 3 || ltb 63 (byte_len name)) (invalid_bucket_name name)
  reject_if (starts_with name (codes "-") || ends_with name (codes "-")) (invalid_bucket_name name)
  reject_if (not (all is_name_char name)) (invalid_bucket_name name)

unfoldable pub create_bucket :
    LocalFsStore
    → Instant
    → Text
    → (region tenant_slug : Option Text) → Result StorageError LocalFsStore
unfolding bucket_exists as_str
create_bucket s now bucket region tenant_slug = do
  validate_bucket_name bucket
  reject_if (bucket_exists s bucket) (bucket_already_exists bucket)
  ok (record s {
    buckets =
        s.buckets
        ++ record {
          name = bucket;
          region = region;
          tenant_slug = tenant_slug;
          versioning_status = as_str unversioned;
          object_lock_enabled = false;
          created_at = seconds now;
        }
          ∷ [];
  })

-- `ON DELETE CASCADE` of the tables `multipart_uploads` and `parts`.
abbrev pub is_upload_of : Text → UploadRow → Bool
is_upload_of bucket u = text_eq u.bucket bucket

abbrev pub is_part_of : Text → List UploadRow → PartRow → Bool
is_part_of bucket uploads p =
    any (λ (u : UploadRow). is_upload_of bucket u && text_eq u.upload_id p.upload_id) uploads

unfoldable pub delete_bucket : LocalFsStore → Text → Result StorageError LocalFsStore
unfolding bucket_exists
delete_bucket s bucket = do
  reject_if (not (bucket_exists s bucket)) (bucket_not_found bucket)
  reject_if (any (λ (r : ObjectRow). text_eq r.bucket bucket) s.objects) (bucket_not_empty bucket)
  ok (record s {
    buckets = remove (λ (b : BucketRow). text_eq b.name bucket) s.buckets;
    uploads = remove (is_upload_of bucket) s.uploads;
    parts = remove (is_part_of bucket s.uploads) s.parts;
  })

unfoldable pub set_bucket_versioning : LocalFsStore → Text → Bool → Result StorageError LocalFsStore
unfolding bucket_exists as_str
set_bucket_versioning s bucket on = do
  let status = if on then enabled else suspended
  reject_if (not (bucket_exists s bucket)) (bucket_not_found bucket)
  ok (record s {
    buckets =
        update (λ (b : BucketRow). text_eq b.name bucket)
          (λ (b : BucketRow). record b { versioning_status = as_str status }) s.buckets;
  })

-- The answer of S3: nothing where versioning was never set.
versioning_answer : VersioningStatus → Option Bool
versioning_answer unversioned = none
versioning_answer enabled = some true
versioning_answer suspended = some false

unfoldable pub get_bucket_versioning : LocalFsStore → Text → Result StorageError (Option Bool)
unfolding status_of from_db_str versioning_answer
get_bucket_versioning s bucket = do
  status ← status_of s bucket
  ok (versioning_answer (from_db_str status))
