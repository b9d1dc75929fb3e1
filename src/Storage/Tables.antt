-- ===== src/Storage/Tables.antt =====
-- The rows of the tables `buckets` and `objects` of crates/strix-storage/src/db.rs, the files that
-- hold the data of objects, and the errors of crates/strix-core/src/error.rs that they lead to.
use strix.Base.{
  ℕ, ◌*◌, ◌/◌, Bool, true, false, ◌&&◌, List, [], ◌∷◌, ◌++◌, Option, none, some, Text, codes,
  text_eq, any, find, remove, if◌then◌else◌, Result, ok, err,
}
use strix.Crypto.{Bytes}

pub data VersioningStatus : Type 0 where
  unversioned enabled suspended : VersioningStatus

unfoldable pub as_str : VersioningStatus → Text
as_str unversioned = codes "Unversioned"
as_str enabled = codes "Enabled"
as_str suspended = codes "Suspended"

unfoldable pub from_db_str : Text → VersioningStatus
from_db_str s =
    if text_eq s (codes "Enabled")
    then enabled
    else if text_eq s (codes "Suspended")
    then suspended
    else unversioned

pub data StorageClass : Type 0 where
  standard reduced_redundancy glacier deep_archive : StorageClass

unfoldable pub class_to_text : StorageClass → Text
class_to_text standard = codes "STANDARD"
class_to_text reduced_redundancy = codes "REDUCED_REDUNDANCY"
class_to_text glacier = codes "GLACIER"
class_to_text deep_archive = codes "DEEP_ARCHIVE"

unfoldable pub parse_storage_class : Text → StorageClass
parse_storage_class s =
    if text_eq s (codes "REDUCED_REDUNDANCY")
    then reduced_redundancy
    else if text_eq s (codes "GLACIER")
    then glacier
    else if text_eq s (codes "DEEP_ARCHIVE")
    then deep_archive
    else standard

pub record BucketRow : Type 0 where
  pub name : Text
  pub region : Option Text
  pub tenant_slug : Option Text
  pub versioning_status : Text
  pub object_lock_enabled : Bool
  pub created_at : ℕ

-- Instants are numbers of nanoseconds. A column that `datetime('now')` fills holds whole seconds.
abbrev pub Instant : Type 0
Instant = ℕ

abbrev pub seconds : Instant → ℕ
seconds now = now / 1000000000

-- `parse_datetime` of such a column.
abbrev pub of_seconds : ℕ → Instant
of_seconds s = s * 1000000000

-- `user_metadata` is the map that `serde_json` reads from the column.
pub record ObjectRow : Type 0 where
  pub id : Text
  pub bucket : Text
  pub key : Text
  pub version_id : Text
  pub size : ℕ
  pub etag : Text
  pub content_type : Option Text
  pub content_encoding : Option Text
  pub content_disposition : Option Text
  pub cache_control : Option Text
  pub storage_class : Text
  pub user_metadata : Option (List (Text × Text))
  pub is_multipart : Bool
  pub part_count : Option ℕ
  pub is_latest : Bool
  pub is_delete_marker : Bool
  pub encryption_algorithm : Option Text
  pub encryption_key_md5 : Option Text
  pub encryption_nonce : Option Text
  pub retention_mode : Option Text
  pub retain_until_date : Option Instant
  pub legal_hold : Bool
  pub created_at : ℕ
  pub last_modified : ℕ

-- The file at `blob_path` of an id.
pub record Blob : Type 0 where
  pub id : Text
  pub content : Bytes

-- The tables `multipart_uploads` and `parts`.
pub record UploadRow : Type 0 where
  pub upload_id : Text
  pub bucket : Text
  pub key : Text
  pub content_type : Option Text
  pub content_encoding : Option Text
  pub content_disposition : Option Text
  pub cache_control : Option Text
  pub storage_class : Text
  pub user_metadata : Option (List (Text × Text))
  pub encryption_algorithm : Option Text
  pub encryption_key_md5 : Option Text
  pub initiated_at : ℕ

pub record PartRow : Type 0 where
  pub upload_id : Text
  pub part_number : ℕ
  pub blob_id : Text
  pub size : ℕ
  pub etag : Text
  pub created_at : ℕ

-- The file at `part_path` of an upload and a number.
pub record PartFile : Type 0 where
  pub upload_id : Text
  pub part_number : ℕ
  pub content : Bytes

-- `LocalFsStore`: the database, the files and the server's key.
pub record LocalFsStore : Type 0 where
  pub master_key : Bytes
  pub buckets : List BucketRow
  pub objects : List ObjectRow
  pub blobs : List Blob
  pub uploads : List UploadRow
  pub parts : List PartRow
  pub part_files : List PartFile

-- `Error`. `internal` stands also for the errors of the database and of encryption.
pub data StorageError : Type 0 where
  bucket_not_found bucket_already_exists bucket_not_empty invalid_bucket_name : Text → StorageError
  object_not_found : Text → Text → StorageError
  access_denied precondition_failed not_modified object_locked internal : StorageError
  invalid_range invalid_argument invalid_part_order entity_too_small : StorageError
  missing_security_header : StorageError
  upload_not_found : Text → StorageError
  invalid_part_number no_such_part : ℕ → StorageError

-- `WHERE bucket = ?1 AND key = ?2`
abbrev pub is_object : Text → Text → ObjectRow → Bool
is_object bucket key r = text_eq r.bucket bucket && text_eq r.key key

-- `… AND version_id = ?3` where a version is named, `… AND is_latest = 1` where none is.
abbrev pub is_version : Text → Text → Option Text → ObjectRow → Bool
is_version bucket key (some v) r = is_object bucket key r && text_eq r.version_id v
is_version bucket key none r = is_object bucket key r && r.is_latest

abbrev pub not_latest : ObjectRow → ObjectRow
not_latest r = record r { is_latest = false }

abbrev pub set_latest : ObjectRow → ObjectRow
set_latest r = record r { is_latest = true }

-- `SELECT versioning_status FROM buckets WHERE name = ?1`
unfoldable pub status_of : LocalFsStore → Text → Result StorageError Text
status_of s bucket = elim (find (λ (b : BucketRow). text_eq b.name bucket) s.buckets) [
  | none ↦ err (bucket_not_found bucket)
  | some b ↦ ok b.versioning_status
]

unfoldable pub bucket_exists : LocalFsStore → Text → Bool
bucket_exists s bucket = any (λ (b : BucketRow). text_eq b.name bucket) s.buckets

-- `fs::rename` to the path of an id replaces the file that is there.
unfoldable pub write_blob : Text → Bytes → List Blob → List Blob
write_blob id content blobs =
    remove (λ (b : Blob). text_eq b.id id) blobs ++ record { id = id; content = content } ∷ []

unfoldable pub remove_blob : Text → List Blob → List Blob
remove_blob id blobs = remove (λ (b : Blob). text_eq b.id id) blobs

unfoldable pub read_blob : Text → List Blob → Option Bytes
read_blob id blobs = elim (find (λ (b : Blob). text_eq b.id id) blobs) [
  | none ↦ none
  | some b ↦ some b.content
]
