-- ===== src/Storage/Delete.antt =====
-- `delete_object_version` and `delete_object` of crates/strix-storage/src/localfs.rs.
use strix.Base.{
  update, Bool, true, false, ◌||◌, List, [], ◌∷◌, ◌++◌, Option, none, some, Text, codes, text_eq,
  find, remove, keep, if◌then◌else◌, Result, ok, reject_if, ◌>>=◌, ◌>>◌,
}
use strix.Storage.Tables.{
  ObjectRow, Blob, LocalFsStore, StorageError, object_locked, Instant, seconds, is_object,
  is_version, not_latest, set_latest, status_of, remove_blob,
}
use strix.Storage.Locks.{object_delete_locked}

pub record DeleteObjectResponse : Type 0 where
  pub delete_marker : Bool
  pub version_id : Option Text

-- The row of a delete marker.
abbrev pub marker_row : Text → Text → Text → Instant → ObjectRow
marker_row object_id bucket key now = record {
  id = object_id;
  bucket = bucket;
  key = key;
  version_id = object_id;
  size = 0;
  etag = [];
  content_type = none;
  content_encoding = none;
  content_disposition = none;
  cache_control = none;
  storage_class = codes "STANDARD";
  user_metadata = none;
  is_multipart = false;
  part_count = none;
  is_latest = true;
  is_delete_marker = true;
  encryption_algorithm = none;
  encryption_key_md5 = none;
  encryption_nonce = none;
  retention_mode = none;
  retain_until_date = none;
  legal_hold = false;
  created_at = seconds now;
  last_modified = seconds now;
}

-- The files of the rows that a delete removes.
unfoldable pub remove_blobs : List ObjectRow → List Blob → List Blob
unfolding remove_blob
remove_blobs [] blobs = blobs
remove_blobs (r ∷ rows) blobs = remove_blobs rows (remove_blob r.id blobs)

remove_found : Option ObjectRow → List Blob → List Blob
unfolding remove_blob
remove_found none blobs = blobs
remove_found (some r) blobs = remove_blob r.id blobs

-- `newest` is the row that `ORDER BY created_at DESC LIMIT 1` reads of some rows.
module _ (newest : List ObjectRow → Option ObjectRow) where
  unfoldable pub promote : Option ObjectRow → List ObjectRow → List ObjectRow
  promote none rows = rows
  promote (some n) rows = update (λ (r : ObjectRow). text_eq r.id n.id) set_latest rows

  -- After the delete of a version the newest of the others becomes the latest.
  unfoldable pub promote_newest : Text → Text → List ObjectRow → List ObjectRow
  unfolding promote
  promote_newest bucket key rows = promote (newest (keep (is_object bucket key) rows)) rows

  -- The delete of one version.
  unfoldable pub delete_version : LocalFsStore → Text → Text → Text → LocalFsStore
  unfolding promote_newest remove_found
  delete_version s bucket key v = record s {
    objects = promote_newest bucket key (remove (is_version bucket key (some v)) s.objects);
    blobs = remove_found (find (is_version bucket key (some v)) s.objects) s.blobs;
  }

  -- A delete marker hides the key.
  unfoldable pub add_marker : LocalFsStore → Text → Text → Text → Instant → LocalFsStore
  add_marker s marker_id bucket key now = record s {
    objects =
        update (is_version bucket key none) not_latest s.objects
        ++ marker_row marker_id bucket key now ∷ [];
  }

  -- The delete of all rows of a key.
  unfoldable pub delete_all : LocalFsStore → Text → Text → LocalFsStore
  unfolding remove_blobs
  delete_all s bucket key = record s {
    objects = remove (is_object bucket key) s.objects;
    blobs = remove_blobs (keep (is_object bucket key) s.objects) s.blobs;
  }

  -- `marker_id` is the new ULID.
  unfoldable pub delete_object_version :
      LocalFsStore
      → (marker_id : Text) → Instant
      → Text
      → Text
      → Option Text
      → Result StorageError (LocalFsStore × DeleteObjectResponse)
  unfolding status_of delete_version add_marker delete_all
  delete_object_version s marker_id now bucket key version_id = do
    versioning_status ← status_of s bucket
    let is_versioned =
        text_eq versioning_status (codes "Enabled") || text_eq versioning_status (codes "Suspended")
    reject_if (object_delete_locked s now bucket key version_id) object_locked
    elim version_id [
      | some v ↦
          ok (delete_version s bucket key v, record { delete_marker = false; version_id = some v })
      | none ↦
          if is_versioned
          then ok (
            add_marker s marker_id bucket key now,
            record { delete_marker = true; version_id = some marker_id },
          )
          else ok (delete_all s bucket key, record { delete_marker = false; version_id = none })
    ]

  unfoldable pub delete_object :
      LocalFsStore → (marker_id : Text) → Instant → Text → Text → Result StorageError LocalFsStore
  unfolding delete_object_version
  delete_object s marker_id now bucket key =
      delete_object_version s marker_id now bucket key none >>= λ r. ok r.0
