-- ===== src/Storage/Retained.antt =====
-- Versions under compliance retention: what must be kept, and why the operations keep it.
pub mod Buckets
pub mod Objects
pub mod Uploads
pub mod Locks
pub mod Kept
use strix.Base.{
  ℕ, ◌<◌, ◌≡◌, refl, sym, ap, ◌∙◌, ◌≢◌, ◌⊎◌, inl, inr, Bool, true, false, not, ◌&&◌, ◌||◌, List, [],
  ◌∷◌, ◌++◌, Option, none, some, Text, codes, arith, text_eq, text_eq_iff, text_eq_self, any, find,
  remove, keep, update, read, read-found, found-read, any-read, any-weaken, read-append,
  read-remove, read-update, read-update_other, if◌then◌else◌, ltb, Bool-cases, Result, ok, err,
  ok_or, reject_if, ◌>>=◌, ◌>>◌, >>=-eq-ok, reject_if-eq-ok, ok-injective,
}
use strix.Crypto.{Bytes, Ciphers}
use strix.Storage.Tables.{
  as_str, enabled, BucketRow, ObjectRow, LocalFsStore, StorageError, Instant, is_object, is_version,
  not_latest, set_latest, status_of, bucket_exists,
}
use strix.Storage.Buckets.{
  validate_bucket_name, create_bucket, delete_bucket, set_bucket_versioning,
}
use strix.Storage.Locks.{
  is_locked, object_delete_locked, ObjectRetention, found_modifiable, can_modify,
  put_object_retention, put_object_legal_hold,
}
use strix.Storage.Put.Inversion.{put_object_inv}
use strix.Storage.Put.{PutObjectOpts, PutObjectResponse, make_room, put_object}
use strix.Storage.Delete.{
  DeleteObjectResponse, promote, promote_newest, delete_version, add_marker, delete_all,
  delete_object_version,
}

-- The columns that retention protects.
abbrev pub protection : ObjectRow → Text × Option Text × Option Instant
protection r = (r.id, r.retention_mode, r.retain_until_date)

abbrev pub is_bucket : Text → BucketRow → Bool
is_bucket name b = text_eq b.name name

abbrev pub status : BucketRow → Text
status b = b.versioning_status

-- The query of the operations reads the same column.
pub status_of-read :
    (s : LocalFsStore) (b : Text) {t : Text}
    → read status (is_bucket b) s.buckets ≡ some t
    → status_of s b ≡ ok t
unfolding status_of
status_of-read s b h =
    let (r, found, e) = found-read status (is_bucket b) s.buckets h in
    rw (status_of, found) (ap ok e)

module _ (bucket key v : Text) (until : Instant) where
  -- The bucket is versioned, and the version is a row with the id under compliance retention.
  pub record IsRetained (id : Text) (s : LocalFsStore) : Type 0 where
    pub versioned : read status (is_bucket bucket) s.buckets ≡ some (codes "Enabled")
    pub row :
        read protection (is_version bucket key (some v)) s.objects
        ≡ some (id, some (codes "COMPLIANCE"), some until)

  module _ (id : Text) where
    abbrev pub Keeps : LocalFsStore → LocalFsStore → Type 0
    Keeps s s' = IsRetained id s → IsRetained id s'

    -- Rows of the object keep the version through the changes of `is_latest`.
    pub kept_update :
        (changed : ObjectRow → Bool) (f : ObjectRow → ObjectRow) (rows : List ObjectRow)
        → ((r : ObjectRow) → set_latest (f r) ≡ set_latest r)
        → read protection (is_version bucket key (some v)) (update changed f rows)
          ≡ read protection (is_version bucket key (some v)) rows
    kept_update changed f rows h =
        read-update protection (is_version bucket key (some v)) changed f rows
          (λ r. ap (λ q. is_version bucket key (some v) q) (h r)) (λ r. ap protection (h r))

    abbrev pub Same : Text → Text → Text → Type 0
    Same b k w = (bucket ≡ b) × (key ≡ k) × (v ≡ w)

    pub names_apart :
        (b k w : Text) → ¬ Same b k w → text_eq b bucket && text_eq k key && text_eq w v ≡ false
    names_apart b k w n = ground (
      arith,
      λ (e : b ≡ bucket) (f : k ≡ key) (g : w ≡ v). n (sym e, sym f, sym g),
      text_eq_iff b bucket,
      text_eq_iff k key,
      text_eq_iff w v,
    )

    -- Another version of the key, or a version of another key.
    pub apart :
        (b k w : Text) (q : ObjectRow)
        → text_eq b bucket && text_eq k key && text_eq w v ≡ false
        → is_version b k (some w) q ≡ true
        → is_version bucket key (some v) q ≡ false
    apart b k w q n t = ground (
      arith,
      text_eq_iff q.bucket b,
      text_eq_iff q.key k,
      text_eq_iff q.version_id w,
      text_eq_iff q.bucket bucket,
      text_eq_iff q.key key,
      text_eq_iff q.version_id v,
      text_eq_iff b bucket,
      text_eq_iff k key,
      text_eq_iff w v,
    )
