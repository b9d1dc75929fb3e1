-- ===== src/Storage/Retained/Kept.antt =====
-- No operation removes a version under compliance retention.
use strix.Base.{ℕ, ◌<◌, ◌≡◌, ◌≢◌, ◌⊎◌, Bool, true, List, Option, some, Text, Result, ok}
use strix.Crypto.{Bytes, Ciphers}
use strix.Storage.Tables.{ObjectRow, LocalFsStore, StorageError, Instant}
use strix.Storage.Buckets.{create_bucket, delete_bucket, set_bucket_versioning}
use strix.Storage.Locks.{ObjectRetention, put_object_retention, put_object_legal_hold}
use strix.Storage.Put.{PutObjectOpts, PutObjectResponse, put_object}
use strix.Storage.Delete.{DeleteObjectResponse, delete_object_version}
use strix.Storage.Retained.Uploads
use strix.Storage.Multipart.{
  MultipartUpload, PartInfo, CompletePart, create_multipart_upload, upload_part,
  complete_multipart_upload, abort_multipart_upload,
}
use strix.Storage.Copy.{CopyObjectOpts, CopyObjectResponse, copy_object}
use strix.Chrono.{Chrono}
use strix.Storage.Cleanup.{CleanupConfig, cleanup_tick}

module _ (c : Ciphers) (newest : List ObjectRow → Option ObjectRow) (bucket key v : Text)
    (until : Instant) where
  -- One operation that succeeds before the date. Suspending the versioning of the bucket is left
  -- out, and so is a change of the retention of the key's latest version that does not name it.
  pub data Step (s s' : LocalFsStore) : Type 0 where
    bucket_created :
        (now : Instant) (b : Text) (region tenant : Option Text)
        → create_bucket s now b region tenant ≡ ok s'
        → Step s s'
    bucket_deleted : (b : Text) → delete_bucket s b ≡ ok s' → Step s s'
    versioning_set :
        (b : Text) (on : Bool)
        → (b ≢ bucket) ⊎ (on ≡ true)
        → set_bucket_versioning s b on ≡ ok s'
        → Step s s'
    object_put :
        (id : Text) (nonce : Bytes) (now : Instant) (b k : Text)
        (body : List (Result StorageError Bytes)) (opts : PutObjectOpts) (r : PutObjectResponse)
        → put_object c s id nonce now b k body opts ≡ ok (s', r)
        → Step s s'
    object_deleted :
        (id : Text) (now : Instant) (b k : Text) (version : Option Text) (r : DeleteObjectResponse)
        → now < until
        → delete_object_version newest s id now b k version ≡ ok (s', r)
        → Step s s'
    retention_put :
        (b k w : Text) (retention : ObjectRetention) (bypass : Bool)
        → put_object_retention s b k (some w) retention bypass ≡ ok s'
        → Step s s'
    legal_hold_put :
        (b k : Text) (version : Option Text) (hold : Bool)
        → put_object_legal_hold s b k version hold ≡ ok s'
        → Step s s'
    object_copied :
        (id : Text) (nonce : Bytes) (now : Instant) (sb sk db dk : Text) (opts : CopyObjectOpts)
        (r : CopyObjectResponse)
        → copy_object c s id nonce now sb sk db dk opts ≡ ok (s', r)
        → Step s s'
    upload_created :
        (id : Text) (now : Instant) (b k : Text) (opts : PutObjectOpts) (upload : MultipartUpload)
        → create_multipart_upload s id now b k opts ≡ ok (s', upload)
        → Step s s'
    part_uploaded :
        (upload : MultipartUpload) (blob_id : Text) (now : Instant) (n : ℕ)
        (body : List (Result StorageError Bytes)) (answer : Result StorageError PartInfo)
        → upload_part c s upload blob_id now n body ≡ (s', answer)
        → Step s s'
    upload_completed :
        (upload : MultipartUpload) (id : Text) (nonce : Bytes) (now : Instant)
        (parts : List CompletePart) (r : PutObjectResponse)
        → complete_multipart_upload c s upload id nonce now parts ≡ ok (s', r)
        → Step s s'
    upload_aborted :
        (upload : MultipartUpload) → abort_multipart_upload s upload ≡ ok s' → Step s s'
    cleaned :
        (chrono : Chrono) (config : CleanupConfig) (now : Instant)
        → config.enabled ≡ true
        → cleanup_tick chrono s config now ≡ some s'
        → Step s s'

  -- The stores that such operations lead to.
  pub data Reach (s : LocalFsStore) : LocalFsStore → Type 0 where
    here : Reach s s
    next : {t u : LocalFsStore} → Reach s t → Step t u → Reach s u
