-- ===== src/Storage/Retained/Uploads.antt =====
-- Multipart uploads, copies and the cleanup keep the version.
use strix.Base.{
  ℕ, ◌≡◌, refl, sym, ap, ◌∙◌, true, not, List, [], ◌∷◌, ◌++◌, Option, none, some, Text, codes,
  arith, any, find, text_eq, text_eq_self, read-append, Result, ok, ok_or, reject_if, >>=-eq-ok,
  ok-injective,
}
use strix.Crypto.{Bytes, Ciphers}
use strix.Storage.Tables.{
  ObjectRow, LocalFsStore, StorageError, Instant, is_version, read_blob, status_of, bucket_exists,
}
use strix.Storage.Put.{PutObjectOpts, PutObjectResponse, make_room}
use strix.Storage.Multipart.{
  MultipartUpload, PartInfo, CompletePart, is_upload, create_multipart_upload, upload_part,
  store_part, record_part, complete_multipart_upload, abort_multipart_upload, discard_upload,
}
use strix.Storage.Multipart.Complete.{complete_multipart_upload_inv}
use strix.Chrono.{Chrono}
use strix.Storage.Cleanup.{CleanupConfig, cleanup_tick}
use strix.Storage.Cleanup.Cleaned.{cleanup_tick_inv}
use strix.Storage.Copy.{CopyObjectOpts, CopyObjectResponse, copy_content, copy_object}
use strix.Storage.Listing.{head_object}
use strix.Storage.Retained.{protection, Keeps}
use strix.Storage.Retained.Objects.{kept_room, status_here}

module _ (c : Ciphers) (newest : List ObjectRow → Option ObjectRow) (bucket key v : Text)
    (until : Instant) (id : Text) where
  -- What leaves the buckets and the objects alone.
  same-Keeps :
      (s s' : LocalFsStore)
      → s.buckets ≡ s'.buckets
      → s.objects ≡ s'.objects
      → Keeps bucket key v until id s s'
  same-Keeps s s' b o h = record { versioned = rw (← b) h.versioned; row = rw (← o) h.row }

  -- A new row for a key, in a bucket of a status that was read.
  written-Keeps :
      (s s' : LocalFsStore) (b k status : Text) (new : ObjectRow)
      → status_of s b ≡ ok status
      → s.buckets ≡ s'.buckets
      → make_room (text_eq status (codes "Enabled")) b k s.objects ++ new ∷ [] ≡ s'.objects
      → Keeps bucket key v until id s s'
  written-Keeps s s' b k status new found buckets objects h = record {
    versioned = rw (← buckets) h.versioned;
    row = rw (← objects) (
        read-append protection (is_version bucket key (some v))
          (make_room (text_eq status (codes "Enabled")) b k s.objects) _
          (kept_room c newest bucket key v until id (text_eq status (codes "Enabled")) b k s.objects
              (λ same.
                rw (status_here c newest bucket key v until id s b status h found same)
                  (text_eq_self (codes "Enabled")))
            ∙ h.row));
  }

  pub created-Keeps :
      (s s' : LocalFsStore) (i : Text) (now : Instant) (b k : Text) (opts : PutObjectOpts)
      (upload : MultipartUpload)
      → create_multipart_upload s i now b k opts ≡ ok (s', upload)
      → Keeps bucket key v until id s s'
  unfolding create_multipart_upload
  created-Keeps s s' i now b k opts upload e =
      let (_, _, e₁) = >>=-eq-ok (reject_if (not (bucket_exists s b)) _) _ e in
      let same = ok-injective e₁ in
      same-Keeps s s' (ap (λ (q : LocalFsStore × MultipartUpload). q.0.buckets) same)
        (ap (λ (q : LocalFsStore × MultipartUpload). q.0.objects) same)

  pub part-Keeps :
      (s s' : LocalFsStore) (upload : MultipartUpload) (blob_id : Text) (now : Instant) (n : ℕ)
      (body : List (Result StorageError Bytes)) (answer : Result StorageError PartInfo)
      → upload_part c s upload blob_id now n body ≡ (s', answer)
      → Keeps bucket key v until id s s'
  unfolding upload_part store_part record_part
  part-Keeps s s' upload blob_id now n body answer e = same-Keeps s s' (ground arith) (ground arith)

  pub completed-Keeps :
      (s s' : LocalFsStore) (upload : MultipartUpload) (i : Text) (nonce : Bytes) (now : Instant)
      (parts : List CompletePart) (r : PutObjectResponse)
      → complete_multipart_upload c s upload i nonce now parts ≡ ok (s', r)
      → Keeps bucket key v until id s s'
  unfolding discard_upload
  completed-Keeps s s' upload i nonce now parts r e =
      let p = complete_multipart_upload_inv c s upload i nonce now parts e in
      written-Keeps s s' p.upload_row.bucket p.upload_row.key p.status _ p.bucket_found
        (ap (λ (t : LocalFsStore). t.buckets) p.result)
        (ap (λ (t : LocalFsStore). t.objects) p.result)

  pub aborted-Keeps :
      (s s' : LocalFsStore) (upload : MultipartUpload)
      → abort_multipart_upload s upload ≡ ok s'
      → Keeps bucket key v until id s s'
  unfolding abort_multipart_upload discard_upload
  aborted-Keeps s s' upload e =
      let (_, _, e₁) =
        >>=-eq-ok (reject_if (not (any (is_upload upload.upload_id) s.uploads)) _) _ e in
      let same = ok-injective e₁ in
      same-Keeps s s' (ap (λ (t : LocalFsStore). t.buckets) same)
        (ap (λ (t : LocalFsStore). t.objects) same)

  pub copied-Keeps :
      (s s' : LocalFsStore) (i : Text) (nonce : Bytes) (now : Instant) (sb sk db dk : Text)
      (opts : CopyObjectOpts) (r : CopyObjectResponse)
      → copy_object c s i nonce now sb sk db dk opts ≡ ok (s', r)
      → Keeps bucket key v until id s s'
  unfolding copy_object
  copied-Keeps s s' i nonce now sb sk db dk opts r e =
      let (info, _, e₀) = >>=-eq-ok (head_object s sb sk) _ e in
      let (src, _, e₁) = >>=-eq-ok (ok_or (find (is_version sb sk none) s.objects) _) _ e₀ in
      let (status, found, e₂) = >>=-eq-ok (status_of s db) _ e₁ in
      let (read, _, e₃) = >>=-eq-ok (ok_or (read_blob src.id s.blobs) _) _ e₂ in
      let (content, _, e₄) =
        >>=-eq-ok (copy_content c s sb sk info src.encryption_algorithm db dk _ nonce read) _ e₃ in
      let same = ok-injective e₄ in
      written-Keeps s s' db dk status _ found
        (ap (λ (q : LocalFsStore × CopyObjectResponse). q.0.buckets) same)
        (ap (λ (q : LocalFsStore × CopyObjectResponse). q.0.objects) same)

  pub cleaned-Keeps :
      (s s' : LocalFsStore) (chrono : Chrono) (config : CleanupConfig) (now : Instant)
      → config.enabled ≡ true
      → cleanup_tick chrono s config now ≡ some s'
      → Keeps bucket key v until id s s'
  cleaned-Keeps s s' chrono config now on e =
      let (_, cleaned) = cleanup_tick_inv chrono s s' config now _ on refl e in
      let same = sym cleaned in
      same-Keeps s s' (ap (λ (t : LocalFsStore). t.buckets) same)
        (ap (λ (t : LocalFsStore). t.objects) same)
