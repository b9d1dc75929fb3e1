-- ===== src/Storage/Latest/Reachable.antt =====
-- The operations that write objects, and the latest versions.
use strix.Base.{
  ℕ, ◌≡◌, refl, ap, Bool, not, List, [], ◌∷◌, ◌++◌, Option, none, Text, codes, arith, text_eq, any,
  find, Result, ok, ok_or, reject_if, >>=-eq-ok, ok-injective,
}
use strix.Crypto.{Bytes, Ciphers}
use strix.Storage.Tables.{
  ObjectRow, LocalFsStore, StorageError, Instant, is_version, read_blob, status_of, bucket_exists,
}
use strix.Storage.Put.{PutObjectOpts, PutObjectResponse, make_room, put_object}
use strix.Storage.Delete.{delete_object}
use strix.Storage.Multipart.{
  MultipartUpload, PartInfo, CompletePart, is_upload, create_multipart_upload, upload_part,
  store_part, record_part, complete_multipart_upload, abort_multipart_upload, discard_upload,
}
use strix.Storage.Multipart.Complete.{complete_multipart_upload_inv}
use strix.Storage.Copy.{CopyObjectOpts, CopyObjectResponse, copy_content, copy_object}
use strix.Storage.Listing.{head_object}
use strix.Storage.Latest.{
  IsLatestUnique, added, room_none, room_fewer, put_object-IsLatestUnique,
  delete_object-IsLatestUnique,
}

module _ (c : Ciphers) (newest : List ObjectRow → Option ObjectRow) where
  -- One operation: a write or a delete of an object that succeeds, or an upload's.
  pub data Step (s s' : LocalFsStore) : Type 0 where
    object_put :
        (id : Text) (nonce : Bytes) (now : Instant) (b k : Text)
        (body : List (Result StorageError Bytes)) (opts : PutObjectOpts) (r : PutObjectResponse)
        → put_object c s id nonce now b k body opts ≡ ok (s', r)
        → Step s s'
    object_deleted :
        (id : Text) (now : Instant) (b k : Text)
        → delete_object newest s id now b k ≡ ok s'
        → Step s s'
    object_copied :
        (id : Text) (nonce : Bytes) (now : Instant) (sb sk db dk : Text) (opts : CopyObjectOpts)
        (r : CopyObjectResponse)
        → copy_object c s id nonce now sb sk db dk opts ≡ ok (s', r)
        → Step s s'
    upload_created :
        (id : Text) (now : Instant) (b k : Text) (opts : PutObjectOpts) (upload : MultipartUpload)
        → create_multipart_upload s id now b k opts ≡ ok (s', upload)
        → Step s s'
    part_uploaded :
        (upload : MultipartUpload) (blob_id : Text) (now : Instant) (n : ℕ)
        (body : List (Result StorageError Bytes)) (answer : Result StorageError PartInfo)
        → upload_part c s upload blob_id now n body ≡ (s', answer)
        → Step s s'
    upload_completed :
        (upload : MultipartUpload) (id : Text) (nonce : Bytes) (now : Instant)
        (parts : List CompletePart) (r : PutObjectResponse)
        → complete_multipart_upload c s upload id nonce now parts ≡ ok (s', r)
        → Step s s'
    upload_aborted :
        (upload : MultipartUpload) → abort_multipart_upload s upload ≡ ok s' → Step s s'

  pub data Reach (s : LocalFsStore) : LocalFsStore → Type 0 where
    here : Reach s s
    next : {t u : LocalFsStore} → Reach s t → Step t u → Reach s u

  -- What leaves the objects alone.
  same_objects :
      (s s' : LocalFsStore) → s.objects ≡ s'.objects → IsLatestUnique s → IsLatestUnique s'
  same_objects s s' e h = λ b k. rw (← e) (h b k)

  -- A new latest row of a key.
  written :
      (s s' : LocalFsStore) (is_versioned : Bool) (b k : Text) (new : ObjectRow)
      → new.bucket ≡ b
      → new.key ≡ k
      → make_room is_versioned b k s.objects ++ new ∷ [] ≡ s'.objects
      → IsLatestUnique s
      → IsLatestUnique s'
  written s s' is_versioned b k new nb nk e h = λ b' k'. rw (← e) (
      added b k s.objects (make_room is_versioned b k s.objects) new nb nk
        (room_none is_versioned b k s.objects) (room_fewer is_versioned b k s.objects) h b' k')

  Step-IsLatestUnique : {s s' : LocalFsStore} → Step s s' → IsLatestUnique s → IsLatestUnique s'
  unfolding copy_object create_multipart_upload upload_part store_part record_part discard_upload
      abort_multipart_upload
  Step-IsLatestUnique {s} {s'} (object_put id nonce now b k body opts r e) h =
      put_object-IsLatestUnique c s s' id nonce now b k body opts r e h
  Step-IsLatestUnique {s} {s'} (object_deleted id now b k e) h =
      delete_object-IsLatestUnique newest s s' id now b k e h
  Step-IsLatestUnique {s} {s'} (object_copied id nonce now sb sk db dk opts r e) h =
      let (info, _, e₀) = >>=-eq-ok (head_object s sb sk) _ e in
      let (src, _, e₁) = >>=-eq-ok (ok_or (find (is_version sb sk none) s.objects) _) _ e₀ in
      let (status, found, e₂) = >>=-eq-ok (status_of s db) _ e₁ in
      let (read, _, e₃) = >>=-eq-ok (ok_or (read_blob src.id s.blobs) _) _ e₂ in
      let (content, _, e₄) =
        >>=-eq-ok (copy_content c s sb sk info src.encryption_algorithm db dk _ nonce read) _ e₃ in
      written s s' (text_eq status (codes "Enabled")) db dk _ refl refl
        (ap (λ (q : LocalFsStore × CopyObjectResponse). q.0.objects) (ok-injective e₄)) h
  Step-IsLatestUnique {s} {s'} (upload_created id now b k opts upload e) h =
      let (_, _, e₁) = >>=-eq-ok (reject_if (not (bucket_exists s b)) _) _ e in
      same_objects s s' (ap (λ (q : LocalFsStore × MultipartUpload). q.0.objects) (ok-injective e₁))
        h
  Step-IsLatestUnique {s} {s'} (part_uploaded upload blob_id now n body answer e) h =
      same_objects s s' (ground arith) h
  Step-IsLatestUnique {s} {s'} (upload_completed upload id nonce now parts r e) h =
      let p = complete_multipart_upload_inv c s upload id nonce now parts e in
      written s s' (text_eq p.status (codes "Enabled")) p.upload_row.bucket p.upload_row.key _ refl
        refl (ap (λ (t : LocalFsStore). t.objects) p.result) h
  Step-IsLatestUnique {s} {s'} (upload_aborted upload e) h =
      let (_, _, e₁) =
        >>=-eq-ok (reject_if (not (any (is_upload upload.upload_id) s.uploads)) _) _ e in
      same_objects s s' (ap (λ (t : LocalFsStore). t.objects) (ok-injective e₁)) h

  -- At most one row of every key stays the latest through every sequence of operations that
  -- succeed: puts, copies, deletes that name no version, and creating, completing and aborting
  -- multipart uploads; and uploads of parts, whether they succeed or not.
  pub Reach-IsLatestUnique :
      {s s' : LocalFsStore} → Reach s s' → IsLatestUnique s → IsLatestUnique s'
  Reach-IsLatestUnique here h = h
  Reach-IsLatestUnique (next r st) h = Step-IsLatestUnique st (Reach-IsLatestUnique r h)
