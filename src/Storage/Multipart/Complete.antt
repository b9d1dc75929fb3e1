-- ===== src/Storage/Multipart/Complete.antt =====
-- What a `complete_multipart_upload` that succeeds did.
use strix.Base.{
  ◌≡◌, ap, Bool, List, [], ◌∷◌, ◌++◌, Option, Text, codes, text_eq, find, length, map,
  if◌then◌else◌, ok, ok_or, >>=-eq-ok, ok_or-eq-ok, ok-injective, some, none,
}
use strix.Crypto.{Bytes, Ciphers, format_multipart_etag}
use strix.Storage.Tables.{ObjectRow, UploadRow, LocalFsStore, Instant, status_of, write_blob}
use strix.Storage.Put.{PutObjectResponse, make_room}
use strix.Storage.Multipart.{
  MultipartUpload, CompletePart, is_upload, check_part_order, validate_parts, read_parts,
  encrypt_upload, completed_row, discard_upload, complete_multipart_upload,
}

module _ (c : Ciphers) (s : LocalFsStore) (upload : MultipartUpload) (object_id : Text)
    (nonce : Bytes) (now : Instant) (parts : List CompletePart) where
  abbrev pub versioned : Text → Bool
  versioned status = text_eq status (codes "Enabled")

  abbrev pub version : Text → Text
  version status = if versioned status then object_id else codes "null"

  abbrev pub etags : List Text
  etags = map (λ (p : CompletePart). p.etag) parts

  abbrev pub row : UploadRow → Text → Bytes → Option Text → ObjectRow
  row u status plaintext algorithm =
      completed_row c u object_id (version status) now plaintext (format_multipart_etag c etags)
        (length parts) algorithm

  -- The store with the new object, before the upload is discarded.
  abbrev pub stored : UploadRow → Text → Bytes → Bytes → Option Text → LocalFsStore
  stored u status plaintext content algorithm = record s {
    objects =
        make_room (versioned status) u.bucket u.key s.objects
        ++ row u status plaintext algorithm ∷ [];
    blobs = write_blob object_id content s.blobs;
  }

  -- The values that a completion computes on the way, and its result.
  pub record Completion (s' : LocalFsStore) (r : PutObjectResponse) : Type 0 where
    pub upload_row : UploadRow
    pub status : Text
    pub plaintext : Bytes
    pub content : Bytes
    pub algorithm : Option Text
    pub ordered : check_part_order 0 parts ≡ ok tt
    pub found : find (is_upload upload.upload_id) s.uploads ≡ some upload_row
    pub bucket_found : status_of s upload_row.bucket ≡ ok status
    pub valid : validate_parts s.parts upload.upload_id parts ≡ ok tt
    pub received : read_parts s.part_files upload.upload_id parts ≡ ok plaintext
    pub encrypted :
        encrypt_upload c s upload_row (version status) nonce plaintext ≡ ok (content, algorithm)
    pub result :
        discard_upload upload.upload_id (stored upload_row status plaintext content algorithm) ≡ s'
    pub answer :
        record {
          etag = format_multipart_etag c etags;
          version_id = if versioned status then some (version status) else none;
        }
        ≡ r

  pub complete_multipart_upload_inv :
      {s' : LocalFsStore} {r : PutObjectResponse}
      → complete_multipart_upload c s upload object_id nonce now parts ≡ ok (s', r)
      → Completion s' r
  unfolding complete_multipart_upload
  complete_multipart_upload_inv e =
      let (u₀, ordered, e₀) = >>=-eq-ok (check_part_order 0 parts) _ e in
      let (u, found, e₁) = >>=-eq-ok (ok_or (find (is_upload upload.upload_id) s.uploads) _) _ e₀ in
      let (t, bucket_found, e₂) = >>=-eq-ok (status_of s u.bucket) _ e₁ in
      let (u₁, valid, e₃) = >>=-eq-ok (validate_parts s.parts upload.upload_id parts) _ e₂ in
      let (p, received, e₄) = >>=-eq-ok (read_parts s.part_files upload.upload_id parts) _ e₃ in
      let ((content, algorithm), encrypted, e₅) =
        >>=-eq-ok (encrypt_upload c s u (version t) nonce p) _ e₄ in
      record {
        upload_row = u;
        status = t;
        plaintext = p;
        content = content;
        algorithm = algorithm;
        ordered = ordered;
        found = ok_or-eq-ok _ _ found;
        bucket_found = bucket_found;
        valid = valid;
        received = received;
        encrypted = encrypted;
        result = ap (λ (q : LocalFsStore × PutObjectResponse). q.0) (ok-injective e₅);
        answer = ap (λ (q : LocalFsStore × PutObjectResponse). q.1) (ok-injective e₅);
      }
