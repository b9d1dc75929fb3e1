-- ===== src/Storage/Multipart/Torn.antt =====
-- A part that is sent again and whose body fails.
use mathlib.Core.List.{append-nil}
use mathlib.Core.Option.{some-injective}
use strix.Base.{
  ℕ, ◌≡◌, refl, sym, ap, ◌∙◌, Bool, true, ◌&&◌, List, [], ◌∷◌, none, some, Text, codes, text_eq,
  arith, any, find, found-read, leb, length, if◌then◌else◌, Result, ok, err, ok-injective,
}
use strix.Crypto.{Bytes, Ciphers, nonce_size, format_multipart_etag}
use strix.Crypto.RoundTrip.{IsAead}
use strix.Storage.Tables.{UploadRow, PartFile, LocalFsStore, StorageError, Instant, status_of}
use strix.Storage.Put.{PutObjectResponse}
use strix.Storage.Read.{ObjectInfo, GetObjectOpts, get_object}
use strix.Storage.Read.Decryption.{latest_opts}
use strix.Storage.Multipart.{
  MultipartUpload, CompletePart, check_part_order, validate_parts, discard_upload, is_upload,
  is_part_file, write_part_file, write_chunks, store_part, upload_part, read_parts, encrypt_upload,
  complete_multipart_upload,
}
use strix.Storage.Multipart.Complete.{complete_multipart_upload_inv, stored}
use strix.Storage.Multipart.Sent.{content_of, written}
use strix.Storage.Multipart.Assembled.{get_completed}

-- The store after the failed body.
abbrev pub torn : LocalFsStore → Text → ℕ → Bytes → LocalFsStore
torn s id n content = record s { part_files = write_part_file id n content s.part_files }

upload_part-torn :
    (c : Ciphers) (s : LocalFsStore) (upload : MultipartUpload) (blob_id : Text) (now : Instant)
    (n : ℕ) (body : List (Result StorageError Bytes)) (content : Bytes) (e : StorageError)
    → leb 1 n && leb n 10000 ≡ true
    → any (is_upload upload.upload_id) s.uploads ≡ true
    → write_chunks body ≡ (content, some e)
    → upload_part c s upload blob_id now n body ≡ (torn s upload.upload_id n content, err e)
unfolding upload_part store_part
upload_part-torn c s upload blob_id now n body content e range known fails =
    let sent : (write_chunks body).0 ≡ content = ap (λ t. t.0) fails in
    let failure : (write_chunks body).1 ≡ some e = ap (λ t. t.1) fails in
    rw (upload_part, range, known, store_part, failure, sent) refl

any-found :
    {A : Type 0} (test : A → Bool) (xs : List A) (x : A)
    → find test xs ≡ some x
    → any test xs ≡ true
any-found test [] x h = cc
any-found test (y ∷ xs) x h = ground (arith, any-found test xs x)

read_torn :
    (id : Text) (n : ℕ) (content : Bytes) (files : List PartFile) (p : CompletePart)
    → p.part_number ≡ n
    → read_parts (write_part_file id n content files) id (p ∷ []) ≡ ok content
unfolding read_parts
read_torn id n content files p same =
    let (f, found, holds) =
      found-read content_of (is_part_file id n) (write_part_file id n content files)
        (written id n content files) in
    rw (read_parts, same, found, holds, append-nil) refl

first_is_positive :
    (p : CompletePart) → check_part_order 0 (p ∷ []) ≡ ok tt → leb 1 p.part_number ≡ true
unfolding check_part_order
first_is_positive p h = ground arith

status_of-torn :
    (s : LocalFsStore) (id : Text) (n : ℕ) (content : Bytes) (b : Text)
    → status_of (torn s id n content) b ≡ status_of s b
unfolding status_of
status_of-torn s id n content b = refl

encrypt_plain :
    (c : Ciphers) (s : LocalFsStore) (u : UploadRow) (v : Text) (nonce content : Bytes)
    → u.encryption_algorithm ≡ none
    → encrypt_upload c s u v nonce content ≡ ok (content, none)
unfolding encrypt_upload
encrypt_plain c s u v nonce content plain = rw (encrypt_upload, plain) refl

-- The completion of the other content, where the parts' rows are as they were.
complete_torn :
    (c : Ciphers) (s : LocalFsStore) (upload : MultipartUpload) (object_id : Text) (nonce : Bytes)
    (later : Instant) (p : CompletePart) (r : PutObjectResponse) (u : UploadRow) (content : Bytes)
    (status : Text)
    → find (is_upload upload.upload_id) s.uploads ≡ some u
    → u.encryption_algorithm ≡ none
    → check_part_order 0 (p ∷ []) ≡ ok tt
    → status_of s u.bucket ≡ ok status
    → validate_parts s.parts upload.upload_id (p ∷ []) ≡ ok tt
    → record {
      etag = format_multipart_etag c (p.etag ∷ []);
      version_id =
          if text_eq status (codes "Enabled")
          then some (if text_eq status (codes "Enabled") then object_id else codes "null")
          else none;
    }
      ≡ r
    → complete_multipart_upload c
        (torn s upload.upload_id p.part_number content)
        upload
        object_id
        nonce
        later
        (p ∷ [])
      ≡ ok (
        discard_upload upload.upload_id (
            stored c
              (torn s upload.upload_id p.part_number content)
              upload
              object_id
              nonce
              later
              (p ∷ [])
              u
              status
              content
              content
              none),
        r,
      )
unfolding complete_multipart_upload
complete_torn c s upload object_id nonce later p r u content status known plain ordered bucket valid
      answer =
    let t = torn s upload.upload_id p.part_number content in
    rw
      (
        complete_multipart_upload,
        ordered,
        known,
        status_of-torn s upload.upload_id p.part_number content u.bucket ∙ bucket,
        valid,
        read_torn upload.upload_id p.part_number content s.part_files p refl,
        encrypt_plain c t u (if text_eq status (codes "Enabled") then object_id else codes "null")
            nonce content plain,
        answer,
      )
      refl

answer_again :
    (c : Ciphers) (t : LocalFsStore) (u v : UploadRow) (o : GetObjectOpts) (info : ObjectInfo)
    (content held : Bytes)
    → u ≡ v
    → content ≡ held
    → get_object c t v.bucket v.key o ≡ ok (info, held)
    → get_object c t u.bucket u.key o ≡ ok (info, content)
answer_again c t u v o info content held same_row same_content h = rw (same_row, same_content) h

module _ (c : Ciphers) (aead : IsAead c) where
  -- Where a completion of one part, numbered at most 10000, of an upload without encryption
  -- would succeed, a new upload of the part whose body fails answers with the body's error, and
  -- the completion then still succeeds, with the same entity tag and version, though the object
  -- holds what came of the failed body. The nonce has 12 bytes, and AES-256-GCM opens what it
  -- sealed and makes it 16 bytes longer.
  pub complete_multipart_upload-torn :
      (s s' : LocalFsStore) (upload : MultipartUpload) (object_id blob_id : Text) (nonce : Bytes)
      (now later : Instant) (p : CompletePart) (r : PutObjectResponse) (u : UploadRow)
      (body : List (Result StorageError Bytes)) (content : Bytes) (e : StorageError)
      → length nonce ≡ nonce_size
      → find (is_upload upload.upload_id) s.uploads ≡ some u
      → u.encryption_algorithm ≡ none
      → leb p.part_number 10000 ≡ true
      → complete_multipart_upload c s upload object_id nonce later (p ∷ []) ≡ ok (s', r)
      → write_chunks body ≡ (content, some e)
      → (t t' : LocalFsStore) × (info : ObjectInfo) × (upload_part c s upload blob_id now
            p.part_number body
          ≡ (t, err e))
        × (complete_multipart_upload c t upload object_id nonce later (p ∷ []) ≡ ok (t', r))
        × (get_object c t' u.bucket u.key (latest_opts none none) ≡ ok (info, content))
  complete_multipart_upload-torn s s' upload object_id blob_id nonce now later p r u body content e
        n known plain small completed fails =
      let i = complete_multipart_upload_inv c s upload object_id nonce later (p ∷ []) completed in
      let t = torn s upload.upload_id p.part_number content in
      let same : u ≡ i.upload_row = some-injective _ _ (sym known ∙ i.found) in
      let t' =
        discard_upload upload.upload_id
          (stored c t upload object_id nonce later (p ∷ []) u i.status content content none) in
      let again =
        complete_torn c s upload object_id nonce later p r u content i.status known plain i.ordered
          (rw same i.bucket_found) i.valid i.answer in
      let (v, info, held, found, received, answer) =
        get_completed c aead t t' upload object_id nonce later (p ∷ []) r n again in
      let row_again : u ≡ v = some-injective _ _ (sym known ∙ found) in
      let held_again : content ≡ held =
        ok-injective
          (sym (read_torn upload.upload_id p.part_number content s.part_files p refl) ∙ received) in
      (
        t,
        t',
        info,
        upload_part-torn c s upload blob_id now p.part_number body content e
            (rw (first_is_positive p i.ordered, small) refl)
            (any-found (is_upload upload.upload_id) s.uploads u known) fails,
        again,
        answer_again c t' u v (latest_opts none none) info content held row_again held_again answer,
      )
