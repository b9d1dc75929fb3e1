-- ===== src/Storage/Multipart/CustomerKeys.antt =====
-- Uploads that are to be encrypted with the customer's key.
use mathlib.Core.Option.{some-injective}
use strix.Base.{
  ◌≡◌, ◌≢◌, refl, sym, ap, ◌∙◌, ℕ, false, not, List, [], ◌∷◌, ◌++◌, some, Text, codes, text_eq,
  text_eq_self, arith, any, find, find-append_new, Result, ok, err, reject_if, >>=-eq-ok,
  ok-injective,
}
use strix.Crypto.{Bytes, Ciphers}
use strix.Storage.Tables.{
  UploadRow, LocalFsStore, StorageError, missing_security_header, Instant, bucket_exists,
}
use strix.Storage.Put.{sse_c, PutObjectOpts, PutObjectResponse}
use strix.Storage.Put.Inversion.{put_object_inv}
use strix.Storage.Multipart.{
  MultipartUpload, PartInfo, CompletePart, encryption_settings, new_upload, create_multipart_upload,
  is_upload, upload_part, store_part, record_part, encrypt_upload, complete_multipart_upload,
}
use strix.Storage.Multipart.Complete.{complete_multipart_upload_inv, version}
use strix.Storage.Multipart.Sent.{Sends, start, sent, other_part, object_put}

upload_part-uploads :
    (c : Ciphers) (s s' : LocalFsStore) (upload : MultipartUpload) (blob_id : Text) (now : Instant)
    (n : ℕ) (body : List (Result StorageError Bytes)) (answer : Result StorageError PartInfo)
    → upload_part c s upload blob_id now n body ≡ (s', answer)
    → s'.uploads ≡ s.uploads
unfolding upload_part store_part record_part
upload_part-uploads c s s' upload blob_id now n body answer e = ground arith

-- Parts and puts leave the rows of uploads.
Sends-uploads :
    {c : Ciphers} {id : Text} {s t : LocalFsStore} {log : List (ℕ × Bytes)}
    → Sends c id s log t
    → t.uploads ≡ s.uploads
Sends-uploads start = refl
Sends-uploads {c} (sent {t} {t'} before upload blob_id now n body info same e) =
    upload_part-uploads c t t' upload blob_id now n body (ok info) e ∙ Sends-uploads before
Sends-uploads {c} (other_part {t} {t'} before upload blob_id now n body answer other e) =
    upload_part-uploads c t t' upload blob_id now n body answer e ∙ Sends-uploads before
Sends-uploads {c} (object_put {t} {t'} before object_id nonce now bucket key body opts r e) =
    let p = put_object_inv c t object_id nonce now bucket key body opts e in
    sym (ap (λ (q : LocalFsStore). q.uploads) p.result) ∙ Sends-uploads before

encrypt_upload-sse_c :
    (c : Ciphers) (s : LocalFsStore) (u : UploadRow) (v : Text) (nonce plaintext : Bytes)
    → u.encryption_algorithm ≡ some (codes "SSE-C")
    → encrypt_upload c s u v nonce plaintext ≡ err missing_security_header
unfolding encrypt_upload text_eq
encrypt_upload-sse_c c s u v nonce plaintext h = rw (encrypt_upload, h) refl

settings_sse_c :
    (opts : PutObjectOpts)
    → opts.server_side_encryption ≡ some sse_c
    → (encryption_settings opts).0 ≡ some (codes "SSE-C")
unfolding encryption_settings
settings_sse_c opts h = rw (encryption_settings, h) refl

-- An upload with a new id that is created for encryption with the customer's key can never be
-- completed, whatever parts are uploaded, whatever is put meanwhile, and whichever parts the
-- completion lists.
pub complete_multipart_upload-sse_c :
    (c : Ciphers) (s s₁ t s' : LocalFsStore) (upload_id : Text) (upload : MultipartUpload)
    (bucket key : Text) (opts : PutObjectOpts) (log : List (ℕ × Bytes)) (object_id : Text)
    (nonce : Bytes) (now later : Instant) (parts : List CompletePart) (r : PutObjectResponse)
    → any (is_upload upload_id) s.uploads ≡ false
    → opts.server_side_encryption ≡ some sse_c
    → create_multipart_upload s upload_id now bucket key opts ≡ ok (s₁, upload)
    → Sends c upload_id s₁ log t
    → complete_multipart_upload c t upload object_id nonce later parts ≢ ok (s', r)
unfolding create_multipart_upload
complete_multipart_upload-sse_c c s s₁ t s' upload_id upload bucket key opts log object_id nonce now
      later parts r fresh kind create sends completed =
    let (u₀, exists, e) = >>=-eq-ok (reject_if (not (bucket_exists s bucket)) _) _ create in
    let i = complete_multipart_upload_inv c t upload object_id nonce later parts completed in
    let row = new_upload upload_id bucket key now opts in
    let id : upload_id ≡ upload.upload_id =
      ap (λ (q : LocalFsStore × MultipartUpload). q.1.upload_id) (ok-injective e) in
    let rows : s.uploads ++ row ∷ [] ≡ t.uploads =
      ap (λ (q : LocalFsStore × MultipartUpload). q.0.uploads) (ok-injective e)
      ∙ sym (Sends-uploads sends) in
    let found : find (is_upload upload.upload_id) t.uploads ≡ some row =
      rw (← rows, ← id)
        (find-append_new (λ (u : UploadRow). u) (is_upload upload_id) s.uploads row fresh
          (text_eq_self upload_id)) in
    let same : row ≡ i.upload_row = some-injective _ _ (sym found ∙ i.found) in
    let refused =
      encrypt_upload-sse_c c t i.upload_row
        (version c t upload object_id nonce later parts i.status) nonce i.plaintext
        (rw (← same) (settings_sse_c opts kind)) in
    cc (sym refused ∙ i.encrypted)
