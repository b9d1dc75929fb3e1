-- ===== src/Storage/Multipart/Assembled.antt =====
-- What an upload leaves for readers.
use strix.Base.{
  ℕ, ◌≡◌, refl, sym, ap, inl, inr, List, Option, none, some, Text, codes, text_eq, text_eq_self,
  find, find-append_new, length, Bool-cases, ok, >>=-eq-ok, ok-injective,
}
use strix.Crypto.{Bytes, Ciphers, nonce_size, encrypt_aes256_gcm}
use strix.Crypto.RoundTrip.{IsAead, decrypt-encrypt_aes256_gcm}
use strix.Storage.Tables.{ObjectRow, UploadRow, LocalFsStore, internal, Instant, is_version}
use strix.Storage.Put.{PutObjectResponse, map_err, make_room, derive_object_key}
use strix.Storage.Read.{
  ObjectInfo, object_info, parse_encryption_info, client_version, decrypt_body, get_object,
}
use strix.Storage.Read.Decryption.{latest_opts, version_again, map_err-eq-ok}
use strix.Storage.Read.RoundTrip.{room_has_no_latest, read-write_blob, get_found}
use strix.Storage.Multipart.{
  MultipartUpload, CompletePart, is_upload, read_parts, encrypt_upload, discard_upload,
  complete_multipart_upload,
}
use strix.Storage.Multipart.Complete.{
  complete_multipart_upload_inv, row, stored, version, versioned,
}
use strix.Storage.Multipart.Sent.{file, assemble, Sends, read_parts-assemble}

module _ (c : Ciphers) (aead : IsAead c) where
  -- The content of the object's file, decrypted.
  decrypted_upload :
      (s : LocalFsStore) (u : UploadRow) (v : Text) (nonce plaintext content : Bytes)
      (algorithm : Option Text) (info : ObjectInfo) (named : Option Text)
      → u.encryption_algorithm ≡ named
      → length nonce ≡ nonce_size
      → encrypt_upload c s u v nonce plaintext ≡ ok (content, algorithm)
      → info.version_id ≡ client_version v
      → info.encryption ≡ parse_encryption_info algorithm none
      → decrypt_body c s u.bucket u.key info (latest_opts none none) content ≡ ok plaintext
  unfolding encrypt_upload decrypt_body parse_encryption_info text_eq
  decrypted_upload s u v nonce plaintext content algorithm info none kind n e iv ie =
      let e' = ok-injective (rw (encrypt_upload, kind) at e) in
      rw (decrypt_body, ie, ← ap (λ t. t.1) e')
        (unfold parse_encryption_info in ap ok (sym (ap (λ t. t.0) e')))
  decrypted_upload s u v nonce plaintext content algorithm info (some a) kind n e iv ie =
      elim (Bool-cases (text_eq a (codes "AES256"))) [
        | inl server ↦
            let e₀ = rw (encrypt_upload, kind, server) at e in
            let (enc, h, e₁) =
              >>=-eq-ok
                (map_err internal
                  (encrypt_aes256_gcm c nonce (derive_object_key c s u.bucket u.key v) plaintext))
                _ e₀ in
            rw
              (
                decrypt_body,
                ie,
                ← ap (λ t. t.1) (ok-injective e₁),
                parse_encryption_info,
                text_eq,
                iv,
                version_again v,
                ← ap (λ t. t.0) (ok-injective e₁),
                decrypt-encrypt_aes256_gcm c aead nonce (derive_object_key c s u.bucket u.key v)
                    plaintext enc n (map_err-eq-ok internal _ h),
              )
              refl
        | inr other ↦ elim (Bool-cases (text_eq a (codes "SSE-C"))) [
          | inl customer ↦ cc (rw (encrypt_upload, kind, other, customer) at e)
          | inr unknown ↦
              let e' = ok-injective (rw (encrypt_upload, kind, other, unknown) at e) in
              rw (decrypt_body, ie, ← ap (λ t. t.1) e')
                (unfold parse_encryption_info in ap ok (sym (ap (λ t. t.0) e')))
        ]
      ]

  -- The object that a completion makes is what the files of the parts held.
  pub get_completed :
      (s s' : LocalFsStore) (upload : MultipartUpload) (object_id : Text) (nonce : Bytes)
      (now : Instant) (parts : List CompletePart) (r : PutObjectResponse)
      → length nonce ≡ nonce_size
      → complete_multipart_upload c s upload object_id nonce now parts ≡ ok (s', r)
      → (u : UploadRow) × (info : ObjectInfo) × (content : Bytes) × (find
            (is_upload upload.upload_id)
            s.uploads
          ≡ some u)
        × (read_parts s.part_files upload.upload_id parts ≡ ok content)
        × (get_object c s' u.bucket u.key (latest_opts none none) ≡ ok (info, content))
  unfolding object_info derive_object_key discard_upload decrypt_body
  get_completed s s' upload object_id nonce now parts r n e =
      let p = complete_multipart_upload_inv c s upload object_id nonce now parts e in
      let u = p.upload_row in
      let new = row c s upload object_id nonce now parts u p.status p.plaintext p.algorithm in
      let room =
        make_room (versioned c s upload object_id nonce now parts p.status) u.bucket u.key
          s.objects in
      (
        u,
        object_info new,
        p.plaintext,
        p.found,
        p.received,
        rw (← p.result) (
            get_found c aead
              (discard_upload upload.upload_id (
                stored c s upload object_id nonce now parts u p.status p.plaintext p.content
                  p.algorithm))
              u.bucket u.key none none new p.content p.plaintext
              (find-append_new (λ (q : ObjectRow). q) (is_version u.bucket u.key none) room new
                (room_has_no_latest _ u.bucket u.key s.objects)
                (rw (text_eq_self u.bucket, text_eq_self u.key) refl))
              refl (read-write_blob object_id p.content s.blobs)
              (decrypted_upload s u (version c s upload object_id nonce now parts p.status) nonce
                p.plaintext p.content p.algorithm (object_info new) u.encryption_algorithm refl n
                p.encrypted refl refl)),
      )

  -- A multipart upload does what a put of its parts one after the other does: after uploads of
  -- parts that succeeded, among puts and any uploads of other uploads' parts, on a store that
  -- had no files of the upload, a completion that succeeds joins what was sent last under each
  -- number of its list, all of which were sent, and a read of the latest version of the key in
  -- the upload's row, without a range, conditions and a customer key, gives just that. The
  -- nonce has 12 bytes, and AES-256-GCM opens what it sealed and makes it 16 bytes longer.
  pub get-complete_multipart_upload :
      (start s s' : LocalFsStore) (log : List (ℕ × Bytes)) (upload : MultipartUpload)
      (object_id : Text) (nonce : Bytes) (now : Instant) (parts : List CompletePart)
      (r : PutObjectResponse)
      → length nonce ≡ nonce_size
      → ((n : ℕ) → file upload.upload_id n start ≡ none)
      → Sends c upload.upload_id start log s
      → complete_multipart_upload c s upload object_id nonce now parts ≡ ok (s', r)
      → (u : UploadRow) × (info : ObjectInfo) × (content : Bytes) × (find
            (is_upload upload.upload_id)
            s.uploads
          ≡ some u)
        × (assemble log parts ≡ some content)
        × (get_object c s' u.bucket u.key (latest_opts none none) ≡ ok (info, content))
  get-complete_multipart_upload start s s' log upload object_id nonce now parts r n fresh sends e =
      let (u, info, content, found, received, answer) =
        get_completed s s' upload object_id nonce now parts r n e in
      (u, info, content, found, read_parts-assemble c sends fresh parts received, answer)
