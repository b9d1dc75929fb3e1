-- ===== src/Examples/Uploads.antt =====
-- A multipart upload of the photo, whose only part is sent twice.
use strix.Base.{
  ◌≡◌, ◌≢◌, refl, List, [], ◌∷◌, ◌++◌, none, some, Text, codes, text_eq, trim_matches, length,
  replicate, find, Result, ok, err,
}
use strix.Crypto.{
  Bytes, format_etag, format_multipart_etag, md5_hex, encrypt_aes256_gcm, derive_key,
}
use strix.Storage.Tables.{UploadRow, LocalFsStore, StorageError, internal, not_latest}
use strix.Storage.Put.{PutObjectOpts, PutObjectResponse, aes256}
use strix.Storage.Read.{ObjectInfo, get_object}
use strix.Storage.Read.Decryption.{latest_opts}
use strix.Storage.Multipart.{
  MultipartUpload, PartInfo, CompletePart, encryption_settings, new_upload, new_part, is_upload,
  create_multipart_upload, write_chunks, upload_part, completed_row, complete_multipart_upload,
}
use strix.Storage.Multipart.Sent
use strix.Storage.Multipart.Sent.{Sends, assemble}
use strix.Storage.Multipart.Assembled.{get-complete_multipart_upload}
use strix.Storage.Multipart.Torn.{complete_multipart_upload-torn}
use strix.Storage.Multipart.CustomerKeys.{complete_multipart_upload-sse_c}
use strix.Examples.Objects.{ciphers, ciphers-IsAead, nonce, photos, cat, opts, old_row, store}

abbrev pub upload_opts : PutObjectOpts
upload_opts = record opts { server_side_encryption = some aes256; sse_customer_key = none }

abbrev pub u1 : Text
u1 = codes "u1"

abbrev upload : MultipartUpload
upload = record { upload_id = u1; bucket = photos; key = cat; initiated = 1000 }

abbrev pub upload_row : UploadRow
upload_row = new_upload u1 photos cat 1000 upload_opts

abbrev created : LocalFsStore
created = record store { uploads = upload_row ∷ [] }

abbrev with_part : LocalFsStore → Bytes → Text → LocalFsStore
with_part s content blob_id = record s {
  parts = new_part ciphers u1 1 blob_id 2000 content ∷ [];
  part_files = record { upload_id = u1; part_number = 1; content = content } ∷ [];
}

abbrev info_of : Bytes → PartInfo
info_of content = record {
  part_number = 1;
  etag = format_etag (md5_hex ciphers content);
  size = length content;
  last_modified = 2000;
}

abbrev sent_once : LocalFsStore
sent_once = with_part created (codes "hello") (codes "b1")

abbrev sent_twice : LocalFsStore
sent_twice = with_part created (codes "world") (codes "b2")

first_part :
    upload_part ciphers created upload (codes "b1") 2000 1 (ok (codes "hello") ∷ [])
    ≡ (sent_once, ok (info_of (codes "hello")))
unfolding upload_part text_eq
first_part = refl

second_part :
    upload_part ciphers sent_once upload
      (codes "b2")
      2000
      1
      (ok (codes "wor") ∷ ok (codes "ld") ∷ [])
    ≡ (sent_twice, ok (info_of (codes "world")))
unfolding upload_part text_eq
second_part = refl

sends : Sends ciphers u1 created ((1, codes "world") ∷ (1, codes "hello") ∷ []) sent_twice
unfolding write_chunks
sends =
    Sent.sent
      (Sent.sent Sent.start upload (codes "b1") 2000 1 (ok (codes "hello") ∷ [])
        (info_of (codes "hello")) refl first_part)
      upload (codes "b2") 2000 1 (ok (codes "wor") ∷ ok (codes "ld") ∷ []) (info_of (codes "world"))
      refl second_part

abbrev pub the_part : CompletePart
the_part = record { part_number = 1; etag = codes "\"world\"" }

abbrev pub completed : LocalFsStore
completed = record store {
  objects =
      not_latest old_row
      ∷ completed_row ciphers upload_row (codes "v2") (codes "v2") 3000 (codes "world")
          (format_multipart_etag ciphers (the_part.etag ∷ [])) 1 (some (codes "AES256"))
      ∷ [];
  blobs = record { id = codes "v2"; content = nonce ++ codes "world" ++ replicate 16 0 } ∷ [];
}

abbrev completed_answer : PutObjectResponse
completed_answer = record {
  etag = format_multipart_etag ciphers (the_part.etag ∷ []);
  version_id = some (codes "v2");
}

completion :
    complete_multipart_upload ciphers sent_twice upload (codes "v2") nonce 3000 (the_part ∷ [])
    ≡ ok (completed, completed_answer)
unfolding complete_multipart_upload text_eq encrypt_aes256_gcm format_etag md5_hex trim_matches
    encryption_settings derive_key
completion = refl

get-complete_multipart_upload_example :
    (u : UploadRow) × (info : ObjectInfo) × (content : Bytes) × (find
        (is_upload u1)
        sent_twice.uploads
      ≡ some u)
    × (assemble ((1, codes "world") ∷ (1, codes "hello") ∷ []) (the_part ∷ []) ≡ some content)
    × (get_object ciphers completed u.bucket u.key (latest_opts none none) ≡ ok (info, content))
get-complete_multipart_upload_example =
    get-complete_multipart_upload ciphers ciphers-IsAead created sent_twice completed
      ((1, codes "world") ∷ (1, codes "hello") ∷ []) upload (codes "v2") nonce 3000 (the_part ∷ [])
      completed_answer refl (λ n. refl) sends completion

-- The same upload without encryption, whose part is sent again with a body that fails.
abbrev plain_row : UploadRow
plain_row = new_upload u1 photos cat 1000 (record upload_opts { server_side_encryption = none })

abbrev plain : LocalFsStore
plain = with_part (record store { uploads = plain_row ∷ [] }) (codes "world") (codes "b2")

abbrev plain_completed : LocalFsStore
plain_completed = record store {
  objects =
      not_latest old_row
      ∷ completed_row ciphers plain_row (codes "v2") (codes "v2") 3000 (codes "world")
          (format_multipart_etag ciphers (the_part.etag ∷ [])) 1 none
      ∷ [];
  blobs = record { id = codes "v2"; content = codes "world" } ∷ [];
}

plain_completion :
    complete_multipart_upload ciphers plain upload (codes "v2") nonce 3000 (the_part ∷ [])
    ≡ ok (plain_completed, completed_answer)
unfolding complete_multipart_upload text_eq format_etag md5_hex trim_matches encryption_settings
plain_completion = refl

known : find (is_upload u1) plain.uploads ≡ some plain_row
unfolding text_eq
known = refl

not_encrypted : plain_row.encryption_algorithm ≡ none
unfolding encryption_settings
not_encrypted = refl

abbrev broken : List (Result StorageError Bytes)
broken = ok (codes "wo") ∷ err internal ∷ []

cut_off : write_chunks broken ≡ (codes "wo", some internal)
unfolding write_chunks
cut_off = refl

complete_multipart_upload-torn_example :
    (t t' : LocalFsStore) × (info : ObjectInfo) × (upload_part ciphers plain upload
        (codes "b3")
        2500
        1
        broken
      ≡ (t, err internal))
    × (complete_multipart_upload ciphers t upload (codes "v2") nonce 3000 (the_part ∷ [])
        ≡ ok (t', completed_answer))
    × (get_object ciphers t' photos cat (latest_opts none none) ≡ ok (info, codes "wo"))
complete_multipart_upload-torn_example =
    complete_multipart_upload-torn ciphers ciphers-IsAead plain plain_completed upload (codes "v2")
      (codes "b3") nonce 2500 3000 the_part completed_answer plain_row broken (codes "wo") internal
      refl known not_encrypted refl plain_completion cut_off

-- An upload that is to be encrypted with the customer's key.
abbrev customer_row : UploadRow
customer_row = new_upload u1 photos cat 1000 opts

begun :
    create_multipart_upload store u1 1000 photos cat opts
    ≡ ok (record store { uploads = customer_row ∷ [] }, upload)
unfolding create_multipart_upload text_eq
begun = refl

complete_multipart_upload-sse_c_example :
    complete_multipart_upload ciphers
      (record store { uploads = customer_row ∷ [] })
      upload
      (codes "v2")
      nonce
      3000
      (the_part ∷ [])
    ≢ ok (completed, completed_answer)
complete_multipart_upload-sse_c_example =
    complete_multipart_upload-sse_c ciphers store (record store { uploads = customer_row ∷ [] })
      (record store { uploads = customer_row ∷ [] }) completed u1 upload photos cat opts []
      (codes "v2") nonce 1000 3000 (the_part ∷ []) completed_answer refl refl begun Sent.start
