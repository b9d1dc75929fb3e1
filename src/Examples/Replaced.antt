-- ===== src/Examples/Replaced.antt =====
-- A put into a bucket whose versioning is suspended, over a version that is kept until second 5000.
use strix.Base.{◌≡◌, refl, true, [], ◌∷◌, none, some, codes, text_eq, find, arith, take, ok}
use strix.Crypto.{format_etag, encrypt_aes256_gcm, validate_sse_c_key, md5_hex}
use strix.Storage.Tables.{LocalFsStore, is_version, status_of, write_blob}
use strix.Storage.Put.{
  PutObjectResponse, put_object, read_body, customer_key, encrypt_body, make_room, new_row,
}
use strix.Storage.Put.Replaced.{put_object-replaces}
use strix.Examples.Objects.{ciphers, nonce, photos, cat, opts, store, body, after_put}

abbrev suspended : LocalFsStore
suspended = record store {
  buckets =
      record {
        name = photos;
        region = none;
        tenant_slug = none;
        versioning_status = codes "Suspended";
        object_lock_enabled = true;
        created_at = 0;
      }
      ∷ [];
}

abbrev replaced : LocalFsStore
replaced = record suspended {
  objects =
      new_row ciphers (codes "v2") (codes "null") photos cat 2000 (codes "hello, world") opts
        (some (codes "SSE-C")) none
      ∷ [];
  blobs = after_put.blobs;
}

abbrev answer : PutObjectResponse
answer = record { etag = format_etag (take 16 (codes "hello, world")); version_id = none }

put :
    put_object ciphers suspended (codes "v2") nonce 2000 photos cat body opts
    ≡ ok (replaced, answer)
unfolding put_object status_of read_body customer_key encrypt_body make_room write_blob text_eq
    encrypt_aes256_gcm validate_sse_c_key md5_hex
put = refl

status : status_of suspended photos ≡ ok (codes "Suspended")
unfolding status_of text_eq
status = refl

put_object-replaces_example :
    find (is_version photos cat (some (codes "v1"))) replaced.objects ≡ none
put_object-replaces_example =
    put_object-replaces ciphers suspended replaced (codes "v2") nonce 2000 photos cat body opts
      answer (codes "Suspended") (codes "v1") status (λ e. ground arith) put (λ e. ground arith)
