-- ===== src/Examples/Copies.antt =====
-- A copy of the photo that was uploaded in parts, which is encrypted with the server's key.
use strix.Base.{
  ◌≡◌, refl, inl, inr, [], ◌∷◌, ◌++◌, none, some, Text, codes, text_eq, find, replicate, ok,
}
use strix.Crypto.{derive_key, encrypt_aes256_gcm, decrypt_aes256_gcm, format_multipart_etag}
use strix.Storage.Tables.{ObjectRow, LocalFsStore, is_version}
use strix.Storage.Read.{ObjectInfo, object_info, get_object}
use strix.Storage.Read.Decryption.{latest_opts}
use strix.Storage.Multipart.{completed_row}
use strix.Storage.Copy.{CopyObjectOpts, CopyObjectResponse, copy, copied_row, copy_object}
use strix.Storage.Copy.Copied.{get-copy_object}
use strix.Examples.Objects.{ciphers, ciphers-IsAead, nonce, photos, cat}
use strix.Examples.Uploads.{completed, upload_row, the_part}

abbrev dog : Text
dog = codes "dog"

abbrev source : ObjectRow
source =
    completed_row ciphers upload_row (codes "v2") (codes "v2") 3000 (codes "world")
      (format_multipart_etag ciphers (the_part.etag ∷ [])) 1 (some (codes "AES256"))

abbrev copy_opts : CopyObjectOpts
copy_opts = record { metadata_directive = copy; metadata = [] }

abbrev copied : LocalFsStore
copied = record completed {
  objects =
      completed.objects
      ++ copied_row (object_info source) source (codes "v4") (codes "v4") photos dog 4000 copy_opts
        ∷ [];
  blobs =
      completed.blobs
      ++ record { id = codes "v4"; content = nonce ++ codes "world" ++ replicate 16 0 } ∷ [];
}

abbrev copy_answer : CopyObjectResponse
copy_answer = record {
  etag = (object_info source).etag;
  last_modified = 4000;
  version_id = some (codes "v4");
}

copying :
    copy_object ciphers completed (codes "v4") nonce 4000 photos cat photos dog copy_opts
    ≡ ok (copied, copy_answer)
unfolding copy_object object_info text_eq encrypt_aes256_gcm decrypt_aes256_gcm derive_key
copying = refl

newest_photo : find (is_version photos cat none) completed.objects ≡ some source
unfolding text_eq
newest_photo = refl

source_read :
    get_object ciphers completed photos cat (latest_opts none none)
    ≡ ok (object_info source, codes "world")
unfolding get_object object_info text_eq decrypt_aes256_gcm derive_key
source_read = refl

get-copy_object_example :
    (info : ObjectInfo) × (get_object ciphers copied photos dog (latest_opts none none)
      ≡ ok (info, codes "world"))
get-copy_object_example =
    get-copy_object ciphers ciphers-IsAead completed copied (codes "v4") nonce 4000 photos cat
      photos dog copy_opts copy_answer none none source (object_info source) (codes "world") refl
      newest_photo (inr (inl refl)) source_read copying
