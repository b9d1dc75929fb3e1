-- ===== src/Examples/Objects.antt =====
-- Objects, versions and retention.
use strix.Base.{
  ◌⊎◌, ℕ, ◌+◌, ◌-◌, ◌<◌, ◌≤◌, ◌≡◌, refl, ◌↔◌, true, false, List, [], ◌∷◌, ◌++◌, Option, none, some,
  Text, codes, text_eq, length, length-append, take, replicate, arith, Result, ok, err,
}
use mathlib.Core.Option.{some-injective}
use strix.Crypto.{Bytes, Ciphers, format_etag, md5_hex, encrypt_aes256_gcm, validate_sse_c_key}
use strix.Crypto.RoundTrip.{IsAead, take-append}
use strix.Storage.Tables.{
  ObjectRow, LocalFsStore, StorageError, object_not_found, invalid_range, status_of, write_blob,
}
use strix.Storage.Locks.{object_delete_locked}
use strix.Storage.Put.{
  PutObjectOpts, PutObjectResponse, sse_c, put_object, read_body, customer_key, encrypt_body,
  make_room, new_row,
}
use strix.Storage.Delete.{DeleteObjectResponse, marker_row, delete_object_version, delete_object}
use strix.Storage.Read.{ObjectInfo, get_object, resolve_range, slice, min}
use strix.Storage.Read.Decryption.{get_opts}
use strix.Storage.Read.RoundTrip.{get-put_object}
use strix.Storage.Read.Hidden.{get-delete_object}
use strix.Storage.Read.Ranges.{last_byte, resolve_range_iff, resolve_range-slice}
use strix.Storage.Retained.Kept
use strix.Storage.Retained.Kept.{Step, Reach}

-- Data with a tag of zeros behind it, and texts that are their own encodings.
abbrev pub ciphers : Ciphers
ciphers = record {
  md5 = λ b. take 16 b;
  hmac_sha256 = λ k b. replicate 32 7;
  hex_encode = λ b. b;
  base64_encode = λ b. b;
  base64_decode = λ t. some t;
  hex_decode = λ t. some t;
  seal = λ k n p. some (p ++ replicate 16 0);
  unseal = λ k n s. some (take (length s - 16) s);
}

tagged : (p : Bytes) → take (length (p ++ replicate 16 0) - 16) (p ++ replicate 16 0) ≡ p
tagged p =
    take-append (length (p ++ replicate 16 0) - 16) p (replicate 16 0)
      (omega (arith, length-append p (replicate 16 0)))

pub ciphers-IsAead : IsAead ciphers
ciphers-IsAead key nonce plaintext sealed e =
    rw (← some-injective _ _ e)
      (rw (tagged plaintext) refl, length-append plaintext (replicate 16 0))

abbrev pub nonce : Bytes
nonce = replicate 12 1

abbrev customer : Text
customer = replicate 32 5

abbrev text : Bytes
text = codes "hello, world"

resolve_range_iff_example :
    ((resolve_range 12 (some (7, some 20)) ≡ ok (7, 5)) ↔ (
      (◌≡◌ {A = ℕ} 7 7)
      × (7 < 12)
      × (7 ≤ 20)
      × (7 + 5 ≡ min (last_byte 12 (some 20)) (12 - 1) + 1)))
    × ((resolve_range 12 (some (7, some 20)) ≡ err invalid_range)
        ↔ ((12 ≤ 7) ⊎ (last_byte 12 (some 20) < 7)))
resolve_range_iff_example = resolve_range_iff 12 7 7 5 (some 20)

world : resolve_range (length text) (some (7, some 20)) ≡ ok (7, 5)
unfolding resolve_range
world = refl

resolve_range-slice_example :
    (before : Bytes) × (after : Bytes) × (text ≡ before ++ (slice text (7, 5) ++ after))
    × (length before ≡ 7)
    × (length (slice text (7, 5)) ≡ 5)
resolve_range-slice_example = resolve_range-slice text 7 5 (some 20) world

abbrev pub photos : Text
photos = codes "photos"

abbrev pub cat : Text
cat = codes "cat"

abbrev pub opts : PutObjectOpts
opts = record {
  content_type = some (codes "text/plain");
  content_encoding = none;
  content_disposition = none;
  cache_control = none;
  storage_class = none;
  metadata = [];
  server_side_encryption = some sse_c;
  sse_customer_key = some customer;
  sse_customer_key_md5 = none;
}

-- A version of the photo that is kept until second 5000.
abbrev pub old_row : ObjectRow
old_row = record (new_row ciphers (codes "v1") (codes "v1") photos cat 1000 text opts none none) {
  retention_mode = some (codes "COMPLIANCE");
  retain_until_date = some 5000000000000;
}

abbrev pub store : LocalFsStore
store = record {
  master_key = replicate 32 9;
  buckets =
      record {
        name = photos;
        region = none;
        tenant_slug = none;
        versioning_status = codes "Enabled";
        object_lock_enabled = true;
        created_at = 0;
      }
      ∷ [];
  objects = old_row ∷ [];
  blobs = [];
  uploads = [];
  parts = [];
  part_files = [];
}

abbrev pub body : List (Result StorageError Bytes)
body = ok (codes "hello, ") ∷ ok (codes "world") ∷ []

abbrev pub after_put : LocalFsStore
after_put = record store {
  objects =
      record old_row { is_latest = false }
      ∷ new_row ciphers (codes "v2") (codes "v2") photos cat 2000 text opts (some (codes "SSE-C"))
          none
      ∷ [];
  blobs = record { id = codes "v2"; content = nonce ++ text ++ replicate 16 0 } ∷ [];
}

abbrev pub answer : PutObjectResponse
answer = record { etag = format_etag (take 16 text); version_id = some (codes "v2") }

pub put :
    put_object ciphers store (codes "v2") nonce 2000 photos cat body opts ≡ ok (after_put, answer)
unfolding put_object status_of read_body customer_key encrypt_body make_room write_blob text_eq
    encrypt_aes256_gcm validate_sse_c_key md5_hex
put = refl

get-put_object_example :
    (info : ObjectInfo) × (plaintext : Bytes) × (read_body body ≡ ok plaintext)
    × (get_object ciphers after_put photos cat (get_opts opts) ≡ ok (info, plaintext))
get-put_object_example =
    get-put_object ciphers ciphers-IsAead store after_put (codes "v2") nonce 2000 photos cat body
      opts answer refl put

-- The rows of the tests have one latest row, the last one.
abbrev pub newest : List ObjectRow → Option ObjectRow
newest [] = none
newest (r ∷ []) = some r
newest (r ∷ q ∷ rows) = newest (q ∷ rows)

abbrev pub after_delete : LocalFsStore
after_delete = record after_put {
  objects =
      record old_row { is_latest = false }
      ∷ record (new_row ciphers (codes "v2") (codes "v2") photos cat 2000 text opts
          (some (codes "SSE-C")) none) { is_latest = false }
      ∷ marker_row (codes "v3") photos cat 3000
      ∷ [];
}

abbrev marked : DeleteObjectResponse
marked = record { delete_marker = true; version_id = some (codes "v3") }

pub deleted : delete_object newest after_put (codes "v3") 3000 photos cat ≡ ok after_delete
unfolding delete_object delete_object_version status_of object_delete_locked text_eq
deleted = refl

get-delete_object_example :
    get_object ciphers after_delete photos cat (get_opts opts) ≡ err (object_not_found photos cat)
get-delete_object_example =
    get-delete_object ciphers newest after_put (codes "v3") 3000 photos cat (get_opts opts) refl
      deleted
