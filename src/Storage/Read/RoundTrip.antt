-- ===== src/Storage/Read/RoundTrip.antt =====
-- What is put can be read.
use strix.Base.{
  ℕ, ◌-◌, ◌≡◌, refl, Bool, true, false, List, [], ◌∷◌, none, Option, some, Text, text_eq,
  text_eq_self, arith, any, any-remove_none, find, find-append_new, remove, length, take, Result,
  ok,
}
use strix.Crypto.{Bytes, Ciphers, nonce_size}
use strix.Crypto.RoundTrip.{IsAead}
use strix.Storage.Tables.{
  ObjectRow, Blob, LocalFsStore, StorageError, Instant, is_version, read_blob, write_blob,
}
use strix.Storage.Put.{
  PutObjectOpts, PutObjectResponse, read_body, derive_object_key, make_room, put_object,
}
use strix.Storage.Put.Inversion.{put_object_inv, after, row, version, versioned}
use strix.Storage.Read.{
  ObjectInfo, check_conditions, object_info, min, resolve_range, slice, decrypt_body, get_object,
}
use strix.Storage.Read.Decryption.{latest_opts, get_opts, decrypted}

-- No row of the key is the latest before the new row goes in.
pub room_has_no_latest :
    (is_versioned : Bool) (bucket key : Text) (rows : List ObjectRow)
    → any (is_version bucket key none) (make_room is_versioned bucket key rows) ≡ false
unfolding make_room
room_has_no_latest true bucket key [] = refl
room_has_no_latest false bucket key [] = refl
room_has_no_latest true bucket key (r ∷ rows) =
    ground (arith, room_has_no_latest true bucket key rows)
room_has_no_latest false bucket key (r ∷ rows) =
    ground (arith, room_has_no_latest false bucket key rows)

pub read-write_blob :
    (id : Text) (content : Bytes) (blobs : List Blob)
    → read_blob id (write_blob id content blobs) ≡ some content
unfolding write_blob read_blob
read-write_blob id content blobs =
    rw
      (
        read_blob,
        find-append_new (λ (b : Blob). b) (λ (b : Blob). text_eq b.id id)
            (remove (λ (b : Blob). text_eq b.id id) blobs) (record { id = id; content = content })
            (any-remove_none _ _ blobs (λ b h. h)) (text_eq_self id),
      )
      refl

take-all : (p : Bytes) → take (length p) p ≡ p
take-all [] = refl
take-all (x ∷ p) = rw (take-all p)

min_self : (n : ℕ) → min n (n - 0) ≡ n
min_self n = ground arith

pub slice-all : (p : Bytes) → slice p (0, length p) ≡ p
unfolding slice
slice-all p = rw (min_self (length p)) (take-all p)

module _ (c : Ciphers) (aead : IsAead c) where
  -- A read whose row and file are known.
  pub get_found :
      (s : LocalFsStore) (bucket key : Text) (customer key_md5 : Option Text) (q : ObjectRow)
      (content plaintext : Bytes)
      → find (is_version bucket key none) s.objects ≡ some q
      → q.is_delete_marker ≡ false
      → read_blob q.id s.blobs ≡ some content
      → decrypt_body c s bucket key (object_info q) (latest_opts customer key_md5) content
        ≡ ok plaintext
      → get_object c s bucket key (latest_opts customer key_md5) ≡ ok (object_info q, plaintext)
  unfolding get_object check_conditions resolve_range
  get_found s bucket key customer key_md5 q content plaintext f m b d =
      rw (get_object, f, m, b, d, slice-all plaintext) refl

  -- After a put that succeeds, a read of the key's latest version with the same customer key,
  -- without a range and conditions, gives the body back: without encryption, with the server's
  -- key and with the customer's. The nonce has 12 bytes, and AES-256-GCM opens what it sealed
  -- and makes it 16 bytes longer.
  pub get-put_object :
      (s s' : LocalFsStore) (object_id : Text) (nonce : Bytes) (now : Instant) (bucket key : Text)
      (body : List (Result StorageError Bytes)) (opts : PutObjectOpts) (r : PutObjectResponse)
      → length nonce ≡ nonce_size
      → put_object c s object_id nonce now bucket key body opts ≡ ok (s', r)
      → (info : ObjectInfo) × (plaintext : Bytes) × (read_body body ≡ ok plaintext)
        × (get_object c s' bucket key (get_opts opts) ≡ ok (info, plaintext))
  unfolding object_info decrypt_body derive_object_key
  get-put_object s s' object_id nonce now bucket key body opts r n e =
      let p = put_object_inv c s object_id nonce now bucket key body opts e in
      let new =
        row c s object_id nonce now bucket key body opts p.status p.plaintext p.algorithm
          p.key_md5 in
      let room =
        make_room (versioned c s object_id nonce now bucket key body opts p.status) bucket key
          s.objects in
      (
        object_info new,
        p.plaintext,
        p.received,
        rw (← p.result) (
            get_found
              (after c s object_id nonce now bucket key body opts p.status p.plaintext p.content
                p.algorithm p.key_md5)
              bucket key opts.sse_customer_key opts.sse_customer_key_md5 new p.content p.plaintext
              (find-append_new (λ (q : ObjectRow). q) (is_version bucket key none) room new
                (room_has_no_latest _ bucket key s.objects)
                (rw (text_eq_self bucket, text_eq_self key) refl))
              refl (read-write_blob object_id p.content s.blobs)
              (decrypted c aead s bucket key
                (version c s object_id nonce now bucket key body opts p.status) nonce opts
                p.sse_c_key p.plaintext p.content p.algorithm p.key_md5 (object_info new)
                opts.server_side_encryption refl n p.valid_key p.encrypted refl refl)),
      )
