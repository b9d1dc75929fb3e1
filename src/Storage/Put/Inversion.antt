-- ===== src/Storage/Put/Inversion.antt =====
-- What a `put_object` that succeeds did.
use strix.Base.{
  ◌≡◌, ap, Bool, List, [], ◌∷◌, ◌++◌, Option, Text, codes, text_eq, if◌then◌else◌, Result, ok,
  >>=-eq-ok, ok-injective,
}
use strix.Crypto.{Bytes, Ciphers}
use strix.Storage.Tables.{ObjectRow, LocalFsStore, StorageError, Instant, status_of, write_blob}
use strix.Storage.Put.{
  PutObjectOpts, PutObjectResponse, read_body, customer_key, encrypt_body, new_row, make_room,
  put_object,
}

module _ (c : Ciphers) (s : LocalFsStore) (object_id : Text) (nonce : Bytes) (now : Instant)
    (bucket key : Text) (body : List (Result StorageError Bytes)) (opts : PutObjectOpts) where
  abbrev pub versioned : Text → Bool
  versioned status = text_eq status (codes "Enabled")

  abbrev pub version : Text → Text
  version status = if versioned status then object_id else codes "null"

  abbrev pub row : Text → Bytes → Option Text → Option Text → ObjectRow
  row status plaintext algorithm key_md5 =
      new_row c object_id (version status) bucket key now plaintext opts algorithm key_md5

  -- The store after the put of a body with these columns.
  abbrev pub after : Text → Bytes → Bytes → Option Text → Option Text → LocalFsStore
  after status plaintext content algorithm key_md5 = record s {
    objects =
        make_room (versioned status) bucket key s.objects
        ++ row status plaintext algorithm key_md5 ∷ [];
    blobs = write_blob object_id content s.blobs;
  }

  -- The values that a put computes on the way, and its result.
  pub record Put (s' : LocalFsStore) : Type 0 where
    pub status : Text
    pub sse_c_key : Option Bytes
    pub plaintext : Bytes
    pub content : Bytes
    pub algorithm : Option Text
    pub key_md5 : Option Text
    pub found : status_of s bucket ≡ ok status
    pub valid_key : customer_key c opts.sse_customer_key opts.sse_customer_key_md5 ≡ ok sse_c_key
    pub received : read_body body ≡ ok plaintext
    pub encrypted :
        encrypt_body c s bucket key (version status) nonce opts sse_c_key plaintext
        ≡ ok (content, algorithm, key_md5)
    pub result : after status plaintext content algorithm key_md5 ≡ s'

  pub put_object_inv :
      {s' : LocalFsStore} {r : PutObjectResponse}
      → put_object c s object_id nonce now bucket key body opts ≡ ok (s', r)
      → Put s'
  unfolding put_object
  put_object_inv e =
      let (t, found, e₁) = >>=-eq-ok (status_of s bucket) _ e in
      let (k, valid, e₂) =
        >>=-eq-ok (customer_key c opts.sse_customer_key opts.sse_customer_key_md5) _ e₁ in
      let (p, received, e₃) = >>=-eq-ok (read_body body) _ e₂ in
      let ((content, algorithm, md5), encrypted, e₄) =
        >>=-eq-ok (encrypt_body c s bucket key (version t) nonce opts k p) _ e₃ in
      record {
        status = t;
        sse_c_key = k;
        plaintext = p;
        content = content;
        algorithm = algorithm;
        key_md5 = md5;
        found = found;
        valid_key = valid;
        received = received;
        encrypted = encrypted;
        result = ap (λ (q : LocalFsStore × PutObjectResponse). q.0) (ok-injective e₄);
      }
