-- ===== src/Storage/Put/Replaced.antt =====
-- Puts into a bucket whose versioning is not enabled.
use strix.Base.{
  ◌≡◌, sym, ◌∙◌, ◌≢◌, Bool, false, List, [], ◌∷◌, ◌++◌, none, some, Text, codes, text_eq,
  text_eq_iff, arith, find, Result, ok, ok-injective,
}
use strix.Crypto.{Bytes, Ciphers}
use strix.Storage.Tables.{ObjectRow, LocalFsStore, StorageError, Instant, is_version, status_of}
use strix.Storage.Put.{PutObjectOpts, PutObjectResponse, make_room, put_object}
use strix.Storage.Put.Inversion.{put_object_inv, row}

only_new :
    (bucket key v : Text) (rows : List ObjectRow) (new : ObjectRow)
    → text_eq new.version_id v ≡ false
    → find (is_version bucket key (some v)) (make_room false bucket key rows ++ new ∷ []) ≡ none
unfolding make_room
only_new bucket key v [] new n = ground arith
only_new bucket key v (r ∷ rows) new n = ground (arith, only_new bucket key v rows new n)

only_new_of :
    (flag : Bool) (bucket key v : Text) (rows : List ObjectRow) (new : ObjectRow)
    → flag ≡ false
    → text_eq new.version_id v ≡ false
    → find (is_version bucket key (some v)) (make_room flag bucket key rows ++ new ∷ []) ≡ none
only_new_of flag bucket key v rows new plain n = rw plain (only_new bucket key v rows new n)

not_enabled : (t : Text) → t ≢ codes "Enabled" → text_eq t (codes "Enabled") ≡ false
not_enabled t n = ground (arith, text_eq_iff t (codes "Enabled"))

not_null : (v : Text) → v ≢ codes "null" → text_eq (codes "null") v ≡ false
not_null v n = ground (arith, text_eq_iff (codes "null") v, λ (e : codes "null" ≡ v). n (sym e))

-- A put that succeeds into a bucket whose versioning status is not "Enabled" leaves no row of
-- the key with a version other than "null", whatever versions of the key the bucket had before
-- and however they were retained.
pub put_object-replaces :
    (c : Ciphers) (s s' : LocalFsStore) (object_id : Text) (nonce : Bytes) (now : Instant)
    (bucket key : Text) (body : List (Result StorageError Bytes)) (opts : PutObjectOpts)
    (r : PutObjectResponse) (status v : Text)
    → status_of s bucket ≡ ok status
    → status ≢ codes "Enabled"
    → put_object c s object_id nonce now bucket key body opts ≡ ok (s', r)
    → v ≢ codes "null"
    → find (is_version bucket key (some v)) s'.objects ≡ none
put_object-replaces c s s' object_id nonce now bucket key body opts r status v found other e n =
    let p = put_object_inv c s object_id nonce now bucket key body opts e in
    let same : p.status ≡ status = ok-injective (sym p.found ∙ found) in
    let plain = not_enabled p.status (λ q. other (sym same ∙ q)) in
    let new =
      row c s object_id nonce now bucket key body opts p.status p.plaintext p.algorithm p.key_md5 in
    let null : text_eq new.version_id v ≡ false = rw plain (not_null v n) in
    let gone =
      only_new_of (text_eq p.status (codes "Enabled")) bucket key v s.objects new plain null in
    rw (← p.result) gone
