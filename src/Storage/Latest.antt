-- ===== src/Storage/Latest.antt =====
-- At most one row of a key is its latest version.
pub mod Reachable
use strix.Base.{
  ℕ, ◌+◌, ◌≤◌, ◌≡◌, refl, sym, ap, ◌∙◌, inl, inr, Bool, true, false, ◌||◌, List, [], ◌∷◌, ◌++◌,
  Option, none, Text, codes, text_eq, text_eq_iff, arith, update, remove, if◌then◌else◌, Bool-cases,
  Result, ok, reject_if, >>=-eq-ok, ok-injective,
}
use strix.Crypto.{Bytes, Ciphers}
use strix.Storage.Tables.{
  ObjectRow, LocalFsStore, StorageError, Instant, is_object, is_version, not_latest, status_of,
}
use strix.Storage.Locks.{object_delete_locked}
use strix.Storage.Put.{PutObjectOpts, PutObjectResponse, make_room, put_object}
use strix.Storage.Put.Inversion.{put_object_inv}
use strix.Storage.Delete.{
  DeleteObjectResponse, add_marker, delete_all, delete_object_version, delete_object,
}

unfoldable pub count : (ObjectRow → Bool) → List ObjectRow → ℕ
count test [] = 0
count test (r ∷ rows) = (if test r then 1 else 0) + count test rows

abbrev pub IsLatestUnique : LocalFsStore → Type 0
IsLatestUnique s = (b k : Text) → count (is_version b k none) s.objects ≤ 1

count-append :
    (test : ObjectRow → Bool) (xs ys : List ObjectRow)
    → count test (xs ++ ys) ≡ count test xs + count test ys
unfolding count
count-append test [] ys = omega arith
count-append test (r ∷ xs) ys = omega (arith, count-append test xs ys)

count-remove :
    (test gone : ObjectRow → Bool) (rows : List ObjectRow)
    → count test (remove gone rows) ≤ count test rows
unfolding count
count-remove test gone [] = omega arith
count-remove test gone (r ∷ rows) = ground (arith, count-remove test gone rows)

-- Rows that are not the latest any more are not counted more often.
count-cleared :
    (b k : Text) (changed : ObjectRow → Bool) (rows : List ObjectRow)
    → count (is_version b k none) (update changed not_latest rows)
      ≤ count (is_version b k none) rows
unfolding count
count-cleared b k changed [] = omega arith
count-cleared b k changed (r ∷ rows) = ground (arith, count-cleared b k changed rows)

cleared_none :
    (b k : Text) (rows : List ObjectRow)
    → count (is_version b k none) (update (is_object b k) not_latest rows) ≡ 0
unfolding count
cleared_none b k [] = refl
cleared_none b k (r ∷ rows) = ground (arith, cleared_none b k rows)

cleared_latest :
    (b k : Text) (rows : List ObjectRow)
    → count (is_version b k none) (update (is_version b k none) not_latest rows) ≡ 0
unfolding count
cleared_latest b k [] = refl
cleared_latest b k (r ∷ rows) = ground (arith, cleared_latest b k rows)

removed_none :
    (b k : Text) (rows : List ObjectRow)
    → count (is_version b k none) (remove (is_object b k) rows) ≡ 0
unfolding count
removed_none b k [] = refl
removed_none b k (r ∷ rows) = ground (arith, removed_none b k rows)

-- A new latest row for a key that has none, where no key has more than before.
pub added :
    (bucket key : Text) (rows room : List ObjectRow) (new : ObjectRow)
    → new.bucket ≡ bucket
    → new.key ≡ key
    → count (is_version bucket key none) room ≡ 0
    → ((b k : Text) → count (is_version b k none) room ≤ count (is_version b k none) rows)
    → ((b k : Text) → count (is_version b k none) rows ≤ 1)
    → (b k : Text) → count (is_version b k none) (room ++ new ∷ []) ≤ 1
unfolding count
added bucket key rows room new nb nk none_there fewer unique b k =
    elim (Bool-cases (is_version b k none new)) [
      | inr other ↦
          rw (count-append (is_version b k none) room (new ∷ []), other)
            (omega (arith, fewer b k, unique b k))
      | inl here ↦
          let same_b : bucket ≡ b = sym nb ∙ (text_eq_iff new.bucket b).0 (ground arith) in
          let same_k : key ≡ k = sym nk ∙ (text_eq_iff new.key k).0 (ground arith) in
          rw (count-append (is_version b k none) room (new ∷ []), here)
            (rw (← same_b, ← same_k) (omega (arith, none_there)))
    ]

pub room_none :
    (is_versioned : Bool) (b k : Text) (rows : List ObjectRow)
    → count (is_version b k none) (make_room is_versioned b k rows) ≡ 0
unfolding make_room
room_none true b k rows = cleared_none b k rows
room_none false b k rows = removed_none b k rows

pub room_fewer :
    (is_versioned : Bool) (bucket key : Text) (rows : List ObjectRow) (b k : Text)
    → count (is_version b k none) (make_room is_versioned bucket key rows)
      ≤ count (is_version b k none) rows
unfolding make_room
room_fewer true bucket key rows b k = count-cleared b k (is_object bucket key) rows
room_fewer false bucket key rows b k =
    count-remove (is_version b k none) (is_object bucket key) rows

-- A put that succeeds keeps that at most one row of every key is the latest.
pub put_object-IsLatestUnique :
    (c : Ciphers) (s s' : LocalFsStore) (object_id : Text) (nonce : Bytes) (now : Instant)
    (bucket key : Text) (body : List (Result StorageError Bytes)) (opts : PutObjectOpts)
    (r : PutObjectResponse)
    → put_object c s object_id nonce now bucket key body opts ≡ ok (s', r)
    → IsLatestUnique s
    → IsLatestUnique s'
put_object-IsLatestUnique c s s' object_id nonce now bucket key body opts r e h =
    let p = put_object_inv c s object_id nonce now bucket key body opts e in
    let versioned = text_eq p.status (codes "Enabled") in
    rw (← p.result) (
      added bucket key s.objects (make_room versioned bucket key s.objects) _ refl refl
        (room_none versioned bucket key s.objects) (room_fewer versioned bucket key s.objects) h)

deleted-IsLatestUnique :
    (newest : List ObjectRow → Option ObjectRow) (s : LocalFsStore) (marker_id : Text)
    (now : Instant) (bucket key : Text) (is_versioned : Bool) {s' : LocalFsStore}
    (marked deleted r : DeleteObjectResponse)
    → ◌≡◌ {A = Result StorageError (LocalFsStore × DeleteObjectResponse)}
        (if is_versioned
          then ok (add_marker newest s marker_id bucket key now, marked)
          else ok (delete_all newest s bucket key, deleted))
        (ok (s', r))
    → IsLatestUnique s
    → IsLatestUnique s'
unfolding add_marker delete_all
deleted-IsLatestUnique newest s marker_id now bucket key true marked deleted r e h =
    rw (← ap (λ (q : LocalFsStore × DeleteObjectResponse). q.0) (ok-injective e)) (
      added bucket key s.objects (update (is_version bucket key none) not_latest s.objects) _ refl
        refl (cleared_latest bucket key s.objects)
        (λ b k. count-cleared b k (is_version bucket key none) s.objects) h)
deleted-IsLatestUnique newest s marker_id now bucket key false marked deleted r e h =
    rw (← ap (λ (q : LocalFsStore × DeleteObjectResponse). q.0) (ok-injective e)) (λ b k.
      omega (arith, count-remove (is_version b k none) (is_object bucket key) s.objects, h b k))

-- A delete that names no version and succeeds keeps that at most one row of every key is the
-- latest.
pub delete_object-IsLatestUnique :
    (newest : List ObjectRow → Option ObjectRow) (s s' : LocalFsStore) (marker_id : Text)
    (now : Instant) (bucket key : Text)
    → delete_object newest s marker_id now bucket key ≡ ok s'
    → IsLatestUnique s
    → IsLatestUnique s'
unfolding delete_object delete_object_version
delete_object-IsLatestUnique newest s s' marker_id now bucket key e h =
    let ((t, r), deletion, same) =
      >>=-eq-ok (delete_object_version newest s marker_id now bucket key none) _ e in
    let (status, found, e₁) = >>=-eq-ok (status_of s bucket) _ deletion in
    let (_, unlocked, e₂) =
      >>=-eq-ok (reject_if (object_delete_locked s now bucket key none) _) _ e₁ in
    rw (← ok-injective same) (
      deleted-IsLatestUnique newest s marker_id now bucket key
        (text_eq status (codes "Enabled") || text_eq status (codes "Suspended")) _ _ r e₂ h)
