-- ===== src/Storage/Read/Hidden.antt =====
-- A deleted object cannot be read any more.
use strix.Base.{
  ◌≡◌, refl, ap, Bool, true, false, ◌||◌, List, [], ◌∷◌, Option, none, Text, codes, text_eq,
  text_eq_self, arith, any, find, find-append_new, update, remove, if◌then◌else◌, Result, ok, err,
  reject_if, >>=-eq-ok, ok-injective,
}
use strix.Crypto.{Ciphers}
use strix.Storage.Tables.{
  ObjectRow, LocalFsStore, StorageError, object_not_found, Instant, is_object, is_version,
  not_latest, status_of,
}
use strix.Storage.Locks.{object_delete_locked}
use strix.Storage.Delete.{
  DeleteObjectResponse, marker_row, add_marker, delete_all, delete_object_version, delete_object,
}
use strix.Storage.Read.{GetObjectOpts, get_object}

updated_none :
    (bucket key : Text) (rows : List ObjectRow)
    → any (is_version bucket key none) (update (is_version bucket key none) not_latest rows) ≡ false
updated_none bucket key [] = refl
updated_none bucket key (r ∷ rows) = ground (arith, updated_none bucket key rows)

removed_none :
    (bucket key : Text) (rows : List ObjectRow)
    → find (is_version bucket key none) (remove (is_object bucket key) rows) ≡ none
removed_none bucket key [] = refl
removed_none bucket key (r ∷ rows) = ground (arith, removed_none bucket key rows)

module _ (c : Ciphers) (newest : List ObjectRow → Option ObjectRow) (s : LocalFsStore)
    (marker_id : Text) (now : Instant) (bucket key : Text) (opts : GetObjectOpts)
    (latest : opts.version_id ≡ none) where
  -- Both ways of a delete that names no version.
  hidden_after :
      (is_versioned : Bool) {s' : LocalFsStore} (marked deleted r : DeleteObjectResponse)
      → ◌≡◌ {A = Result StorageError (LocalFsStore × DeleteObjectResponse)}
          (if is_versioned
            then ok (add_marker newest s marker_id bucket key now, marked)
            else ok (delete_all newest s bucket key, deleted))
          (ok (s', r))
      → get_object c s' bucket key opts ≡ err (object_not_found bucket key)
  unfolding get_object add_marker delete_all
  hidden_after true {s'} marked deleted r e =
      let same : add_marker newest s marker_id bucket key now ≡ s' =
        ap (λ (q : LocalFsStore × DeleteObjectResponse). q.0) (ok-injective e) in
      rw (← same) (
        rw
          (
            get_object,
            latest,
            find-append_new (λ (q : ObjectRow). q) (is_version bucket key none)
                (update (is_version bucket key none) not_latest s.objects)
                (marker_row marker_id bucket key now) (updated_none bucket key s.objects)
                (rw (text_eq_self bucket, text_eq_self key) refl),
          )
          refl)
  hidden_after false {s'} marked deleted r e =
      let same : delete_all newest s bucket key ≡ s' =
        ap (λ (q : LocalFsStore × DeleteObjectResponse). q.0) (ok-injective e) in
      rw (← same) (rw (get_object, latest, removed_none bucket key s.objects) refl)

  -- After a `delete_object` that succeeds, whatever the versioning of the bucket, a read that
  -- names no version answers that the object is not found.
  pub get-delete_object :
      {s' : LocalFsStore}
      → delete_object newest s marker_id now bucket key ≡ ok s'
      → get_object c s' bucket key opts ≡ err (object_not_found bucket key)
  unfolding delete_object delete_object_version
  get-delete_object {s'} e =
      let ((t, r), h, same) =
        >>=-eq-ok (delete_object_version newest s marker_id now bucket key none) _ e in
      let (status, found, e₁) = >>=-eq-ok (status_of s bucket) _ h in
      let (_, unlocked, e₂) =
        >>=-eq-ok (reject_if (object_delete_locked s now bucket key none) _) _ e₁ in
      rw (← ok-injective same) (
        hidden_after (text_eq status (codes "Enabled") || text_eq status (codes "Suspended")) _ _ r
          e₂)
