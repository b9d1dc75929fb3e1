-- ===== src/Storage/Retained/Objects.antt =====
-- Writes and deletes keep the version.
use strix.Base.{
  ◌<◌, ◌≡◌, refl, sym, ap, ◌∙◌, ◌≢◌, inl, inr, Bool, true, false, List, Option, none, some, Text,
  codes, arith, text_eq, text_eq_iff, text_eq_self, remove, keep, update, read, read-append,
  read-remove, Bool-cases, Result, ok, ok-injective,
}
use strix.Crypto.{Bytes, Ciphers}
use strix.Storage.Tables.{
  ObjectRow, LocalFsStore, StorageError, Instant, is_object, is_version, not_latest, set_latest,
  status_of,
}
use strix.Storage.Locks.{object_delete_locked}
use strix.Storage.Put.Inversion.{put_object_inv}
use strix.Storage.Put.{PutObjectOpts, PutObjectResponse, make_room, put_object}
use strix.Storage.Delete.{promote, promote_newest, delete_version, add_marker, delete_all}
use strix.Storage.Retained.{
  protection, status_of-read, IsRetained, Keeps, kept_update, names_apart, apart,
}
use strix.Storage.Retained.Locks.{locked_here}

module _ (c : Ciphers) (newest : List ObjectRow → Option ObjectRow) (bucket key v : Text)
    (until : Instant) (id : Text) where
  pub kept_room :
      (is_versioned : Bool) (b k : Text) (rows : List ObjectRow)
      → ((bucket ≡ b) → is_versioned ≡ true)
      → read protection (is_version bucket key (some v)) (make_room is_versioned b k rows)
        ≡ read protection (is_version bucket key (some v)) rows
  unfolding make_room
  kept_room true b k rows h =
      kept_update bucket key v until id (is_object b k) not_latest rows (λ r. refl)
  kept_room false b k rows h =
      read-remove protection (is_version bucket key (some v)) (is_object b k) rows (λ r t.
        elim (Bool-cases (text_eq bucket b)) [
          | inl e ↦ cc (h ((text_eq_iff bucket b).0 e))
          | inr n ↦
              ground
                (arith, text_eq_iff bucket b, text_eq_iff r.bucket b, text_eq_iff r.bucket bucket)
        ])

  -- The bucket's status is what the operations read.
  pub status_here :
      (s : LocalFsStore) (b t : Text)
      → IsRetained bucket key v until id s
      → status_of s b ≡ ok t
      → bucket ≡ b
      → t ≡ codes "Enabled"
  status_here s b t h found e =
      sym (ok-injective (sym (status_of-read s bucket h.versioned) ∙ ap (status_of s) e ∙ found))

  pub put-Keeps :
      (s s' : LocalFsStore) (i : Text) (nonce : Bytes) (now : Instant) (b k : Text)
      (body : List (Result StorageError Bytes)) (opts : PutObjectOpts) (r : PutObjectResponse)
      → put_object c s i nonce now b k body opts ≡ ok (s', r)
      → Keeps bucket key v until id s s'
  put-Keeps s s' i nonce now b k body opts r e h =
      let p = put_object_inv c s i nonce now b k body opts e in
      rw (← p.result) (record {
        versioned = h.versioned;
        row =
            read-append protection (is_version bucket key (some v))
              (make_room (text_eq p.status (codes "Enabled")) b k s.objects) _
              (kept_room (text_eq p.status (codes "Enabled")) b k s.objects (λ same.
                  rw (status_here s b p.status h p.found same) (text_eq_self (codes "Enabled")))
                ∙ h.row);
      })

  promoted_row :
      (n : Option ObjectRow) (rows : List ObjectRow)
      → read protection (is_version bucket key (some v)) (promote newest n rows)
        ≡ read protection (is_version bucket key (some v)) rows
  unfolding promote
  promoted_row none rows = refl
  promoted_row (some n) rows =
      kept_update bucket key v until id (λ (r : ObjectRow). text_eq r.id n.id) set_latest rows
        (λ r. refl)

  kept_promote :
      (b k : Text) (rows : List ObjectRow)
      → read protection (is_version bucket key (some v)) (promote_newest newest b k rows)
        ≡ read protection (is_version bucket key (some v)) rows
  unfolding promote_newest
  kept_promote b k rows = promoted_row (newest (keep (is_object b k) rows)) rows

  -- A delete of a version, which is not locked and so is another one.
  pub version_deleted-Keeps :
      (s : LocalFsStore) (now : Instant) (b k w : Text)
      → now < until
      → object_delete_locked s now b k (some w) ≡ false
      → Keeps bucket key v until id s (delete_version newest s b k w)
  unfolding delete_version
  version_deleted-Keeps s now b k w early unlocked h =
      let other = names_apart bucket key v until id b k w (λ (e₁, e₂, e₃).
        let locked : object_delete_locked s now b k (some w) ≡ true =
          rw (← e₁, ← e₂, ← e₃) (locked_here bucket key v until id s now h early) in
        cc) in
      record {
        versioned = h.versioned;
        row =
            kept_promote b k (remove (is_version b k (some w)) s.objects)
            ∙ read-remove protection (is_version bucket key (some v)) (is_version b k (some w))
                s.objects (λ q t. apart bucket key v until id b k w q other t)
            ∙ h.row;
      }

  pub marked-Keeps :
      (s : LocalFsStore) (i b k : Text) (now : Instant)
      → Keeps bucket key v until id s (add_marker newest s i b k now)
  unfolding add_marker
  marked-Keeps s i b k now h = record {
    versioned = h.versioned;
    row =
        read-append protection (is_version bucket key (some v))
          (update (is_version b k none) not_latest s.objects) _
          (kept_update bucket key v until id (is_version b k none) not_latest s.objects (λ r. refl)
            ∙ h.row);
  }

  pub emptied-Keeps :
      (s : LocalFsStore) (b k : Text)
      → bucket ≢ b
      → Keeps bucket key v until id s (delete_all newest s b k)
  unfolding delete_all
  emptied-Keeps s b k n h = record {
    versioned = h.versioned;
    row =
        read-remove protection (is_version bucket key (some v)) (is_object b k) s.objects (λ r t.
          ground (arith, text_eq_iff bucket b, text_eq_iff r.bucket b, text_eq_iff r.bucket bucket))
        ∙ h.row;
  }
