-- ===== src/Storage/Locks.antt =====
-- Retention and legal holds of crates/strix-storage/src/localfs.rs.
use strix.Base.{
  update, Bool, true, false, not, ◌&&◌, Option, none, some, Text, codes, text_eq, find, ltb,
  if◌then◌else◌, Result, ok, ok_or, reject_if, ◌>>=◌, ◌>>◌,
}
use strix.Storage.Tables.{
  ObjectRow, LocalFsStore, StorageError, bucket_not_found, access_denied, internal, Instant,
  is_version, bucket_exists,
}

is_some {ℓ} : {A : Type ℓ} → Option A → Bool
is_some none = false
is_some (some a) = true

-- The date is in the future.
is_after : Instant → Option Instant → Bool
is_after now none = false
is_after now (some until) = ltb now until

-- What `object_delete_locked` finds in a row.
unfoldable pub is_locked : Instant → ObjectRow → Bool
unfolding is_some is_after
is_locked now r =
    if r.legal_hold
    then true
    else if is_some r.retention_mode
    then is_after now r.retain_until_date
    else false

unfoldable pub object_delete_locked : LocalFsStore → Instant → Text → Text → Option Text → Bool
unfolding is_locked
object_delete_locked s now bucket key version_id =
    elim (find (is_version bucket key version_id) s.objects) [
      | none ↦ false
      | some r ↦ is_locked now r
    ]

pub data RetentionMode : Type 0 where
  governance compliance : RetentionMode

unfoldable pub mode_to_text : RetentionMode → Text
mode_to_text governance = codes "GOVERNANCE"
mode_to_text compliance = codes "COMPLIANCE"

pub record ObjectRetention : Type 0 where
  pub mode : RetentionMode
  pub retain_until_date : Instant

-- The retention of a row with these columns can be changed.
unfoldable pub can_modify : Bool → Option Text → Option Instant → Bool
can_modify bypass_governance (some mode) (some until) =
    if text_eq mode (codes "COMPLIANCE")
    then false
    else if text_eq mode (codes "GOVERNANCE") && not bypass_governance
    then false
    else true
can_modify bypass_governance _ _ = true

-- The row that the first query reads; with no row there is no retention.
unfoldable pub found_modifiable : Bool → Option ObjectRow → Bool
unfolding can_modify
found_modifiable bypass_governance none = can_modify bypass_governance none none
found_modifiable bypass_governance (some r) =
    can_modify bypass_governance r.retention_mode r.retain_until_date

unfoldable pub put_object_retention :
    LocalFsStore
    → Text
    → Text
    → Option Text
    → ObjectRetention
    → Bool
    → Result StorageError LocalFsStore
unfolding bucket_exists found_modifiable mode_to_text
put_object_retention s bucket key version_id retention bypass_governance = do
  reject_if (not (bucket_exists s bucket)) (bucket_not_found bucket)
  let modifiable =
      found_modifiable bypass_governance (find (is_version bucket key version_id) s.objects)
  reject_if (not modifiable) access_denied
  ok (record s {
    objects =
        update (is_version bucket key version_id)
          (λ (r : ObjectRow). record r {
            retention_mode = some (mode_to_text retention.mode);
            retain_until_date = some retention.retain_until_date;
          })
          s.objects;
  })

unfoldable pub put_object_legal_hold :
    LocalFsStore → Text → Text → Option Text → Bool → Result StorageError LocalFsStore
unfolding bucket_exists
put_object_legal_hold s bucket key version_id hold = do
  reject_if (not (bucket_exists s bucket)) (bucket_not_found bucket)
  ok (record s {
    objects =
        update (is_version bucket key version_id)
          (λ (r : ObjectRow). record r { legal_hold = hold }) s.objects;
  })

-- `true` is `LegalHoldStatus::On`.
unfoldable pub get_object_legal_hold :
    LocalFsStore → Text → Text → Option Text → Result StorageError Bool
unfolding bucket_exists
get_object_legal_hold s bucket key version_id = do
  reject_if (not (bucket_exists s bucket)) (bucket_not_found bucket)
  r ← ok_or (find (is_version bucket key version_id) s.objects) internal
  ok r.legal_hold
