-- ===== src/Storage/Cleanup.antt =====
-- crates/strix-storage/src/cleanup.rs, with the operations of localfs.rs that it calls.
pub mod Cleaned
use strix.Base.{
  ℕ, ◌-◌, ◌*◌, Bool, true, false, List, [], ◌∷◌, Text, keep, map, ltb, is_empty, if◌then◌else◌,
  Option, none, some, pos,
}
use strix.Chrono.{Chrono}
use strix.Storage.Tables.{UploadRow, LocalFsStore, Instant, seconds}
use strix.Storage.Multipart.{discard_upload}

-- Durations are seconds.
pub record CleanupConfig : Type 0 where
  pub interval : ℕ
  pub multipart_max_age : ℕ
  pub enabled : Bool

abbrev pub default_config : CleanupConfig
default_config = record { interval = 3600; multipart_max_age = 7 * 24 * 3600; enabled = true }

abbrev pub disabled_config : CleanupConfig
disabled_config = record default_config { enabled = false }

pub record StaleUpload : Type 0 where
  pub upload_id : Text
  pub bucket : Text
  pub key : Text
  pub initiated_at : ℕ

abbrev pub stale_upload : UploadRow → StaleUpload
stale_upload u = record {
  upload_id = u.upload_id;
  bucket = u.bucket;
  key = u.key;
  initiated_at = u.initiated_at;
}

-- `WHERE initiated_at < ?1`, in seconds.
abbrev pub is_stale : ℕ → UploadRow → Bool
is_stale cutoff u = ltb u.initiated_at cutoff

unfoldable pub find_stale_multipart_uploads : LocalFsStore → ℕ → List StaleUpload
find_stale_multipart_uploads s cutoff = map stale_upload (keep (is_stale cutoff) s.uploads)

unfoldable pub abort_stale_multipart : LocalFsStore → Text → LocalFsStore
unfolding discard_upload
abort_stale_multipart s upload_id = discard_upload upload_id s

-- The loop over the uploads that were found.
unfoldable pub abort_all : LocalFsStore → List StaleUpload → LocalFsStore
unfolding abort_stale_multipart
abort_all s [] = s
abort_all s (u ∷ stale) = abort_all (abort_stale_multipart s u.upload_id) stale

-- `chrono::Duration::from_std(max_age).unwrap_or(chrono::Duration::days(7))`, in seconds.
unfoldable pub age_or_week : Option ℕ → ℕ
age_or_week none = 7 * 24 * 3600
age_or_week (some age) = age

-- Without the instant of the cutoff the task panics.
unfoldable pub cleanup_stale_multipart_uploads :
    Chrono → LocalFsStore → Instant → ℕ → Option LocalFsStore
unfolding find_stale_multipart_uploads abort_all age_or_week
cleanup_stale_multipart_uploads c s now max_age =
    elim (c.seconds_before now (pos (age_or_week (c.from_std max_age)))) [
      | none ↦ none
      | some cutoff ↦
          let stale_uploads = find_stale_multipart_uploads s (seconds cutoff) in
          some (if is_empty stale_uploads then s else abort_all s stale_uploads)
    ]

-- One tick of the task.
unfoldable pub cleanup_tick : Chrono → LocalFsStore → CleanupConfig → Instant → Option LocalFsStore
unfolding cleanup_stale_multipart_uploads
cleanup_tick c s config now =
    if config.enabled
    then cleanup_stale_multipart_uploads c s now config.multipart_max_age
    else some s
