-- ===== src/Storage/Cleanup/Cleaned.antt =====
-- What a tick of the cleanup leaves.
use mathlib.Core.Option.{some-injective}
use strix.Base.{
  ℕ, ◌≡◌, refl, sym, ap, ◌∙◌, Bool, true, false, ◌&&◌, ◌||◌, List, [], ◌∷◌, Text, text_eq, arith,
  any, remove, keep, map, is_empty, if◌then◌else◌, Option, none, some, pos,
}
use strix.Chrono.{Chrono}
use strix.Storage.Tables.{UploadRow, PartRow, PartFile, LocalFsStore, Instant, seconds}
use strix.Storage.Multipart.{discard_upload}
use strix.Storage.Cleanup.{
  CleanupConfig, StaleUpload, stale_upload, is_stale, find_stale_multipart_uploads, abort_all,
  abort_stale_multipart, cleanup_stale_multipart_uploads, cleanup_tick, age_or_week,
}

remove-remove :
    {A : Type 0} (f g : A → Bool) (xs : List A)
    → remove g (remove f xs) ≡ remove (λ x. f x || g x) xs
remove-remove f g [] = refl
remove-remove f g (x ∷ xs) = ground (arith, remove-remove f g xs)

remove-none : {A : Type 0} (xs : List A) → remove (λ x. false) xs ≡ xs
remove-none [] = refl
remove-none (x ∷ xs) = ap (λ (t : List _). x ∷ t) (remove-none xs)

remove-same :
    {A : Type 0} (f g : A → Bool) (xs : List A) → ((x : A) → f x ≡ g x) → remove f xs ≡ remove g xs
remove-same f g [] h = refl
remove-same f g (x ∷ xs) h = ground (arith, h x, remove-same f g xs h)

-- Is the id that of an upload that is older than the cutoff?
abbrev pub is_stale_id : List UploadRow → ℕ → Text → Bool
is_stale_id uploads cutoff id =
    any (λ (u : UploadRow). is_stale cutoff u && text_eq id u.upload_id) uploads

-- The store without the rows and files of the ids that pass a test.
abbrev pub without : (Text → Bool) → LocalFsStore → LocalFsStore
without gone s = record s {
  uploads = remove (λ (u : UploadRow). gone u.upload_id) s.uploads;
  parts = remove (λ (p : PartRow). gone p.upload_id) s.parts;
  part_files = remove (λ (f : PartFile). gone f.upload_id) s.part_files;
}

abbrev named : List StaleUpload → Text → Bool
named stale id = any (λ (u : StaleUpload). text_eq id u.upload_id) stale

store_same :
    (s : LocalFsStore) (u u' : List UploadRow) (p p' : List PartRow) (f f' : List PartFile)
    → u ≡ u'
    → p ≡ p'
    → f ≡ f'
    → record s { uploads = u; parts = p; part_files = f }
      ≡ record s { uploads = u'; parts = p'; part_files = f' }
store_same s u u' p p' f f' a b c = rw (a, b, c) refl

abort_all-without :
    (s : LocalFsStore) (stale : List StaleUpload) → abort_all s stale ≡ without (named stale) s
unfolding abort_all abort_stale_multipart discard_upload
abort_all-without s [] =
    store_same s _ _ _ _ _ _ (sym (remove-none s.uploads)) (sym (remove-none s.parts))
      (sym (remove-none s.part_files))
abort_all-without s (x ∷ stale) =
    abort_all-without (abort_stale_multipart s x.upload_id) stale
    ∙ store_same s _ _ _ _ _ _ (remove-remove _ _ s.uploads) (remove-remove _ _ s.parts)
        (remove-remove _ _ s.part_files)

named-stale :
    (uploads : List UploadRow) (cutoff : ℕ) (id : Text)
    → named (map stale_upload (keep (is_stale cutoff) uploads)) id ≡ is_stale_id uploads cutoff id
named-stale [] cutoff id = refl
named-stale (u ∷ uploads) cutoff id = ground (arith, named-stale uploads cutoff id)

without-same :
    (s : LocalFsStore) (f g : Text → Bool) → ((id : Text) → f id ≡ g id) → without f s ≡ without g s
without-same s f g h =
    store_same s _ _ _ _ _ _ (remove-same _ _ s.uploads (λ u. h u.upload_id))
      (remove-same _ _ s.parts (λ p. h p.upload_id))
      (remove-same _ _ s.part_files (λ p. h p.upload_id))

even_if_empty :
    (s : LocalFsStore) (stale : List StaleUpload)
    → (if is_empty stale then s else abort_all s stale) ≡ abort_all s stale
unfolding abort_all
even_if_empty s [] = refl
even_if_empty s (u ∷ stale) = refl

-- The age of the oldest upload that stays: the configured one, or a week where chrono has no such
-- duration.
abbrev pub kept_age : Chrono → CleanupConfig → ℕ
kept_age c config = elim (c.from_std config.multipart_max_age) [ none ↦ 604800 | some age ↦ age ]

unwrapped : (o : Option ℕ) → age_or_week o ≡ elim o [ none ↦ 604800 | some age ↦ age ]
unfolding age_or_week
unwrapped none = refl
unwrapped (some age) = refl

tick_at :
    (c : Chrono) (s : LocalFsStore) (config : CleanupConfig) (now : Instant) (at : Option Instant)
    → config.enabled ≡ true
    → c.seconds_before now (pos (kept_age c config)) ≡ at
    → cleanup_tick c s config now ≡ elim at [
      | none ↦ none
      | some cutoff ↦
          let stale = find_stale_multipart_uploads s (seconds cutoff) in
          some (if is_empty stale then s else abort_all s stale)
    ]
unfolding cleanup_tick cleanup_stale_multipart_uploads
tick_at c s config now at on e =
    rw (on, cleanup_stale_multipart_uploads, unwrapped (c.from_std config.multipart_max_age), e)

aborted-without :
    (s : LocalFsStore) (oldest : ℕ)
    → (if is_empty (find_stale_multipart_uploads s oldest)
        then s
        else abort_all s (find_stale_multipart_uploads s oldest))
      ≡ without (is_stale_id s.uploads oldest) s
unfolding find_stale_multipart_uploads
aborted-without s oldest =
    let stale = map stale_upload (keep (is_stale oldest) s.uploads) in
    even_if_empty s stale
    ∙ abort_all-without s stale
    ∙ without-same s (named stale) (is_stale_id s.uploads oldest) (named-stale s.uploads oldest)

-- What a tick that did not panic has done.
pub cleanup_tick_inv :
    (c : Chrono) (s t : LocalFsStore) (config : CleanupConfig) (now : Instant) (at : Option Instant)
    → config.enabled ≡ true
    → c.seconds_before now (pos (kept_age c config)) ≡ at
    → cleanup_tick c s config now ≡ some t
    → (oldest : ℕ) × (t ≡ without (is_stale_id s.uploads oldest) s)
cleanup_tick_inv c s t config now none on e h = cc (sym (tick_at c s config now none on e) ∙ h)
cleanup_tick_inv c s t config now (some cutoff) on e h =
    let same = some-injective _ _ (sym (tick_at c s config now (some cutoff) on e) ∙ h) in
    (seconds cutoff, sym same ∙ aborted-without s (seconds cutoff))
