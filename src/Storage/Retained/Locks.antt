-- ===== src/Storage/Retained/Locks.antt =====
-- Changes of legal holds and of retention keep the version.
use strix.Base.{
  ◌<◌, ◌≡◌, refl, ap, ◌∙◌, Bool, true, false, not, Option, some, Text, codes, arith, text_eq, find,
  found-read, read-update, read-update_other, ok, reject_if, >>=-eq-ok, reject_if-eq-ok,
  ok-injective,
}
use strix.Storage.Tables.{LocalFsStore, Instant, is_version, bucket_exists}
use strix.Storage.Locks.{
  is_locked, object_delete_locked, ObjectRetention, found_modifiable, can_modify,
  put_object_retention, put_object_legal_hold,
}
use strix.Storage.Retained.{protection, IsRetained, Keeps, names_apart, apart}

module _ (bucket key v : Text) (until : Instant) (id : Text) where
  pub locked_here :
      (s : LocalFsStore) (now : Instant)
      → IsRetained bucket key v until id s
      → now < until
      → object_delete_locked s now bucket key (some v) ≡ true
  unfolding object_delete_locked is_locked
  locked_here s now h early =
      let (q, found, e) = found-read protection (is_version bucket key (some v)) s.objects h.row in
      let mode : q.retention_mode ≡ some (codes "COMPLIANCE") = ap (λ p. p.1) e in
      let date : q.retain_until_date ≡ some until = ap (λ p. p.2) e in
      rw (object_delete_locked, found, is_locked, mode, date) (ground arith)

  pub hold-Keeps :
      (s s' : LocalFsStore) (b k : Text) (version : Option Text) (hold : Bool)
      → put_object_legal_hold s b k version hold ≡ ok s'
      → Keeps bucket key v until id s s'
  unfolding put_object_legal_hold
  hold-Keeps s s' b k version hold e h =
      let (_, _, e₁) = >>=-eq-ok (reject_if (not (bucket_exists s b)) _) _ e in
      rw (← ok-injective e₁) (record {
        versioned = h.versioned;
        row =
            read-update protection (is_version bucket key (some v)) _ _ s.objects (λ q. refl)
              (λ q. refl)
            ∙ h.row;
      })

  not_modifiable :
      (s : LocalFsStore) (bypass : Bool)
      → IsRetained bucket key v until id s
      → found_modifiable bypass (find (is_version bucket key (some v)) s.objects) ≡ false
  unfolding found_modifiable can_modify text_eq
  not_modifiable s bypass h =
      let (q, found, e) = found-read protection (is_version bucket key (some v)) s.objects h.row in
      let mode : q.retention_mode ≡ some (codes "COMPLIANCE") = ap (λ p. p.1) e in
      let date : q.retain_until_date ≡ some until = ap (λ p. p.2) e in rw (found, mode, date) refl

  pub retention-Keeps :
      (s s' : LocalFsStore) (b k w : Text) (retention : ObjectRetention) (bypass : Bool)
      → put_object_retention s b k (some w) retention bypass ≡ ok s'
      → Keeps bucket key v until id s s'
  unfolding put_object_retention
  retention-Keeps s s' b k w retention bypass e h =
      let (_, _, e₁) = >>=-eq-ok (reject_if (not (bucket_exists s b)) _) _ e in
      let (_, allowed, e₂) =
        >>=-eq-ok
          (reject_if (not (found_modifiable bypass (find (is_version b k (some w)) s.objects))) _) _
          e₁ in
      let other = names_apart bucket key v until id b k w (λ (d₁, d₂, d₃).
        let fixed : found_modifiable bypass (find (is_version b k (some w)) s.objects) ≡ false =
          rw (← d₁, ← d₂, ← d₃) (not_modifiable s bypass h) in
        let free = reject_if-eq-ok (not (found_modifiable bypass _)) _ allowed in ground arith) in
      rw (← ok-injective e₂) (record {
        versioned = h.versioned;
        row =
            read-update_other protection (is_version bucket key (some v)) (is_version b k (some w))
              _ s.objects (λ q. refl) (λ q t. apart bucket key v until id b k w q other t)
            ∙ h.row;
      })
