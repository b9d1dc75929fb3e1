-- ===== src/Storage/Retained/Buckets.antt =====
-- Operations on buckets keep the version.
use strix.Base.{
  ◌≡◌, refl, ◌∙◌, ◌≢◌, ◌⊎◌, inl, inr, Bool, true, false, not, List, [], ◌∷◌, Option, some, Text,
  codes, arith, text_eq, text_eq_iff, any, update, read, any-read, any-weaken, read-append,
  read-remove, read-update_other, Bool-cases, ok, reject_if, >>=-eq-ok, reject_if-eq-ok,
  ok-injective,
}
use strix.Storage.Tables.{
  as_str, BucketRow, ObjectRow, LocalFsStore, Instant, is_version, bucket_exists,
}
use strix.Storage.Buckets.{
  validate_bucket_name, create_bucket, delete_bucket, set_bucket_versioning,
}
use strix.Storage.Retained.{protection, is_bucket, status, IsRetained, Keeps}

module _ (bucket key v : Text) (until : Instant) (id : Text) where
  pub created-Keeps :
      (s s' : LocalFsStore) (now : Instant) (b : Text) (region tenant : Option Text)
      → create_bucket s now b region tenant ≡ ok s'
      → Keeps bucket key v until id s s'
  unfolding create_bucket
  created-Keeps s s' now b region tenant e h =
      let (_, _, e₁) = >>=-eq-ok (validate_bucket_name b) _ e in
      let (_, _, e₂) = >>=-eq-ok (reject_if (bucket_exists s b) _) _ e₁ in
      rw (← ok-injective e₂) (record {
        versioned = read-append status (is_bucket bucket) s.buckets _ h.versioned;
        row = h.row;
      })

  -- A bucket that holds the version is not empty.
  not_deleted :
      (s : LocalFsStore) (b : Text)
      → any (λ (r : ObjectRow). text_eq r.bucket b) s.objects ≡ false
      → IsRetained bucket key v until id s
      → text_eq bucket b ≡ false
  not_deleted s b empty h = elim (Bool-cases (text_eq bucket b)) [
    | inr n ↦ n
    | inl e ↦
        let full =
          any-weaken (is_version bucket key (some v)) (λ (r : ObjectRow). text_eq r.bucket b)
            s.objects
            (λ r t.
              ground
                (arith, text_eq_iff bucket b, text_eq_iff r.bucket bucket, text_eq_iff r.bucket b))
            (any-read protection (is_version bucket key (some v)) s.objects h.row) in
        cc
  ]

  pub deleted-Keeps :
      (s s' : LocalFsStore) (b : Text)
      → delete_bucket s b ≡ ok s'
      → Keeps bucket key v until id s s'
  unfolding delete_bucket
  deleted-Keeps s s' b e h =
      let (_, _, e₁) = >>=-eq-ok (reject_if (not (bucket_exists s b)) _) _ e in
      let (u, empty, e₂) =
        >>=-eq-ok (reject_if (any (λ (r : ObjectRow). text_eq r.bucket b) s.objects) _) _ e₁ in
      let other = not_deleted s b (reject_if-eq-ok _ _ empty) h in
      rw (← ok-injective e₂) (record {
        versioned =
            read-remove status (is_bucket bucket) (is_bucket b) s.buckets (λ x t.
              ground (arith, text_eq_iff x.name b, text_eq_iff x.name bucket, text_eq_iff bucket b))
            ∙ h.versioned;
        row = h.row;
      })

  -- Enabling the versioning of an enabled bucket changes nothing.
  read-enabled :
      (b : Text) (rows : List BucketRow)
      → text_eq b bucket ≡ true
      → any (is_bucket bucket) rows ≡ true
      → read status (is_bucket bucket) (
          update
            (is_bucket b)
            (λ (r : BucketRow). record r { versioning_status = codes "Enabled" })
            rows)
        ≡ some (codes "Enabled")
  read-enabled b [] t h = cc
  read-enabled b (r ∷ rows) t h = ground (
    arith,
    read-enabled b rows t,
    text_eq_iff b bucket,
    text_eq_iff r.name b,
    text_eq_iff r.name bucket,
  )

  pub versioning-Keeps :
      (s s' : LocalFsStore) (b : Text) (on : Bool)
      → (b ≢ bucket) ⊎ (on ≡ true)
      → set_bucket_versioning s b on ≡ ok s'
      → Keeps bucket key v until id s s'
  unfolding set_bucket_versioning as_str
  versioning-Keeps s s' b on n e h =
      let (_, _, e₁) = >>=-eq-ok (reject_if (not (bucket_exists s b)) _) _ e in
      rw (← ok-injective e₁) (record {
        versioned = elim (Bool-cases (text_eq b bucket)) [
          | inl t ↦ elim n [
            | inl other ↦ absurd (other ((text_eq_iff b bucket).0 t))
            | inr enabling ↦ rw enabling (
                read-enabled b s.buckets t
                  (any-read status (is_bucket bucket) s.buckets h.versioned))
          ]
          | inr t ↦
              read-update_other status (is_bucket bucket) (is_bucket b) _ s.buckets (λ x. refl)
                (λ x u.
                  ground
                    (arith, text_eq_iff x.name b, text_eq_iff x.name bucket, text_eq_iff b bucket))
              ∙ h.versioned
        ];
        row = h.row;
      })
