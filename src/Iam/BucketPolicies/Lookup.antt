-- ===== src/Iam/BucketPolicies/Lookup.antt =====
-- What lookups of bucket policies answer after they are set and deleted.
use strix.Base.{
  ◌≡◌, refl, inl, inr, true, false, [], ◌∷◌, ◌++◌, Option, none, some, Text, text_eq, text_eq_iff,
  text_eq_self, arith, find, remove, any, if◌then◌else◌, Bool-cases, Result, ok, err, ok_or,
  >>=-eq-ok, ok_or-eq-ok, ok-injective,
}
use strix.Condition.Context.{Externals}
use strix.BucketPolicy.{BucketPolicy}
use strix.Iam.{IamError, invalid_policy, database}
use strix.Iam.BucketPolicies.{
  PolicyJson, BucketPolicyRow, Table, is_row, parse_document, set_bucket_policy, get_bucket_policy,
  delete_bucket_policy,
}

find-set_self :
    (bucket : Text) (t : Table) (r : BucketPolicyRow)
    → text_eq r.bucket bucket ≡ true
    → find (is_row bucket) (remove (is_row bucket) t ++ r ∷ []) ≡ some r
find-set_self bucket [] r h = rw h
find-set_self bucket (q ∷ t) r h = ground (arith, find-set_self bucket t r h)

-- Rows of another bucket are found as before.
find-remove_other :
    (bucket other : Text) (t : Table)
    → text_eq bucket other ≡ false
    → find (is_row other) (remove (is_row bucket) t) ≡ find (is_row other) t
find-remove_other bucket other [] n = refl
find-remove_other bucket other (q ∷ t) n = ground (
  arith,
  find-remove_other bucket other t n,
  text_eq_iff q.bucket bucket,
  text_eq_iff q.bucket other,
  text_eq_self other,
)

find-append_other :
    (other : Text) (t : Table) (r : BucketPolicyRow)
    → text_eq r.bucket other ≡ false
    → find (is_row other) (t ++ r ∷ []) ≡ find (is_row other) t
find-append_other other [] r h = rw h refl
find-append_other other (q ∷ t) r h = ground (arith, find-append_other other t r h)

find-remove_self :
    (bucket : Text) (t : Table) → find (is_row bucket) (remove (is_row bucket) t) ≡ none
find-remove_self bucket [] = refl
find-remove_self bucket (q ∷ t) = ground (arith, find-remove_self bucket t)

module _ (x : Externals) (json : PolicyJson x.Float) where
  open x use {Float}

  -- A policy is set for a bucket, or the bucket's is deleted.
  pub data Operation : Type 0 where
    set : Text → BucketPolicy Float → Operation
    delete : Text → Operation

  abbrev pub run : Table → Operation → Result IamError Table
  run t (set bucket p) = set_bucket_policy x json t bucket p
  run t (delete bucket) = delete_bucket_policy t bucket

  -- What the parser makes of the text that is written of a policy.
  abbrev pub reread : BucketPolicy Float → Result IamError (Option (BucketPolicy Float))
  reread p = elim (json.to_string p) [
    | none ↦ err invalid_policy
    | some text ↦ elim (json.from_str text) [ none ↦ err database | some q ↦ ok (some q) ]
  ]

  -- What the lookup of a bucket answers after an operation, from its answer before.
  abbrev pub answer_after :
      Operation
      → Text
      → Result IamError (Option (BucketPolicy Float))
      → Result IamError (Option (BucketPolicy Float))
  answer_after (set bucket p) name before = if text_eq bucket name then reread p else before
  answer_after (delete bucket) name before = if text_eq bucket name then ok none else before

  get_bucket_policy-written :
      (t : Table) (bucket name : Text) (p : BucketPolicy Float) (text : Text)
      → json.to_string p ≡ some text
      → get_bucket_policy x json
          (remove (is_row bucket) t ++ record { bucket = bucket; policy_document = text } ∷ [])
          name
        ≡ answer_after (set bucket p) name (get_bucket_policy x json t name)
  unfolding get_bucket_policy parse_document
  get_bucket_policy-written t bucket name p text written =
      let row : BucketPolicyRow = record { bucket = bucket; policy_document = text } in
      elim (Bool-cases (text_eq bucket name)) [
        | inl same ↦
            let like = (text_eq_iff bucket name).0 same in
            rw (same, reread, written, ← like, find-set_self bucket t row (text_eq_self bucket))
              refl
        | inr other ↦
            rw
              (
                other,
                find-append_other name (remove (is_row bucket) t) row other,
                find-remove_other bucket name t other,
              )
              refl
      ]

  -- After a policy of a bucket is set with success, the bucket's lookup answers what the parser
  -- reads of the text that was written of it, an error where that is no policy; after one is
  -- deleted with success, that there is none; and both leave alone what the lookup of every
  -- other bucket answers.
  pub get_bucket_policy-run :
      (t t' : Table) (operation : Operation) (name : Text)
      → run t operation ≡ ok t'
      → get_bucket_policy x json t' name
        ≡ answer_after operation name (get_bucket_policy x json t name)
  unfolding get_bucket_policy set_bucket_policy delete_bucket_policy parse_document
  get_bucket_policy-run t t' (set bucket p) name e =
      let (text, written, e₁) = >>=-eq-ok (ok_or (json.to_string p) invalid_policy) _ e in
      let to_text = ok_or-eq-ok (json.to_string p) invalid_policy written in
      rw (← ok-injective e₁) (get_bucket_policy-written t bucket name p text to_text)
  get_bucket_policy-run t t' (delete bucket) name e = elim (Bool-cases (any (is_row bucket) t)) [
    | inl there ↦
        let rows : remove (is_row bucket) t ≡ t' = ground arith in
        rw (← rows) (elim (Bool-cases (text_eq bucket name)) [
          | inl same ↦
              let like = (text_eq_iff bucket name).0 same in
              rw (same, ← like, find-remove_self bucket t) refl
          | inr other ↦ rw (other, find-remove_other bucket name t other) refl
        ])
    | inr gone ↦ cc (rw (gone) at e)
  ]
