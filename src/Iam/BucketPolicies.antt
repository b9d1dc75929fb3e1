-- ===== src/Iam/BucketPolicies.antt =====
-- The table `bucket_policies` of crates/strix-iam/src/store.rs, and authorization by it.
pub mod Lookup
use strix.Base.{
  Bool, true, List, [], ◌∷◌, ◌++◌, Option, none, some, Text, text_eq, any, find, remove,
  if◌then◌else◌, Result, ok, err, ok_or, ◌>>=◌, ◌≡◌, refl, codes,
}
use strix.Effect.{Effect}
use strix.Action.{Action}
use strix.Resource.{Resource}
use strix.Condition.Context.{Externals}
use strix.BucketPolicy
use strix.BucketPolicy.{BucketPolicy, Principal}
use strix.Iam.{IamError, policy_not_found, invalid_policy, database}

-- `serde_json` writes a policy as a text and reads a text as a policy, where it can.
pub record PolicyJson (F : Type 0) : Type 0 where
  pub to_string : BucketPolicy F → Option Text
  pub from_str : Text → Option (BucketPolicy F)

pub record BucketPolicyRow : Type 0 where
  pub bucket : Text
  pub policy_document : Text

abbrev pub Table : Type 0
Table = List BucketPolicyRow

abbrev pub is_row : Text → BucketPolicyRow → Bool
is_row bucket r = text_eq r.bucket bucket

unfoldable pub delete_bucket_policy : Table → Text → Result IamError Table
delete_bucket_policy t bucket =
    if any (is_row bucket) t
    then ok (remove (is_row bucket) t)
    else err (policy_not_found (codes "Bucket policy for '" ++ bucket ++ codes "'"))

module _ (x : Externals) (json : PolicyJson x.Float) where
  open x use {Float}

  -- `INSERT OR REPLACE`
  unfoldable pub set_bucket_policy : Table → Text → BucketPolicy Float → Result IamError Table
  set_bucket_policy t bucket p = do
    policy_doc ← ok_or (json.to_string p) invalid_policy
    ok (remove (is_row bucket) t ++ record { bucket = bucket; policy_document = policy_doc } ∷ [])

  -- A stored text that is no policy is an error here, other than in the policies of users.
  unfoldable pub parse_document : Text → Result IamError (Option (BucketPolicy Float))
  parse_document doc = elim (json.from_str doc) [ none ↦ err database | some p ↦ ok (some p) ]

  read_row : Option BucketPolicyRow → Result IamError (Option (BucketPolicy Float))
  unfolding parse_document
  read_row none = ok none
  read_row (some r) = parse_document r.policy_document

  unfoldable pub get_bucket_policy : Table → Text → Result IamError (Option (BucketPolicy Float))
  unfolding read_row
  get_bucket_policy t bucket = read_row (find (is_row bucket) t)

  evaluate_found : Principal → Action → Resource → Option (BucketPolicy Float) → Option Effect
  evaluate_found principal action resource none = none
  evaluate_found principal action resource (some p) =
      BucketPolicy.evaluate x p principal action resource

  unfoldable pub is_authorized_by_bucket_policy :
      Table → Text → Principal → Action → Resource → Result IamError (Option Effect)
  unfolding evaluate_found
  is_authorized_by_bucket_policy t bucket principal action resource = do
    policy ← get_bucket_policy t bucket
    ok (evaluate_found principal action resource policy)

  -- With a policy in the table, authorization is its evaluation.
  pub authorized-found :
      (t : Table) (bucket : Text) (principal : Principal) (action : Action) (resource : Resource)
      (p : BucketPolicy Float)
      → get_bucket_policy t bucket ≡ ok (some p)
      → is_authorized_by_bucket_policy t bucket principal action resource
        ≡ ok (BucketPolicy.evaluate x p principal action resource)
  unfolding is_authorized_by_bucket_policy evaluate_found
  authorized-found t bucket principal action resource p h = rw h refl
