-- ===== src/Policy.antt =====
-- `Policy` and `PolicyStatement` of crates/strix-iam/src/policy.rs.
pub mod Evaluate
use strix.Base.{
  Bool, true, false, ◌&&◌, ◌||◌, List, [], ◌∷◌, Option, none, Text, codes, text_eq, any,
}
use strix.Wildcard.{matches_wildcard}
use strix.Effect.{Effect, allow, evaluate_loop}
use strix.Action
use strix.Action.{Action}
use strix.Resource
use strix.Resource.{Resource}

pub record PolicyStatement : Type 0 where
  pub effect : Effect
  pub actions : List Text
  pub resources : List Text

pub record Policy : Type 0 where
  pub name : Text
  pub version : Text
  pub statements : List PolicyStatement

abbrev pub default_version : Text
default_version = codes "2012-10-17"

unfoldable pub new : Text → List PolicyStatement → Policy
new name statements = record { name = name; version = default_version; statements = statements }

unfoldable pub matches_action : PolicyStatement → Action → Bool
matches_action s action =
    any
      (λ pattern.
        text_eq pattern (codes "*")
        || text_eq pattern (codes "s3:*")
        || matches_wildcard pattern (Action.to_text action))
      s.actions

unfoldable pub matches_resource : PolicyStatement → Resource → Bool
matches_resource s resource =
    any
      (λ pattern.
        text_eq pattern (codes "*") || matches_wildcard pattern (Resource.to_text resource))
      s.resources

unfoldable pub matches : PolicyStatement → Action → Resource → Bool
unfolding matches_action matches_resource
matches s action resource = matches_action s action && matches_resource s resource

unfoldable pub evaluate : Policy → Action → Resource → Option Effect
unfolding evaluate_loop
evaluate p action resource =
    evaluate_loop (λ s. matches s action resource) (λ (s : PolicyStatement). s.effect) p.statements
      none

-- The predefined policies.
unfoldable pub admin_policy : Policy
unfolding new
admin_policy =
    new (codes "AdministratorAccess")
      (record { effect = allow; actions = codes "*" ∷ []; resources = codes "*" ∷ [] } ∷ [])

unfoldable pub read_only_policy : Policy
unfolding new
read_only_policy = new (codes "ReadOnlyAccess") (
    record {
      effect = allow;
      actions =
          codes "s3:GetObject"
          ∷ codes "s3:HeadObject"
          ∷ codes "s3:ListBucket"
          ∷ codes "s3:ListAllMyBuckets"
          ∷ codes "s3:HeadBucket"
          ∷ codes "s3:GetBucketLocation"
          ∷ [];
      resources = codes "*" ∷ [];
    }
    ∷ [])

unfoldable pub read_write_policy : Policy
unfolding new
read_write_policy = new (codes "ReadWriteAccess") (
    record {
      effect = allow;
      actions =
          codes "s3:GetObject"
          ∷ codes "s3:PutObject"
          ∷ codes "s3:DeleteObject"
          ∷ codes "s3:HeadObject"
          ∷ codes "s3:ListBucket"
          ∷ codes "s3:ListAllMyBuckets"
          ∷ codes "s3:HeadBucket"
          ∷ codes "s3:GetBucketLocation"
          ∷ codes "s3:ListMultipartUploadParts"
          ∷ codes "s3:AbortMultipartUpload"
          ∷ codes "s3:ListBucketMultipartUploads"
          ∷ [];
      resources = codes "*" ∷ [];
    }
    ∷ [])
