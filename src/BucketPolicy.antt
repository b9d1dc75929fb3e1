-- ===== src/BucketPolicy.antt =====
-- Bucket policies of crates/strix-iam/src/policy.rs: `BucketPolicy`, its statements and principals.
pub mod Evaluate
pub mod Addresses
use strix.Base.{
  Bool, true, false, ◌&&◌, ◌||◌, List, [], ◌∷◌, ◌++◌, Option, none, some, Text, codes, text_eq,
  ends_with, any, if◌then◌else◌,
}
use strix.Wildcard.{matches_wildcard}
use strix.Effect.{Effect, allow, deny, evaluate_loop}
use strix.Action
use strix.Action.{Action}
use strix.Resource
use strix.Resource.{Resource, arn_prefix}
use strix.Policy.{default_version}
use strix.Condition.{evaluate_condition}
use strix.Condition.Context.{ConditionContext, Externals, default_context}
use strix.Condition.Value.{Json}

-- Who makes a request.
pub data Principal : Type 0 where
  anonymous : Principal
  user : Text → Principal
  arn : Text → Principal

pub data PrincipalSpec : Type 0 where
  wildcard : PrincipalSpec
  aws : List Text → PrincipalSpec

pub data ActionSpec : Type 0 where
  single : Text → ActionSpec
  multiple : List Text → ActionSpec

pub data ResourceSpec : Type 0 where
  single : Text → ResourceSpec
  multiple : List Text → ResourceSpec

unfoldable pub action_list : ActionSpec → List Text
action_list (ActionSpec.single a) = a ∷ []
action_list (ActionSpec.multiple a) = a

unfoldable pub resource_list : ResourceSpec → List Text
resource_list (ResourceSpec.single r) = r ∷ []
resource_list (ResourceSpec.multiple r) = r

-- `F` is the type of the floats in conditions.
pub record BucketPolicyStatement (F : Type 0) : Type 0 where
  pub sid : Option Text
  pub effect : Effect
  pub principal : PrincipalSpec
  pub actions : ActionSpec
  pub resources : ResourceSpec
  pub condition : Option (Json F)

pub record BucketPolicy (F : Type 0) : Type 0 where
  pub version : Text
  pub id : Option Text
  pub statements : List (BucketPolicyStatement F)

unfoldable pub with_id : {F : Type 0} → Text → List (BucketPolicyStatement F) → BucketPolicy F
with_id id statements = record { version = default_version; id = some id; statements = statements }

-- One round of the loop over the listed principals.
unfoldable pub names : Principal → Text → Bool
names anonymous p = text_eq p (codes "*")
names (user u) p = text_eq p (codes "*") || text_eq p u || ends_with p (codes "user/" ++ u)
names (arn a) p = text_eq p (codes "*") || text_eq p a || matches_wildcard p a

unfoldable pub matches_principal : PrincipalSpec → Principal → Bool
unfolding names
matches_principal wildcard principal = true
matches_principal (aws principals) principal =
    any (λ p. text_eq p (codes "*") || names principal p) principals

unfoldable pub matches_action : ActionSpec → Action → Bool
unfolding action_list
matches_action spec action =
    any
      (λ pattern.
        text_eq pattern (codes "*")
        || text_eq pattern (codes "s3:*")
        || matches_wildcard pattern (Action.to_text action))
      (action_list spec)

unfoldable pub matches_resource : ResourceSpec → Resource → Bool
unfolding resource_list
matches_resource spec resource =
    any
      (λ pattern.
        text_eq pattern (codes "*") || matches_wildcard pattern (Resource.to_text resource))
      (resource_list spec)

module _ (x : Externals) where
  open x use {Float}

  unfoldable pub matches_condition : Option (Json Float) → ConditionContext → Bool
  matches_condition none context = true
  matches_condition (some condition) context = evaluate_condition x condition context

  unfoldable pub matches_with_context :
      BucketPolicyStatement Float → Principal → Action → Resource → ConditionContext → Bool
  unfolding matches_condition
  matches_with_context s principal action resource context =
      matches_principal s.principal principal
      && matches_action s.actions action
      && matches_resource s.resources resource
      && matches_condition s.condition context

  unfoldable pub evaluate_with_context :
      BucketPolicy Float → Principal → Action → Resource → ConditionContext → Option Effect
  unfolding evaluate_loop
  evaluate_with_context p principal action resource context =
      evaluate_loop (λ s. matches_with_context s principal action resource context)
        (λ (s : BucketPolicyStatement Float). s.effect) p.statements none

  -- The evaluation that the S3 service uses: it gives no context.
  unfoldable pub evaluate : BucketPolicy Float → Principal → Action → Resource → Option Effect
  unfolding evaluate_with_context
  evaluate p principal action resource =
      evaluate_with_context p principal action resource default_context

-- The predefined policies of a bucket.
unfoldable pub public_read_policy : {F : Type 0} → Text → BucketPolicy F
unfolding with_id
public_read_policy bucket = with_id (codes "PublicRead") (
    record {
      sid = some (codes "AllowPublicRead");
      effect = allow;
      principal = wildcard;
      actions = ActionSpec.multiple (codes "s3:GetObject" ∷ codes "s3:HeadObject" ∷ []);
      resources = ResourceSpec.single (arn_prefix ++ (bucket ++ codes "/*"));
      condition = none;
    }
    ∷ [])

unfoldable pub block_public_access_policy : {F : Type 0} → Text → BucketPolicy F
unfolding with_id
block_public_access_policy bucket = with_id (codes "BlockPublicAccess") (
    record {
      sid = some (codes "DenyPublicAccess");
      effect = deny;
      principal = wildcard;
      actions = ActionSpec.single (codes "s3:*");
      resources =
          ResourceSpec.multiple
            ((arn_prefix ++ bucket) ∷ (arn_prefix ++ (bucket ++ codes "/*")) ∷ []);
      condition = none;
    }
    ∷ [])
