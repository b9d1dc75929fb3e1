-- ===== src/Iam/Authorize.antt =====
-- `is_authorized` and `is_authorized_detailed` of crates/strix-iam/src/store.rs.
pub mod Same
pub mod Rule
use strix.Base.{Bool, true, false, List, [], ◌∷◌, ◌++◌, Option, none, some, Text, if◌then◌else◌}
use strix.Effect.{Effect, allow, deny}
use strix.Action.{Action}
use strix.Resource.{Resource}
use strix.Policy
use strix.Policy.{Policy}
use strix.Iam.{IamStore, is_root_name, list_user_policies, list_group_policies, list_user_groups}

-- The user's policies and, group by group, those of the groups.
extend : IamStore → List Text → List Policy → List Policy
extend s [] all_policies = all_policies
extend s (g ∷ groups) all_policies = extend s groups (all_policies ++ list_group_policies s g)

-- `for policy in &all_policies`, with `allowed` as the loop's variable.
authorize_loop : Action → Resource → List Policy → Bool → Bool
authorize_loop action resource [] allowed = allowed
authorize_loop action resource (p ∷ policies) allowed = elim (Policy.evaluate p action resource) [
  | some deny ↦ false
  | some allow ↦ authorize_loop action resource policies true
  | none ↦ authorize_loop action resource policies allowed
]

unfoldable pub is_authorized : IamStore → Text → Action → Resource → Bool
unfolding extend authorize_loop
is_authorized s username action resource =
    if is_root_name s username
    then true
    else authorize_loop action resource
        (extend s (list_user_groups s username) (list_user_policies s username)) false

pub data AuthorizationEffect : Type 0 where
  explicit_allow explicit_deny implicit_deny root_access : AuthorizationEffect

pub data PolicySource : Type 0 where
  user group bucket : Text → PolicySource

pub record AuthorizationResult : Type 0 where
  pub allowed : Bool
  pub effect : AuthorizationEffect
  pub matched_policy : Option Text
  pub matched_statement : Option Text
  pub policy_source : Option PolicySource

abbrev pub root_result : AuthorizationResult
root_result = record {
  allowed = true;
  effect = root_access;
  matched_policy = none;
  matched_statement = none;
  policy_source = none;
}

abbrev pub implicit_result : AuthorizationResult
implicit_result = record {
  allowed = false;
  effect = implicit_deny;
  matched_policy = none;
  matched_statement = none;
  policy_source = none;
}

-- The result for a policy with this effect.
abbrev pub explicit : Effect → Policy → PolicySource → AuthorizationResult
explicit deny p source = record {
  allowed = false;
  effect = explicit_deny;
  matched_policy = some p.name;
  matched_statement = none;
  policy_source = some source;
}
explicit allow p source = record {
  allowed = true;
  effect = explicit_allow;
  matched_policy = some p.name;
  matched_statement = none;
  policy_source = some source;
}

-- `if let Some(e) = policy.evaluate(action, resource)` for one effect `e`.
unfoldable pub answers : Effect → Option Effect → Bool
answers deny (some deny) = true
answers allow (some allow) = true
answers _ _ = false

module _ (action : Action) (resource : Resource) (e : Effect) where
  -- The first of the policies with the effect `e`.
  first_match : PolicySource → List Policy → Option AuthorizationResult
  unfolding answers
  first_match source [] = none
  first_match source (p ∷ policies) =
      if answers e (Policy.evaluate p action resource)
      then some (explicit e p source)
      else first_match source policies

  or_else : Option AuthorizationResult → Option AuthorizationResult → Option AuthorizationResult
  or_else (some r) o = some r
  or_else none o = o

  -- The groups in turn.
  first_group_match : IamStore → List Text → Option AuthorizationResult
  unfolding first_match or_else
  first_group_match s [] = none
  first_group_match s (g ∷ groups) =
      or_else (first_match (group g) (list_group_policies s g)) (first_group_match s groups)

  -- One pass: the user's policies, then those of the groups.
  pass : IamStore → Text → Option AuthorizationResult
  unfolding first_match first_group_match
  pass s username =
      or_else (first_match (user username) (list_user_policies s username))
        (first_group_match s (list_user_groups s username))

-- The first pass looks for denies, the second for allows.
detailed : Option AuthorizationResult → Option AuthorizationResult → AuthorizationResult
detailed (some r) o = r
detailed none (some r) = r
detailed none none = implicit_result

unfoldable pub is_authorized_detailed : IamStore → Text → Action → Resource → AuthorizationResult
unfolding pass detailed
is_authorized_detailed s username action resource =
    if is_root_name s username
    then root_result
    else detailed (pass action resource deny s username) (pass action resource allow s username)
