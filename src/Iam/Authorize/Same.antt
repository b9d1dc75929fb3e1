-- ===== src/Iam/Authorize/Same.antt =====
-- The detailed authorization of the policy simulator decides as the authorization of requests does.
use strix.Base.{
  ◌≡◌, refl, Bool, true, false, not, ◌&&◌, ◌||◌, List, [], ◌∷◌, Option, none, some, Text, arith,
  any-append, if◌then◌else◌,
}
use mathlib.Core.Option
use strix.Effect.{Effect, allow, deny}
use strix.Action.{Action}
use strix.Resource.{Resource}
use strix.Policy.{Policy}
use strix.Iam.{IamStore, is_root_name, list_user_policies, list_group_policies, list_user_groups}
use strix.Iam.Authorize.{
  AuthorizationEffect, explicit_allow, explicit_deny, implicit_deny, root_access, PolicySource,
  user, group, AuthorizationResult, first_match, or_else, first_group_match, pass, detailed,
  answers, explicit, is_authorized, is_authorized_detailed,
}
use strix.Iam.Authorize.Rule.{some_answers, group_policies_of, all_policies, is_authorized_lem}

-- What a result says, without the policy that it names.
abbrev Summary : Type 0
Summary = Bool × AuthorizationEffect

abbrev summary : AuthorizationResult → Summary
summary r = (r.allowed, r.effect)

abbrev explicit_summary : Effect → Summary
explicit_summary deny = (false, explicit_deny)
explicit_summary allow = (true, explicit_allow)

abbrev found : Effect → Bool → Option Summary
found e b = if b then some (explicit_summary e) else none

explicit_lem :
    (e : Effect) (p : Policy) (source : PolicySource)
    → summary (explicit e p source) ≡ explicit_summary e
explicit_lem deny p source = refl
explicit_lem allow p source = refl

module _ (action : Action) (resource : Resource) (e : Effect) where
  or_else_lem :
      (a b : Bool) (o p : Option AuthorizationResult)
      → Option.map summary o ≡ found e a
      → Option.map summary p ≡ found e b
      → Option.map summary (or_else action resource e o p) ≡ found e (a || b)
  unfolding or_else
  or_else_lem true b (some r) p h k = h
  or_else_lem true b none p h k = cc
  or_else_lem false b (some r) p h k = cc
  or_else_lem false b none p h k = k

  first_match_lem :
      (source : PolicySource) (ps : List Policy)
      → Option.map summary (first_match action resource e source ps)
        ≡ found e (some_answers action resource e ps)
  unfolding first_match answers
  first_match_lem source [] = refl
  first_match_lem source (p ∷ ps) =
      ground (arith, first_match_lem source ps, explicit_lem e p source)

  first_group_match_lem :
      (s : IamStore) (groups : List Text)
      → Option.map summary (first_group_match action resource e s groups)
        ≡ found e (some_answers action resource e (group_policies_of s groups))
  unfolding first_group_match group_policies_of
  first_group_match_lem s [] = refl
  first_group_match_lem s (g ∷ groups) = rw any-append (
      or_else_lem _ _ _ _ (first_match_lem (group g) (list_group_policies s g))
        (first_group_match_lem s groups))

  pass_lem :
      (s : IamStore) (username : Text)
      → Option.map summary (pass action resource e s username)
        ≡ found e (some_answers action resource e (all_policies s username))
  unfolding pass all_policies
  pass_lem s username = rw any-append (
      or_else_lem _ _ _ _ (first_match_lem (user username) (list_user_policies s username))
        (first_group_match_lem s (list_user_groups s username)))

-- The effect that decides.
abbrev pub deciding_effect : (root denied allowed : Bool) → AuthorizationEffect
deciding_effect root denied allowed =
    if root
    then root_access
    else if denied
    then explicit_deny
    else if allowed
    then explicit_allow
    else implicit_deny

detailed_lem :
    (d a : Bool) (o p : Option AuthorizationResult)
    → Option.map summary o ≡ found deny d
    → Option.map summary p ≡ found allow a
    → summary (detailed o p) ≡ (not d && a, deciding_effect false d a)
unfolding detailed
detailed_lem true a (some r) p h k = ground arith
detailed_lem true a none p h k = cc
detailed_lem false a (some r) p h k = cc
detailed_lem false true none (some r) h k = ground arith
detailed_lem false false none (some r) h k = cc
detailed_lem false true none none h k = cc
detailed_lem false false none none h k = refl

-- The simulator allows exactly what the authorization of requests allows, and names the effect
-- that decides: root, then a deny of any policy, then an allow of any policy, then the default.
pub is_authorized_detailed_lem :
    (s : IamStore) (username : Text) (action : Action) (resource : Resource)
    → ((is_authorized_detailed s username action resource).allowed
        ≡ is_authorized s username action resource)
      × ((is_authorized_detailed s username action resource).effect
          ≡ deciding_effect
              (is_root_name s username)
              (some_answers action resource deny (all_policies s username))
              (some_answers action resource allow (all_policies s username)))
unfolding is_authorized_detailed
is_authorized_detailed_lem s username action resource = rw is_authorized_lem (
    ground (
      arith,
      detailed_lem (some_answers action resource deny (all_policies s username))
          (some_answers action resource allow (all_policies s username))
          (pass action resource deny s username) (pass action resource allow s username)
          (pass_lem action resource deny s username) (pass_lem action resource allow s username),
    ))
