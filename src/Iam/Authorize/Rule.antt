-- ===== src/Iam/Authorize/Rule.antt =====
-- The rule that authorization follows.
use strix.Base.{◌≡◌, sym, Bool, true, not, ◌&&◌, ◌||◌, List, [], ◌∷◌, ◌++◌, Text, arith, any}
use mathlib.Core.List.{append-nil, append_assoc}
use strix.Effect.{Effect, allow, deny}
use strix.Action.{Action}
use strix.Resource.{Resource}
use strix.Policy
use strix.Policy.{Policy}
use strix.Iam.{IamStore, is_root_name, list_user_policies, list_group_policies, list_user_groups}
use strix.Iam.Authorize.{extend, authorize_loop, is_authorized, answers}

-- Some policy answers with the effect.
abbrev pub some_answers : Action → Resource → Effect → List Policy → Bool
some_answers action resource e = any (λ p. answers e (Policy.evaluate p action resource))

-- The policies of the user and of all the user's groups.
unfoldable pub group_policies_of : IamStore → List Text → List Policy
group_policies_of s [] = []
group_policies_of s (g ∷ groups) = list_group_policies s g ++ group_policies_of s groups

unfoldable pub all_policies : IamStore → Text → List Policy
unfolding group_policies_of
all_policies s username =
    list_user_policies s username ++ group_policies_of s (list_user_groups s username)

extend_lem :
    (s : IamStore) (groups : List Text) (ps : List Policy)
    → extend s groups ps ≡ ps ++ group_policies_of s groups
unfolding extend group_policies_of
extend_lem s [] ps = sym (append-nil ps)
extend_lem s (g ∷ groups) ps = rw (extend_lem s groups) (append_assoc ps _ _)

loop_lem :
    (action : Action) (resource : Resource) (ps : List Policy) (allowed : Bool)
    → authorize_loop action resource ps allowed ≡ (
        not (some_answers action resource deny ps)
        && (allowed || some_answers action resource allow ps))
unfolding authorize_loop answers
loop_lem action resource [] allowed = ground arith
loop_lem action resource (p ∷ ps) allowed =
    ground (arith, loop_lem action resource ps allowed, loop_lem action resource ps true)

-- `is_authorized` is true exactly for a root name, and for another user exactly when no policy
-- of the user or of a group denies and one of them allows.
pub is_authorized_lem :
    (s : IamStore) (username : Text) (action : Action) (resource : Resource)
    → is_authorized s username action resource ≡ (
        is_root_name s username
        || (not (some_answers action resource deny (all_policies s username))
            && some_answers action resource allow (all_policies s username)))
unfolding is_authorized all_policies
is_authorized_lem s username action resource =
    rw (extend_lem s (list_user_groups s username), loop_lem action resource) (ground arith)
