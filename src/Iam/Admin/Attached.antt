-- ===== src/Iam/Admin/Attached.antt =====
-- What attaching a policy changes, and for whom.
use mathlib.Core.List.{append-nil}
use strix.Base.{
  ◌≡◌, refl, sym, ◌≢◌, true, false, List, [], ◌∷◌, ◌++◌, some, Text, arith, any-append, remove, ok,
  Bool-cases, inl, inr, text_eq, text_eq_iff, text_eq_self,
}
use strix.Effect.{Effect, deny}
use strix.Action.{Action}
use strix.Resource.{Resource}
use strix.Policy
use strix.Policy.{Policy}
use strix.Iam.{
  IamStore, PolicyRow, is_root_name, documents, list_user_policies, list_user_groups, joined_groups,
  is_member, list_group_policies,
}
use strix.Iam.Authorize.{is_authorized, answers}
use strix.Iam.Authorize.Rule.{some_answers, all_policies, group_policies_of, is_authorized_lem}
use strix.Iam.Admin.{attach_user_policy, replace_row, is_row}

documents-append :
    (owner : Text) (xs ys : List PolicyRow)
    → documents owner (xs ++ ys) ≡ documents owner xs ++ documents owner ys
unfolding documents
documents-append owner [] ys = refl
documents-append owner (r ∷ xs) ys = ground (arith, documents-append owner xs ys)

documents-remove_other :
    (owner other name : Text) (rows : List PolicyRow)
    → owner ≢ other
    → documents owner (remove (is_row other name) rows) ≡ documents owner rows
unfolding documents
documents-remove_other owner other name [] n = refl
documents-remove_other owner other name (r ∷ rows) n = ground (
  arith,
  text_eq_iff r.owner owner,
  text_eq_iff r.owner other,
  documents-remove_other owner other name rows n,
)

documents-replace_row_other :
    (owner other : Text) (p : Policy) (rows : List PolicyRow)
    → owner ≢ other
    → documents owner (replace_row other p rows) ≡ documents owner rows
unfolding replace_row documents
documents-replace_row_other owner other p rows n =
    let apart : text_eq other owner ≡ false =
      ground (arith, text_eq_iff other owner, λ (e : other ≡ owner). n (sym e)) in
    rw (documents-append owner, documents-remove_other owner other p.name rows n, apart)
      (append-nil (documents owner rows))

answers-replace_row :
    (action : Action) (resource : Resource) (e : Effect) (owner : Text) (p : Policy)
    (rows : List PolicyRow)
    → answers e (Policy.evaluate p action resource) ≡ true
    → some_answers action resource e (documents owner (replace_row owner p rows)) ≡ true
unfolding replace_row documents
answers-replace_row action resource e owner p rows h =
    rw (documents-append owner, any-append, text_eq_self owner) (rw h (ground arith))

attach_user_policy_inv :
    (s : IamStore) (u : Text) (p : Policy) {s' : IamStore}
    → is_root_name s u ≡ false
    → attach_user_policy s u p ≡ ok s'
    → record s { user_policies = replace_row u p s.user_policies } ≡ s'
unfolding attach_user_policy
attach_user_policy_inv s u p root e = ground arith

-- Group memberships do not depend on the users' policies.
joined_groups-attach :
    (s : IamStore) (rows : List PolicyRow) (u : Text) (gs : List Text)
    → joined_groups (record s { user_policies = rows }) u gs ≡ joined_groups s u gs
unfolding joined_groups is_member
joined_groups-attach s rows u [] = refl
joined_groups-attach s rows u (g ∷ gs) = rw (joined_groups-attach s rows u gs)

group_policies_of-attach :
    (s : IamStore) (rows : List PolicyRow) (gs : List Text)
    → group_policies_of (record s { user_policies = rows }) gs ≡ group_policies_of s gs
unfolding group_policies_of list_group_policies
group_policies_of-attach s rows [] = refl
group_policies_of-attach s rows (g ∷ gs) = rw (group_policies_of-attach s rows gs)

-- Attaching a policy that denies a request to a user other than root takes effect at once: the
-- request is not authorized, whatever else the user and the user's groups allow.
pub attach_user_policy-deny :
    (s s' : IamStore) (u : Text) (p : Policy) (action : Action) (resource : Resource)
    → is_root_name s u ≡ false
    → attach_user_policy s u p ≡ ok s'
    → Policy.evaluate p action resource ≡ some deny
    → is_authorized s' u action resource ≡ false
unfolding all_policies list_user_policies is_root_name answers
attach_user_policy-deny s s' u p action resource root e h = rw (
  ← attach_user_policy_inv s u p root e,
  is_authorized_lem,
  any-append,
  root,
  answers-replace_row action resource deny u p s.user_policies (rw h),
)

all_policies-attach :
    (s : IamStore) (u v : Text) (p : Policy)
    → v ≢ u
    → all_policies (record s { user_policies = replace_row u p s.user_policies }) v
      ≡ all_policies s v
unfolding all_policies list_user_policies list_user_groups is_root_name
all_policies-attach s u v p n = rw (
  joined_groups-attach s (replace_row u p s.user_policies) v s.groups,
  group_policies_of-attach s (replace_row u p s.user_policies),
  documents-replace_row_other v u p s.user_policies n,
)

attach_user_policy_root :
    (s : IamStore) (u : Text) (p : Policy) {s' : IamStore}
    → is_root_name s u ≡ true
    → attach_user_policy s u p ≡ ok s'
    → s ≡ s'
unfolding attach_user_policy
attach_user_policy_root s u p root e = ground arith

-- Attaching a policy to one user does not change what another user may do.
pub attach_user_policy-other :
    (s s' : IamStore) (u v : Text) (p : Policy) (action : Action) (resource : Resource)
    → v ≢ u
    → attach_user_policy s u p ≡ ok s'
    → is_authorized s' v action resource ≡ is_authorized s v action resource
attach_user_policy-other s s' u v p action resource n e = elim (Bool-cases (is_root_name s u)) [
  | inl root ↦ rw (attach_user_policy_root s u p root e)
  | inr root ↦
      rw
        (
          ← attach_user_policy_inv s u p root e,
          is_authorized_lem,
          is_authorized_lem,
          all_policies-attach s u v p n,
        )
        (unfold is_root_name in refl)
]
