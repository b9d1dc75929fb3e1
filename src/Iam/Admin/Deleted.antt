-- ===== src/Iam/Admin/Deleted.antt =====
-- A deleted user has no permissions left, and a new user of the same name inherits none.
use strix.Base.{
  ◌≡◌, refl, false, List, [], ◌∷◌, ◌++◌, Text, arith, remove, any-remove_none, ok, text_eq,
}
use strix.Action.{Action}
use strix.Resource.{Resource}
use strix.Iam.{
  IamStore, PolicyRow, is_root_name, documents, is_member, joined_groups, list_user_groups,
  list_user_policies,
}
use strix.Iam.Authorize.{is_authorized}
use strix.Iam.Authorize.Rule.{all_policies, group_policies_of, is_authorized_lem}
use strix.Iam.Admin.{create_user, delete_user, without_user, new_user}

documents-remove :
    (owner : Text) (rows : List PolicyRow)
    → documents owner (remove (λ (r : PolicyRow). text_eq r.owner owner) rows) ≡ []
unfolding documents
documents-remove owner [] = refl
documents-remove owner (r ∷ rows) = ground (arith, documents-remove owner rows)

-- Nothing in the tables gives the user a policy.
abbrev HasNothing : IamStore → Text → Type 0
HasNothing s u =
    (is_root_name s u ≡ false)
    × (documents u s.user_policies ≡ [])
    × ((g : Text) → is_member s u g ≡ false)

joined_groups-nil :
    (s : IamStore) (u : Text) (gs : List Text)
    → ((g : Text) → is_member s u g ≡ false)
    → joined_groups s u gs ≡ []
unfolding joined_groups
joined_groups-nil s u [] h = refl
joined_groups-nil s u (g ∷ gs) h = rw (h g) (joined_groups-nil s u gs h)

HasNothing-denied :
    (s : IamStore) (u : Text) (action : Action) (resource : Resource)
    → HasNothing s u
    → is_authorized s u action resource ≡ false
unfolding all_policies list_user_policies list_user_groups group_policies_of
HasNothing-denied s u action resource (root, docs, groups) =
    rw (is_authorized_lem, root, docs, joined_groups-nil s u s.groups groups)

delete_user_inv :
    (s : IamStore) (u : Text) {s' : IamStore}
    → delete_user s u ≡ ok s'
    → (is_root_name s u ≡ false) × (without_user s u ≡ s')
unfolding delete_user
delete_user_inv s u e = (ground arith, ground arith)

without_user-HasNothing :
    (s : IamStore) (u : Text) → is_root_name s u ≡ false → HasNothing (without_user s u) u
unfolding is_root_name is_member
without_user-HasNothing s u root = (
  root,
  documents-remove u s.user_policies,
  λ g. any-remove_none _ _ s.members (λ m h. ground arith),
)

-- After a user is deleted no request of that name is authorized by IAM policies.
pub delete_user-denied :
    (s s' : IamStore) (u : Text) (action : Action) (resource : Resource)
    → delete_user s u ≡ ok s'
    → is_authorized s' u action resource ≡ false
delete_user-denied s s' u action resource e =
    let (root, same) = delete_user_inv s u e in
    rw (← same)
      (HasNothing-denied (without_user s u) u action resource (without_user-HasNothing s u root))

create_user-HasNothing :
    (s s' : IamStore) (u : Text) → HasNothing s u → create_user s u ≡ ok s' → HasNothing s' u
unfolding create_user is_root_name is_member
create_user-HasNothing s s' u (root, docs, groups) e =
    let same : record s { users = s.users ++ new_user u ∷ [] } ≡ s' = ground arith in
    rw (← same) (root, docs, groups)

-- A user created again under the name of a deleted one starts with no permission.
pub recreated_user-denied :
    (s s' s'' : IamStore) (u : Text) (action : Action) (resource : Resource)
    → delete_user s u ≡ ok s'
    → create_user s' u ≡ ok s''
    → is_authorized s'' u action resource ≡ false
recreated_user-denied s s' s'' u action resource e c =
    let (root, same) = delete_user_inv s u e in
    HasNothing-denied s'' u action resource
      (create_user-HasNothing s' s'' u (rw (← same) (without_user-HasNothing s u root)) c)
