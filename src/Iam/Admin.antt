-- ===== src/Iam/Admin.antt =====
-- The operations of crates/strix-iam/src/store.rs that change users, groups and policies. The
-- database enforces foreign keys: deleting a user or a group deletes the rows that refer to it.
pub mod Deleted
pub mod Attached
pub mod References
use strix.Base.{
  Bool, true, false, not, ◌&&◌, ◌||◌, List, [], ◌∷◌, ◌++◌, Option, none, some, Text, codes, text_eq,
  any, find, remove, if◌then◌else◌, Result, ok, err, ok_or, reject_if, ◌>>=◌, ◌>>◌,
}
use strix.Policy.{Policy}
use strix.Iam.{
  UserStatus, active, User, PolicyRow, Member, AccessKeyRow, TemporaryRow, IamStore, IamError,
  user_exists, user_not_found, policy_not_found, group_exists, group_not_found, cannot_delete_root,
  database, is_root_name,
}

unfoldable pub has_user : List User → Text → Bool
has_user users username = any (λ (u : User). text_eq u.username username) users

unfoldable pub has_group : List Text → Text → Bool
has_group groups name = any (λ g. text_eq g name) groups

-- `User::new`
new_user : Text → User
new_user username = record { username = username; status = active; is_root = false }

-- `get_user`: the row that is read is the root user's or the named one.
unfoldable pub get_user : IamStore → Text → Result IamError User
get_user s username =
    if is_root_name s username
    then ok (record { username = s.root_access_key; status = active; is_root = true })
    else ok_or (find (λ (u : User). text_eq u.username username) s.users)
        (user_not_found (codes "unknown"))

unfoldable pub get_group : IamStore → Text → Result IamError Text
unfolding has_group
get_group s name =
    if has_group s.groups name then ok name else err (group_not_found (codes "unknown"))

unfoldable pub create_user : IamStore → Text → Result IamError IamStore
unfolding has_user new_user
create_user s username =
    if is_root_name s username
    then err (user_exists username)
    else if has_user s.users username
    then err (user_exists username)
    else ok (record s { users = s.users ++ new_user username ∷ [] })

-- The tables without a user and, by their foreign keys, without what belongs to the user.
abbrev pub without_user : IamStore → Text → IamStore
without_user s username = record s {
  users = remove (λ (u : User). text_eq u.username username) s.users;
  user_policies = remove (λ (r : PolicyRow). text_eq r.owner username) s.user_policies;
  members = remove (λ (m : Member). text_eq m.username username) s.members;
  access_keys = remove (λ (k : AccessKeyRow). text_eq k.username username) s.access_keys;
  temporary_credentials =
      remove (λ (c : TemporaryRow). text_eq c.assumed_identity username) s.temporary_credentials;
}

unfoldable pub delete_user : IamStore → Text → Result IamError IamStore
unfolding has_user
delete_user s username =
    if is_root_name s username
    then err cannot_delete_root
    else if has_user s.users username
    then ok (without_user s username)
    else err (user_not_found username)

-- The row of an owner's policy.
abbrev pub is_row : Text → Text → PolicyRow → Bool
is_row owner policy_name r = text_eq r.owner owner && text_eq r.policy_name policy_name

-- `INSERT OR REPLACE`
pub replace_row : Text → Policy → List PolicyRow → List PolicyRow
replace_row owner p rows =
    remove (is_row owner p.name) rows
    ++ record { owner = owner; policy_name = p.name; document = some p } ∷ []

unfoldable pub attach_user_policy : IamStore → Text → Policy → Result IamError IamStore
unfolding replace_row get_user
attach_user_policy s username p =
    if is_root_name s username
    then ok s
    else get_user s username
      >> ok (record s { user_policies = replace_row username p s.user_policies })

unfoldable pub detach_user_policy : IamStore → Text → Text → Result IamError IamStore
detach_user_policy s username policy_name =
    if any (is_row username policy_name) s.user_policies
    then ok (record s { user_policies = remove (is_row username policy_name) s.user_policies })
    else err (policy_not_found policy_name)

unfoldable pub create_group : IamStore → Text → Result IamError IamStore
unfolding has_group
create_group s name =
    if has_group s.groups name
    then err (group_exists name)
    else ok (record s { groups = s.groups ++ name ∷ [] })

abbrev pub without_group : IamStore → Text → IamStore
without_group s name = record s {
  groups = remove (λ g. text_eq g name) s.groups;
  members = remove (λ (m : Member). text_eq m.group_name name) s.members;
  group_policies = remove (λ (r : PolicyRow). text_eq r.owner name) s.group_policies;
}

unfoldable pub delete_group : IamStore → Text → Result IamError IamStore
unfolding has_group
delete_group s name =
    if has_group s.groups name then ok (without_group s name) else err (group_not_found name)

abbrev pub is_membership : Text → Text → Member → Bool
is_membership group_name username m = text_eq m.group_name group_name && text_eq m.username username

-- `INSERT OR IGNORE`, which does not ignore a user that has no row, as the root user.
unfoldable pub add_user_to_group : IamStore → Text → Text → Result IamError IamStore
unfolding get_group get_user has_user
add_user_to_group s group_name username = do
  get_group s group_name
  get_user s username
  reject_if (not (has_user s.users username)) database
  ok (
      if any (is_membership group_name username) s.members then s else record s {
        members = s.members ++ record { group_name = group_name; username = username } ∷ [];
      })

unfoldable pub remove_user_from_group : IamStore → Text → Text → Result IamError IamStore
remove_user_from_group s group_name username =
    ok (record s { members = remove (is_membership group_name username) s.members })

unfoldable pub attach_group_policy : IamStore → Text → Policy → Result IamError IamStore
unfolding get_group replace_row
attach_group_policy s group_name p =
    get_group s group_name
    >> ok (record s { group_policies = replace_row group_name p s.group_policies })

unfoldable pub detach_group_policy : IamStore → Text → Text → Result IamError IamStore
detach_group_policy s group_name policy_name =
    if any (is_row group_name policy_name) s.group_policies
    then ok (record s { group_policies = remove (is_row group_name policy_name) s.group_policies })
    else err (policy_not_found policy_name)
