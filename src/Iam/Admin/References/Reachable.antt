-- ===== src/Iam/Admin/References/Reachable.antt =====
-- The references of every database that operations lead to.
use strix.Base.{none, ◌≡◌, refl, [], Text, ok}
use strix.Policy.{Policy}
use strix.Iam.{IamStore}
use strix.Iam.Admin.{
  create_user, delete_user, attach_user_policy, detach_user_policy, create_group, delete_group,
  add_user_to_group, remove_user_from_group, attach_group_policy, detach_group_policy,
}
use strix.Iam.Admin.References.{IsConsistent}
use strix.Iam.Admin.References.Kept.{
  user_created-IsConsistent, user_deleted-IsConsistent, policy_attached-IsConsistent,
  policy_detached-IsConsistent, group_created-IsConsistent, group_deleted-IsConsistent,
  user_added-IsConsistent, user_removed-IsConsistent, group_policy_attached-IsConsistent,
  group_policy_detached-IsConsistent,
}

-- One operation that succeeds.
pub data Step (s s' : IamStore) : Type 0 where
  user_created : (u : Text) → create_user s u ≡ ok s' → Step s s'
  user_deleted : (u : Text) → delete_user s u ≡ ok s' → Step s s'
  policy_attached : (u : Text) (p : Policy) → attach_user_policy s u p ≡ ok s' → Step s s'
  policy_detached : (u n : Text) → detach_user_policy s u n ≡ ok s' → Step s s'
  group_created : (g : Text) → create_group s g ≡ ok s' → Step s s'
  group_deleted : (g : Text) → delete_group s g ≡ ok s' → Step s s'
  user_added : (g u : Text) → add_user_to_group s g u ≡ ok s' → Step s s'
  user_removed : (g u : Text) → remove_user_from_group s g u ≡ ok s' → Step s s'
  group_policy_attached : (g : Text) (p : Policy) → attach_group_policy s g p ≡ ok s' → Step s s'
  group_policy_detached : (g n : Text) → detach_group_policy s g n ≡ ok s' → Step s s'

-- Every operation that succeeds keeps every row's user and group in the tables.
pub Step-IsConsistent : {s s' : IamStore} → Step s s' → IsConsistent s → IsConsistent s'
Step-IsConsistent {s} {s'} (user_created u e) c = user_created-IsConsistent s s' c u e
Step-IsConsistent {s} {s'} (user_deleted u e) c = user_deleted-IsConsistent s s' c u e
Step-IsConsistent {s} {s'} (policy_attached u p e) c = policy_attached-IsConsistent s s' c u p e
Step-IsConsistent {s} {s'} (policy_detached u n e) c = policy_detached-IsConsistent s s' c u n e
Step-IsConsistent {s} {s'} (group_created g e) c = group_created-IsConsistent s s' c g e
Step-IsConsistent {s} {s'} (group_deleted g e) c = group_deleted-IsConsistent s s' c g e
Step-IsConsistent {s} {s'} (user_added g u e) c = user_added-IsConsistent s s' c g u e
Step-IsConsistent {s} {s'} (user_removed g u e) c = user_removed-IsConsistent s s' c g u e
Step-IsConsistent {s} {s'} (group_policy_attached g p e) c =
    group_policy_attached-IsConsistent s s' c g p e
Step-IsConsistent {s} {s'} (group_policy_detached g n e) c =
    group_policy_detached-IsConsistent s s' c g n e

-- The stores that operations lead to.
pub data Reach (s : IamStore) : IamStore → Type 0 where
  here : Reach s s
  next : {t u : IamStore} → Reach s t → Step t u → Reach s u

-- The tables of a new database.
abbrev pub new_store : Text → Text → IamStore
new_store root_access_key root_secret_key = record {
  root_access_key = root_access_key;
  root_secret_key = root_secret_key;
  access_keys = [];
  temporary_credentials = [];
  users = [];
  user_policies = [];
  groups = [];
  members = [];
  group_policies = [];
  policies = [];
  smtp_config = none;
  oidc_providers = [];
}

Reach-IsConsistent_from : {s t : IamStore} → IsConsistent s → Reach s t → IsConsistent t
Reach-IsConsistent_from c here = c
Reach-IsConsistent_from c (next r st) = Step-IsConsistent st (Reach-IsConsistent_from c r)

-- Whatever operations succeeded on a new database, each policy belongs to a user or a group
-- that exists, and each membership joins a user and a group that exist.
pub Reach-IsConsistent :
    (root_access_key root_secret_key : Text) {t : IamStore}
    → Reach (new_store root_access_key root_secret_key) t
    → IsConsistent t
Reach-IsConsistent root_access_key root_secret_key r =
    Reach-IsConsistent_from (record { user_policies = refl; members = refl; group_policies = refl })
      r
