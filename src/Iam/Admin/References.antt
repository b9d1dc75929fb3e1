-- ===== src/Iam/Admin/References.antt =====
-- Every row of the IAM tables refers to a user and a group that exist.
pub mod Kept
pub mod Reachable
use strix.Base.{
  ◌≡◌, refl, sym, inl, inr, Bool, true, false, not, ◌&&◌, List, [], ◌∷◌, ◌++◌, some, Text, arith,
  any, all, any-append, any-remove_other, all-append, all-remove, all-weaken, all-remove_weaken,
  find, remove, if◌then◌else◌, Result, ok, ◌>>◌, reject_if, >>=-eq-ok, reject_if-eq-ok,
  ok-injective, ◌∙◌, text_eq, text_eq_iff, Bool-cases, and_iff,
}
use strix.Policy.{Policy}
use strix.Iam.{IamStore, IamError, database, User, PolicyRow, Member, is_root_name}
use strix.Iam.Admin.{
  has_user, has_group, get_user, get_group, new_user, create_user, delete_user, without_user,
  without_group, replace_row, is_row, is_membership, attach_user_policy, detach_user_policy,
  create_group, delete_group, add_user_to_group, remove_user_from_group, attach_group_policy,
  detach_group_policy,
}

pub record IsConsistent (s : IamStore) : Type 0 where
  pub user_policies : all (λ (r : PolicyRow). has_user s.users r.owner) s.user_policies ≡ true
  pub members :
      all (λ (m : Member). has_group s.groups m.group_name && has_user s.users m.username) s.members
      ≡ true
  pub group_policies : all (λ (r : PolicyRow). has_group s.groups r.owner) s.group_policies ≡ true

-- The names that a longer or shorter table knows.
pub has_user-new :
    (users : List User) (u : User) (v : Text)
    → has_user users v ≡ true
    → has_user (users ++ u ∷ []) v ≡ true
unfolding has_user
has_user-new users u v h = rw (any-append, h)

pub has_user-remove :
    (users : List User) (u v : Text)
    → has_user users v ≡ true
    → text_eq v u ≡ false
    → has_user (remove (λ (x : User). text_eq x.username u) users) v ≡ true
unfolding has_user
has_user-remove users u v h n =
    rw
      (any-remove_other (λ (x : User). text_eq x.username v) (λ (x : User). text_eq x.username u)
        users
        (λ x e.
          ground (arith, text_eq_iff x.username u, text_eq_iff x.username v, text_eq_iff v u)))
      h

pub has_group-new :
    (groups : List Text) (g k : Text)
    → has_group groups k ≡ true
    → has_group (groups ++ g ∷ []) k ≡ true
unfolding has_group
has_group-new groups g k h = rw (any-append, h)

pub has_group-remove :
    (groups : List Text) (g k : Text)
    → has_group groups k ≡ true
    → text_eq k g ≡ false
    → has_group (remove (λ x. text_eq x g) groups) k ≡ true
unfolding has_group
has_group-remove groups g k h n =
    rw
      (any-remove_other (λ x. text_eq x k) (λ x. text_eq x g) groups
        (λ x e. ground (arith, text_eq_iff x g, text_eq_iff x k, text_eq_iff k g)))
      h

-- A row that is put in for a known owner keeps all owners known.
pub all-replace_row :
    (known : Text → Bool) (owner : Text) (p : Policy) (rows : List PolicyRow)
    → known owner ≡ true
    → all (λ (r : PolicyRow). known r.owner) rows ≡ true
    → all (λ (r : PolicyRow). known r.owner) (replace_row owner p rows) ≡ true
unfolding replace_row
all-replace_row known owner p rows k h =
    rw (all-append, all-remove (λ (r : PolicyRow). known r.owner) (is_row owner p.name) rows h, k)

pub find-any :
    (u : Text) (users : List User) (x : User)
    → find (λ (y : User). text_eq y.username u) users ≡ some x
    → has_user users u ≡ true
unfolding has_user
find-any u [] x h = cc
find-any u (y ∷ users) x h = ground (arith, find-any u users x)

pub get_user-has_user :
    (s : IamStore) (u : Text) (x : User)
    → is_root_name s u ≡ false
    → get_user s u ≡ ok x
    → has_user s.users u ≡ true
unfolding get_user
get_user-has_user s u x root h = ground (arith, find-any u s.users x)

pub attached_inv :
    (s : IamStore) (u : Text) (p : Policy) {s' : IamStore}
    → is_root_name s u ≡ false
    → attach_user_policy s u p ≡ ok s'
    → (x : User) × (get_user s u ≡ ok x)
      × (record s { user_policies = replace_row u p s.user_policies } ≡ s')
attached_inv s u p root e =
    let chain : Result IamError IamStore =
      get_user s u >> ok (record s { user_policies = replace_row u p s.user_policies }) in
    let plain : attach_user_policy s u p ≡ chain = unfold attach_user_policy in rw root in
    let (x, found, end) = >>=-eq-ok (get_user s u) _ (sym plain ∙ e) in (x, found, ok-injective end)

pub added_inv :
    (s : IamStore) (g u : Text) {s' : IamStore}
    → add_user_to_group s g u ≡ ok s'
    → (has_group s.groups g ≡ true)
      × (has_user s.users u ≡ true)
      × ((if any (is_membership g u) s.members
            then s
            else record s { members = s.members ++ record { group_name = g; username = u } ∷ [] })
          ≡ s')
unfolding add_user_to_group
added_inv s g u e =
    let (h, known_group, rest) = >>=-eq-ok (get_group s g) _ e in
    let (x, _, rest) = >>=-eq-ok (get_user s u) _ rest in
    let (_, passed, end) = >>=-eq-ok (reject_if (not (has_user s.users u)) database) _ rest in
    let known_user = reject_if-eq-ok (not (has_user s.users u)) database passed in
    (unfold get_group in ground arith, ground arith, ok-injective end)
