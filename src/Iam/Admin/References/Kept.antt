-- ===== src/Iam/Admin/References/Kept.antt =====
-- Each operation of Iam/Admin keeps the references.
use strix.Base.{
  ◌≡◌, inl, inr, true, ◌&&◌, [], ◌∷◌, ◌++◌, Text, arith, any, all-append, all-remove, all-weaken,
  all-remove_weaken, remove, ok, Bool-cases, and_iff,
}
use strix.Policy.{Policy}
use strix.Iam.{IamStore, Member, is_root_name}
use strix.Iam.Admin.{
  has_user, has_group, new_user, create_user, delete_user, without_user, without_group, replace_row,
  is_row, is_membership, attach_user_policy, detach_user_policy, create_group, delete_group,
  add_user_to_group, remove_user_from_group, attach_group_policy, detach_group_policy,
}
use strix.Iam.Admin.References.{
  IsConsistent, has_user-new, has_user-remove, has_group-new, has_group-remove, all-replace_row,
  get_user-has_user, attached_inv, added_inv,
}

-- Each operation, on the tables that it writes.
module _ (s s' : IamStore) (c : IsConsistent s) where
  pub user_created-IsConsistent : (u : Text) → create_user s u ≡ ok s' → IsConsistent s'
  unfolding create_user
  user_created-IsConsistent u e =
      let same : record s { users = s.users ++ new_user u ∷ [] } ≡ s' = ground arith in
      let longer = has_user-new s.users (new_user u) in
      rw (← same) (record {
        user_policies = all-weaken _ _ s.user_policies (λ r. longer r.owner) c.user_policies;
        members = all-weaken _ _ s.members (λ m h. known m h) c.members;
        group_policies = c.group_policies;
      })
    where
      known :
          (m : Member)
          → (has_group s.groups m.group_name && has_user s.users m.username) ≡ true
          → (has_group s.groups m.group_name && has_user (s.users ++ new_user u ∷ []) m.username)
            ≡ true
      known m h =
          let (g, v) = (and_iff _ _).0 h in
          (and_iff _ _).1 (g, has_user-new s.users (new_user u) m.username v)

  pub user_deleted-IsConsistent : (u : Text) → delete_user s u ≡ ok s' → IsConsistent s'
  unfolding delete_user
  user_deleted-IsConsistent u e =
      let same : without_user s u ≡ s' = ground arith in
      rw (← same) (record {
        user_policies =
            all-remove_weaken _ _ _ s.user_policies (λ r. has_user-remove s.users u r.owner)
              c.user_policies;
        members =
            all-remove_weaken _ _ _ s.members
              (λ m h n.
                let (g, v) = (and_iff _ _).0 h in
                (and_iff _ _).1 (g, has_user-remove s.users u m.username v n))
              c.members;
        group_policies = c.group_policies;
      })

  pub policy_attached-IsConsistent :
      (u : Text) (p : Policy) → attach_user_policy s u p ≡ ok s' → IsConsistent s'
  policy_attached-IsConsistent u p e = elim (Bool-cases (is_root_name s u)) [
    | inl root ↦ let same : s ≡ s' = unfold attach_user_policy in ground arith in rw (← same) c
    | inr root ↦
        let (x, found, same) = attached_inv s u p root e in
        rw (← same) (record {
          user_policies =
              all-replace_row (has_user s.users) u p s.user_policies
                (get_user-has_user s u x root found) c.user_policies;
          members = c.members;
          group_policies = c.group_policies;
        })
  ]

  pub policy_detached-IsConsistent :
      (u n : Text) → detach_user_policy s u n ≡ ok s' → IsConsistent s'
  unfolding detach_user_policy
  policy_detached-IsConsistent u n e =
      let same : record s { user_policies = remove (is_row u n) s.user_policies } ≡ s' =
        ground arith in
      rw (← same) (record {
        user_policies = all-remove _ (is_row u n) s.user_policies c.user_policies;
        members = c.members;
        group_policies = c.group_policies;
      })

  pub group_created-IsConsistent : (g : Text) → create_group s g ≡ ok s' → IsConsistent s'
  unfolding create_group
  group_created-IsConsistent g e =
      let same : record s { groups = s.groups ++ g ∷ [] } ≡ s' = ground arith in
      let longer = has_group-new s.groups g in
      rw (← same) (record {
        user_policies = c.user_policies;
        members =
            all-weaken _ _ s.members
              (λ m h. let (k, v) = (and_iff _ _).0 h in (and_iff _ _).1 (longer m.group_name k, v))
              c.members;
        group_policies = all-weaken _ _ s.group_policies (λ r. longer r.owner) c.group_policies;
      })

  pub group_deleted-IsConsistent : (g : Text) → delete_group s g ≡ ok s' → IsConsistent s'
  unfolding delete_group
  group_deleted-IsConsistent g e =
      let same : without_group s g ≡ s' = ground arith in
      rw (← same) (record {
        user_policies = c.user_policies;
        members =
            all-remove_weaken _ _ _ s.members
              (λ m h n.
                let (k, v) = (and_iff _ _).0 h in
                (and_iff _ _).1 (has_group-remove s.groups g m.group_name k n, v))
              c.members;
        group_policies =
            all-remove_weaken _ _ _ s.group_policies (λ r. has_group-remove s.groups g r.owner)
              c.group_policies;
      })

  pub user_added-IsConsistent : (g u : Text) → add_user_to_group s g u ≡ ok s' → IsConsistent s'
  user_added-IsConsistent g u e =
      let (known_group, known_user, end) = added_inv s g u e in
      elim (Bool-cases (any (is_membership g u) s.members)) [
        | inl old ↦ let same : s ≡ s' = rw old at end in rw (← same) c
        | inr new ↦
            let same : record s {
              members = s.members ++ record { group_name = g; username = u } ∷ [];
            }
                ≡ s' =
              rw new at end in
            rw (← same) (record {
              user_policies = c.user_policies;
              members = rw (all-append, c.members, known_group, known_user);
              group_policies = c.group_policies;
            })
      ]

  pub user_removed-IsConsistent :
      (g u : Text) → remove_user_from_group s g u ≡ ok s' → IsConsistent s'
  unfolding remove_user_from_group
  user_removed-IsConsistent g u e =
      let same : record s { members = remove (is_membership g u) s.members } ≡ s' = ground arith in
      rw (← same) (record {
        user_policies = c.user_policies;
        members = all-remove _ (is_membership g u) s.members c.members;
        group_policies = c.group_policies;
      })

  pub group_policy_attached-IsConsistent :
      (g : Text) (p : Policy) → attach_group_policy s g p ≡ ok s' → IsConsistent s'
  unfolding attach_group_policy
  group_policy_attached-IsConsistent g p e =
      let known : has_group s.groups g ≡ true = ground arith in
      let same : record s { group_policies = replace_row g p s.group_policies } ≡ s' =
        ground arith in
      rw (← same) (record {
        user_policies = c.user_policies;
        members = c.members;
        group_policies =
            all-replace_row (has_group s.groups) g p s.group_policies known c.group_policies;
      })

  pub group_policy_detached-IsConsistent :
      (g n : Text) → detach_group_policy s g n ≡ ok s' → IsConsistent s'
  unfolding detach_group_policy
  group_policy_detached-IsConsistent g n e =
      let same : record s { group_policies = remove (is_row g n) s.group_policies } ≡ s' =
        ground arith in
      rw (← same) (record {
        user_policies = c.user_policies;
        members = c.members;
        group_policies = all-remove _ (is_row g n) s.group_policies c.group_policies;
      })
