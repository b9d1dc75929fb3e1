-- ===== src/Gateway/Deactivated.antt =====
-- Users who are deactivated, and the keys that are theirs.
use mathlib.Core.Option.{some-injective}
use strix.Base.{
  ℕ, ◌≡◌, ◌≢◌, refl, ap, ◌⊎◌, inl, inr, update, true, false, not, ◌&&◌, List, [], ◌∷◌, Option, none,
  some, Text, text_eq, arith, find, ltb, if◌then◌else◌, Bool-cases, ok, reject_if, ◌>>=◌, >>=-eq-ok,
  ok-injective,
}
use strix.Iam.{inactive, User, AccessKeyRow, TemporaryRow, IamStore, is_root_name}
use strix.Iam.Admin.{has_user}
use strix.Iam.Keys.{
  is_active, is_key_active, is_named, is_key, active_user, set_status, update_user_status, joined,
  temporary_joined, temporary, get_credentials, get_temp_credentials,
}
use strix.Gateway.{is_temporary}
use strix.Gateway.IamAuth.{found, check_temporary, get_temp_secret_key, get_secret_key}

-- The name of the user whose key it is.
unfoldable pub key_owner : IamStore → ℕ → Text → Option Text
key_owner s now id =
    if is_temporary id
    then elim (find (λ (c : TemporaryRow). text_eq c.access_key_id id && ltb now c.expiration)
        s.temporary_credentials) [ none ↦ none | some c ↦ some c.assumed_identity ]
    else elim (find (λ (k : AccessKeyRow). is_key id k && is_key_active k.status) s.access_keys) [
      | none ↦ none
      | some k ↦ some k.username
    ]

Option-cases : {A : Type 0} (o : Option A) → (o ≡ none) ⊎ ((a : A) × (o ≡ some a))
Option-cases none = inl refl
Option-cases (some a) = inr (a, refl)

none_active :
    (u : Text) (users : List User)
    → find
        (λ (x : User). is_named u x && is_active x.status)
        (update (is_named u) (set_status inactive) users)
      ≡ none
none_active u [] = refl
none_active u (x ∷ users) = ground (arith, none_active u users)

named_inactive :
    (u : Text) (users : List User) (x : User)
    → find (is_named u) (update (is_named u) (set_status inactive) users) ≡ some x
    → x.status ≡ inactive
named_inactive u [] x h = cc
named_inactive u (y ∷ users) x h = ground (arith, named_inactive u users x)

refused :
    (now : ℕ) (c : TemporaryRow) (x : User) (secret : Text)
    → x.status ≡ inactive
    → (found (temporary c x) >>= check_temporary now) ≢ ok secret
unfolding temporary check_temporary
refused now c x secret off h = ground arith

temporary_refused :
    (now : ℕ) (s : IamStore) (c : TemporaryRow) (secret : Text)
    → ((x : User) → find (is_named c.assumed_identity) s.users ≡ some x → x.status ≡ inactive)
    → (found (temporary_joined s c) >>= check_temporary now) ≢ ok secret
unfolding temporary_joined
temporary_refused now s c secret off h =
    elim (Option-cases (find (is_named c.assumed_identity) s.users)) [
      | inl missing ↦ cc (rw (temporary_joined, missing) at h)
      | inr (x, there) ↦ refused now c x secret (off x there) (rw (temporary_joined, there) at h)
    ]

owner_of_temporary :
    (s : IamStore) (now : ℕ) (id u : Text)
    → is_temporary id ≡ true
    → key_owner s now id ≡ some u
    → (c : TemporaryRow) × (find
          (λ (c : TemporaryRow). text_eq c.access_key_id id && ltb now c.expiration)
          s.temporary_credentials
        ≡ some c)
      × (c.assumed_identity ≡ u)
unfolding key_owner
owner_of_temporary s now id u kind h =
    elim (Option-cases (
      find (λ (c : TemporaryRow). text_eq c.access_key_id id && ltb now c.expiration)
        s.temporary_credentials)) [
          | inl missing ↦ cc (rw (key_owner, kind, missing) at h)
          | inr (c, there) ↦ (c, there, some-injective _ _ (rw (key_owner, kind, there) at h))
        ]

owner_of_key :
    (s : IamStore) (now : ℕ) (id u : Text)
    → is_temporary id ≡ false
    → key_owner s now id ≡ some u
    → (k : AccessKeyRow) × (find
          (λ (k : AccessKeyRow). is_key id k && is_key_active k.status)
          s.access_keys
        ≡ some k)
      × (k.username ≡ u)
unfolding key_owner
owner_of_key s now id u kind h =
    elim (Option-cases
      (find (λ (k : AccessKeyRow). is_key id k && is_key_active k.status) s.access_keys)) [
        | inl missing ↦ cc (rw (key_owner, kind, missing) at h)
        | inr (k, there) ↦ (k, there, some-injective _ _ (rw (key_owner, kind, there) at h))
      ]

-- Once a user's status is set to inactive, no key of the user gives a secret for checking
-- signatures, whether an access key or temporary credentials, unless it is the root user's
-- access key.
pub get_secret_key-deactivated :
    (s s' : IamStore) (u id secret : Text) (now : ℕ)
    → update_user_status s u inactive ≡ ok s'
    → text_eq id s'.root_access_key ≡ false
    → key_owner s' now id ≡ some u
    → get_secret_key s' now id ≢ ok secret
unfolding update_user_status get_secret_key get_temp_secret_key get_credentials get_temp_credentials
    joined
get_secret_key-deactivated s s' u id secret now e other owner h =
    let (_, _, e₁) = >>=-eq-ok (reject_if (is_root_name s u) _) _ e in
    let (_, _, e₂) = >>=-eq-ok (reject_if (not (has_user s.users u)) _) _ e₁ in
    let users : update (is_named u) (set_status inactive) s.users ≡ s'.users =
      ap (λ (t : IamStore). t.users) (ok-injective e₂) in
    elim (Bool-cases (is_temporary id)) [
      | inl kind ↦
          let (c, row, whose) = owner_of_temporary s' now id u kind owner in
          temporary_refused now s' c secret
            (λ x there. named_inactive u s.users x (rw (users, ← whose) there))
            (rw (get_secret_key, other, kind, get_temp_secret_key, get_temp_credentials, row) at h)
      | inr kind ↦
          let (k, row, whose) = owner_of_key s' now id u kind owner in
          let gone : active_user s' k.username ≡ none =
            rw (whose, ← users) (none_active u s.users) in
          cc (rw (get_secret_key, other, kind, get_credentials, row, joined, gone) at h)
    ]
