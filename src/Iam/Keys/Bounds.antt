-- ===== src/Iam/Keys/Bounds.antt =====
-- How many access keys a user has.
use strix.Base.{
  ℕ, suc, ◌+◌, ◌≤◌, ◌≡◌, refl, ap, ◌∙◌, inl, inr, update, Bool, false, List, [], ◌∷◌, ◌++◌, some,
  Text, text_eq, text_eq_iff, arith, keep, remove, map, length, leb, if◌then◌else◌, Bool-cases, ok,
  reject_if, >>=-eq-ok, reject_if-eq-ok, ok-injective,
}
use strix.Iam.{UserStatus, AccessKeyStatus, AccessKeyRow, IamStore, is_root_name}
use strix.Iam.Admin.{get_user, create_user, delete_user}
use strix.Iam.Admin.References.Reachable.{new_store}
use strix.Iam.Keys.{
  AccessKey, TemporaryCredential, AssumeRoleRequest, is_key, is_key_of, insert_key, order_keys,
  list_access_keys, new_key, update_user_status, create_access_key, delete_access_key,
  update_access_key_status, update_access_key_last_used, assume_role,
}

-- The number of a user's keys.
abbrev pub key_count : Text → IamStore → ℕ
key_count u s = length (keep (is_key_of u) s.access_keys)

-- The operations that change access keys, users or temporary credentials.
pub data Step (sha256_hex : Text → Text) (s s' : IamStore) : Type 0 where
  key_created :
      (now : ℕ) (id secret u : Text) (k : AccessKey)
      → create_access_key s now id secret u ≡ ok (s', k)
      → Step sha256_hex s s'
  key_deleted : (id : Text) → delete_access_key s id ≡ ok s' → Step sha256_hex s s'
  key_status_set :
      (id : Text) (status : AccessKeyStatus)
      → update_access_key_status s id status ≡ ok s'
      → Step sha256_hex s s'
  key_used :
      (now : ℕ) (id : Text) → update_access_key_last_used s now id ≡ s' → Step sha256_hex s s'
  user_created : (u : Text) → create_user s u ≡ ok s' → Step sha256_hex s s'
  user_deleted : (u : Text) → delete_user s u ≡ ok s' → Step sha256_hex s s'
  user_status_set :
      (u : Text) (status : UserStatus)
      → update_user_status s u status ≡ ok s'
      → Step sha256_hex s s'
  role_assumed :
      (now : ℕ) (id secret token : Text) (request : AssumeRoleRequest) (c : TemporaryCredential)
      → assume_role sha256_hex s now id secret token request ≡ ok (s', c)
      → Step sha256_hex s s'

pub data Reach (sha256_hex : Text → Text) (s : IamStore) : IamStore → Type 0 where
  here : Reach sha256_hex s s
  next : {t u : IamStore} → Reach sha256_hex s t → Step sha256_hex t u → Reach sha256_hex s u

length-insert_key :
    (k : AccessKeyRow) (rows : List AccessKeyRow) → length (insert_key k rows) ≡ suc (length rows)
unfolding insert_key
length-insert_key k [] = refl
length-insert_key k (j ∷ rows) = ground (arith, length-insert_key k rows)

length-order_keys : (rows : List AccessKeyRow) → length (order_keys rows) ≡ length rows
unfolding order_keys
length-order_keys [] = refl
length-order_keys (k ∷ rows) =
    omega (arith, length-insert_key k (order_keys rows), length-order_keys rows)

length-map : {A B : Type 0} (f : A → B) (xs : List A) → length (map f xs) ≡ length xs
length-map f [] = refl
length-map f (x ∷ xs) = omega (arith, length-map f xs)

-- The list that the limit is checked on has the user's keys.
length-list_access_keys :
    (s : IamStore) (now : ℕ) (u : Text)
    → is_root_name s u ≡ false
    → length (list_access_keys s now u) ≡ key_count u s
unfolding list_access_keys
length-list_access_keys s now u h =
    rw (list_access_keys, h)
      (length-map _ (order_keys (keep (is_key_of u) s.access_keys))
        ∙ length-order_keys (keep (is_key_of u) s.access_keys))

keep-append :
    (test : AccessKeyRow → Bool) (rows : List AccessKeyRow) (k : AccessKeyRow)
    → length (keep test (rows ++ k ∷ [])) ≡ length (keep test rows) + (if test k then 1 else 0)
keep-append test [] k = ground arith
keep-append test (j ∷ rows) k = ground (arith, keep-append test rows k)

keep-remove :
    (test gone : AccessKeyRow → Bool) (rows : List AccessKeyRow)
    → length (keep test (remove gone rows)) ≤ length (keep test rows)
keep-remove test gone [] = omega arith
keep-remove test gone (k ∷ rows) = ground (arith, keep-remove test gone rows)

keep-update :
    (test changed : AccessKeyRow → Bool) (f : AccessKeyRow → AccessKeyRow)
    (rows : List AccessKeyRow)
    → ((k : AccessKeyRow) → test (f k) ≡ test k)
    → length (keep test (update changed f rows)) ≡ length (keep test rows)
keep-update test changed f [] h = refl
keep-update test changed f (k ∷ rows) h = ground (arith, h k, keep-update test changed f rows h)

created-le :
    (s s' : IamStore) (now : ℕ) (id secret u w : Text) (k : AccessKey)
    → create_access_key s now id secret u ≡ ok (s', k)
    → key_count w s ≤ 2
    → key_count w s' ≤ 2
unfolding create_access_key
created-le s s' now id secret u w k e h =
    let (_, ordinary, e₁) = >>=-eq-ok (reject_if (is_root_name s u) _) _ e in
    let (_, _, e₂) = >>=-eq-ok (get_user s u) _ e₁ in
    let (_, few, e₃) = >>=-eq-ok (reject_if (leb 2 (length (list_access_keys s now u))) _) _ e₂ in
    let rows : s.access_keys ++ new_key now id secret u ∷ [] ≡ s'.access_keys =
      ap (λ (q : IamStore × AccessKey). q.0.access_keys) (ok-injective e₃) in
    let room : leb 2 (key_count u s) ≡ false =
      rw (← length-list_access_keys s now u (reject_if-eq-ok _ _ ordinary))
        (reject_if-eq-ok _ _ few) in
    rw (← rows) (elim (Bool-cases (text_eq u w)) [
      | inl same ↦
          let same_user = (text_eq_iff u w).0 same in
          rw (keep-append (is_key_of w) s.access_keys (new_key now id secret u), same)
            (rw (← same_user) (ground arith))
      | inr other ↦
          rw (keep-append (is_key_of w) s.access_keys (new_key now id secret u), other)
            (omega (arith, h))
    ])

Step-le :
    {sha256_hex : Text → Text} {s s' : IamStore} (w : Text)
    → Step sha256_hex s s'
    → key_count w s ≤ 2
    → key_count w s' ≤ 2
unfolding delete_access_key update_access_key_status update_access_key_last_used create_user
    delete_user update_user_status assume_role
Step-le {s} {s'} w (key_created now id secret u k e) h = created-le s s' now id secret u w k e h
Step-le {s} {s'} w (key_deleted id e) h =
    let rows : remove (is_key id) s.access_keys ≡ s'.access_keys = ground arith in
    rw (← rows) (omega (arith, keep-remove (is_key_of w) (is_key id) s.access_keys, h))
Step-le {s} {s'} w (key_status_set id status e) h =
    let f = λ (k : AccessKeyRow). record k { status = status } in
    let rows : update (is_key id) f s.access_keys ≡ s'.access_keys = ground arith in
    rw (← rows)
      (omega (arith, keep-update (is_key_of w) (is_key id) f s.access_keys (λ k. refl), h))
Step-le {s} {s'} w (key_used now id e) h =
    let f = λ (k : AccessKeyRow). record k { last_used = some now } in
    elim (Bool-cases (text_eq id s.root_access_key)) [
      | inl root ↦ let rows : s.access_keys ≡ s'.access_keys = ground arith in rw (← rows) h
      | inr other ↦
          let rows : update (is_key id) f s.access_keys ≡ s'.access_keys = ground arith in
          rw (← rows)
            (omega (arith, keep-update (is_key_of w) (is_key id) f s.access_keys (λ k. refl), h))
    ]
Step-le {s} {s'} w (user_created u e) h =
    let rows : s.access_keys ≡ s'.access_keys = ground arith in rw (← rows) h
Step-le {s} {s'} w (user_deleted u e) h =
    let rows : remove (is_key_of u) s.access_keys ≡ s'.access_keys = ground arith in
    rw (← rows) (omega (arith, keep-remove (is_key_of w) (is_key_of u) s.access_keys, h))
Step-le {s} {s'} w (user_status_set u status e) h =
    let rows : s.access_keys ≡ s'.access_keys = ground arith in rw (← rows) h
Step-le {sha256_hex} {s} {s'} w (role_assumed now id secret token request c e) h =
    let rows : s.access_keys ≡ s'.access_keys = ground arith in rw (← rows) h

Reach-le :
    {sha256_hex : Text → Text} {s t : IamStore} (w : Text)
    → key_count w s ≤ 2
    → Reach sha256_hex s t
    → key_count w t ≤ 2
Reach-le w h here = h
Reach-le w h (next r st) = Step-le w st (Reach-le w h r)

-- Whatever operations on users, access keys and temporary credentials succeeded on a new
-- database, no user has more than two access keys.
pub Reach-at_most_two :
    (sha256_hex : Text → Text) (root_access_key root_secret_key w : Text) {t : IamStore}
    → Reach sha256_hex (new_store root_access_key root_secret_key) t
    → key_count w t ≤ 2
Reach-at_most_two sha256_hex root_access_key root_secret_key w r = Reach-le w (omega arith) r
