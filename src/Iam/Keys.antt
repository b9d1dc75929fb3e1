-- ===== src/Iam/Keys.antt =====
-- Access keys, temporary credentials and the status of users: crates/strix-iam/src/store.rs.
pub mod Bounds
use strix.Base.{
  ℕ, ◌+◌, ◌*◌, update, Bool, true, false, not, ◌&&◌, ◌||◌, List, [], ◌∷◌, ◌++◌, Option, none, some,
  Text, codes, text_eq, any, find, keep, map, length, remove, ltb, leb, if◌then◌else◌, Result, ok,
  err, ok_or, reject_if, ◌>>=◌, ◌>>◌,
}
use strix.Iam.{
  UserStatus, active, inactive, User, AccessKeyStatus, key_active, key_inactive, AccessKeyRow,
  TemporaryRow, IamStore, IamError, user_not_found, access_key_not_found, cannot_delete_root,
  cannot_modify_root_keys, max_access_keys_exceeded, invalid_credentials, encryption, database,
  is_root_name,
}
use strix.Iam.Admin.{has_user, get_user}

pub record AccessKey : Type 0 where
  pub access_key_id : Text
  pub secret_access_key : Option Text
  pub username : Text
  pub created_at : ℕ
  pub status : AccessKeyStatus
  pub last_used : Option ℕ

-- `expiration` is in nanoseconds.
pub record TemporaryCredential : Type 0 where
  pub access_key_id : Text
  pub secret_access_key : Option Text
  pub session_token : Text
  pub expiration : ℕ
  pub assumed_identity : Text

pub record AssumeRoleRequest : Type 0 where
  pub username : Text
  pub session_name : Option Text
  pub duration_seconds : Option ℕ

abbrev pub is_active : UserStatus → Bool
is_active active = true
is_active inactive = false

abbrev pub is_key_active : AccessKeyStatus → Bool
is_key_active key_active = true
is_key_active key_inactive = false

abbrev pub is_named : Text → User → Bool
is_named username u = text_eq u.username username

abbrev pub is_key : Text → AccessKeyRow → Bool
is_key id k = text_eq k.access_key_id id

abbrev pub is_key_of : Text → AccessKeyRow → Bool
is_key_of username k = text_eq k.username username

abbrev pub set_status : UserStatus → User → User
set_status status u = record u { status = status }

unfoldable pub update_user_status : IamStore → Text → UserStatus → Result IamError IamStore
unfolding is_root_name has_user
update_user_status s username status = do
  reject_if (is_root_name s username) cannot_delete_root
  reject_if (not (has_user s.users username)) (user_not_found username)
  ok (record s { users = update (is_named username) (set_status status) s.users })

-- The key of the root user, as it is listed.
abbrev pub root_key : IamStore → Text → ℕ → Option Text → AccessKey
root_key s username now secret = record {
  access_key_id = s.root_access_key;
  secret_access_key = secret;
  username = username;
  created_at = now;
  status = key_active;
  last_used = none;
}

abbrev pub of_row : Option Text → AccessKeyRow → AccessKey
of_row secret k = record {
  access_key_id = k.access_key_id;
  secret_access_key = secret;
  username = k.username;
  created_at = k.created_at;
  status = k.status;
  last_used = k.last_used;
}

-- `ORDER BY created_at`
unfoldable pub insert_key : AccessKeyRow → List AccessKeyRow → List AccessKeyRow
insert_key k [] = k ∷ []
insert_key k (j ∷ rows) =
    let rest = insert_key k rows in if ltb k.created_at j.created_at then k ∷ j ∷ rows else j ∷ rest

unfoldable pub order_keys : List AccessKeyRow → List AccessKeyRow
unfolding insert_key
order_keys [] = []
order_keys (k ∷ rows) = insert_key k (order_keys rows)

unfoldable pub list_access_keys : IamStore → ℕ → Text → List AccessKey
unfolding is_root_name order_keys
list_access_keys s now username =
    if is_root_name s username
    then root_key s s.root_access_key now none ∷ []
    else map (of_row none) (order_keys (keep (is_key_of username) s.access_keys))

abbrev pub new_key : ℕ → Text → Text → Text → AccessKeyRow
new_key now id secret username = record {
  access_key_id = id;
  secret = some secret;
  username = username;
  created_at = now;
  status = key_active;
  last_used = none;
}

-- `id` and `secret` are drawn at random.
unfoldable pub create_access_key :
    IamStore → ℕ → (id secret : Text) → Text → Result IamError (IamStore × AccessKey)
unfolding is_root_name get_user list_access_keys
create_access_key s now id secret username = do
  reject_if (is_root_name s username) cannot_modify_root_keys
  get_user s username
  reject_if (leb 2 (length (list_access_keys s now username))) max_access_keys_exceeded
  let row = new_key now id secret username
  ok (record s { access_keys = s.access_keys ++ row ∷ [] }, of_row (some secret) row)

unfoldable pub delete_access_key : IamStore → Text → Result IamError IamStore
delete_access_key s id = do
  reject_if (text_eq id s.root_access_key) cannot_modify_root_keys
  reject_if (not (any (is_key id) s.access_keys)) (access_key_not_found id)
  ok (record s { access_keys = remove (is_key id) s.access_keys })

unfoldable pub get_access_key : IamStore → ℕ → Text → Result IamError AccessKey
get_access_key s now id =
    if text_eq id s.root_access_key
    then ok (root_key s (codes "root") now none)
    else elim (find (is_key id) s.access_keys) [
      | none ↦ err (access_key_not_found (codes "unknown"))
      | some k ↦ ok (of_row none k)
    ]

unfoldable pub update_access_key_status :
    IamStore → Text → AccessKeyStatus → Result IamError IamStore
update_access_key_status s id status = do
  reject_if (text_eq id s.root_access_key) cannot_modify_root_keys
  reject_if (not (any (is_key id) s.access_keys)) (access_key_not_found id)
  ok (record s {
    access_keys =
        update (is_key id) (λ (k : AccessKeyRow). record k { status = status }) s.access_keys;
  })

unfoldable pub update_access_key_last_used : IamStore → ℕ → Text → IamStore
update_access_key_last_used s now id = if text_eq id s.root_access_key then s else record s {
  access_keys =
      update (is_key id) (λ (k : AccessKeyRow). record k { last_used = some now }) s.access_keys;
}

-- `User::root`
abbrev root : User
root = record { username = codes "root"; status = active; is_root = true }

-- `JOIN iam_users u ON k.username = u.username … AND u.status = 'active'`
abbrev pub active_user : IamStore → Text → Option User
active_user s username = find (λ (u : User). is_named username u && is_active u.status) s.users

-- The key's row, its user's row, and the secret.
unfoldable pub with_secret : AccessKeyRow → User → Result IamError (Option (AccessKey × User))
with_secret k u = elim k.secret [
  | none ↦ err encryption
  | some secret ↦ ok (some (of_row (some secret) k, u))
]

unfoldable pub joined : IamStore → AccessKeyRow → Result IamError (Option (AccessKey × User))
unfolding with_secret
joined s k = elim (active_user s k.username) [ none ↦ ok none | some u ↦ with_secret k u ]

-- The id is the primary key of the table.
unfoldable pub get_credentials : IamStore → ℕ → Text → Result IamError (Option (AccessKey × User))
unfolding joined
get_credentials s now id =
    if text_eq id s.root_access_key
    then ok (some (root_key s (codes "root") now (some s.root_secret_key), root))
    else elim (find (λ (k : AccessKeyRow). is_key id k && is_key_active k.status) s.access_keys) [
      | none ↦ ok none
      | some k ↦ joined s k
    ]

-- `clamp(900, 43200)` of the duration in seconds, an hour where none is asked for.
unfoldable pub session_duration : Option ℕ → ℕ
session_duration none = 3600
session_duration (some d) = if ltb d 900 then 900 else if ltb 43200 d then 43200 else d

abbrev pub new_temporary : Text → Text → Text → Text → ℕ → TemporaryRow
new_temporary id secret token_hash username expiration = record {
  access_key_id = id;
  secret = some secret;
  session_token_hash = token_hash;
  assumed_identity = username;
  expiration = expiration;
}

module _ (sha256_hex : Text → Text) where
  -- The id, the secret and the token are drawn at random; `sha256_hex` is the hash of the crate sha2,
  -- in hexadecimal. The table's foreign key wants a row of the user.
  unfoldable pub assume_role :
      IamStore
      → ℕ
      → (id secret token : Text) → AssumeRoleRequest
      → Result IamError (IamStore × TemporaryCredential)
  unfolding get_user session_duration has_user
  assume_role s now id secret token request = do
    user ← get_user s request.username
    reject_if (not (is_active user.status)) invalid_credentials
    let expiration = now + session_duration request.duration_seconds * 1000000000
    reject_if (not (has_user s.users request.username)) database
    let row = new_temporary id secret (sha256_hex token) request.username expiration
    ok (
      record s { temporary_credentials = s.temporary_credentials ++ row ∷ [] },
      record {
        access_key_id = id;
        secret_access_key = some secret;
        session_token = token;
        expiration = expiration;
        assumed_identity = request.username;
      },
    )

  unfoldable pub validate_session_token : IamStore → ℕ → Text → Text → Bool
  validate_session_token s now id token =
      any
        (λ (c : TemporaryRow).
          text_eq c.access_key_id id
          && text_eq c.session_token_hash (sha256_hex token)
          && ltb now c.expiration)
        s.temporary_credentials

-- The row's user, whatever its status, and the secret.
unfoldable pub temporary :
    TemporaryRow → User → Result IamError (Option (TemporaryCredential × User))
temporary c u = elim c.secret [
  | none ↦ err database
  | some secret ↦ ok (
      some (
        record {
          access_key_id = c.access_key_id;
          secret_access_key = some secret;
          session_token = [];
          expiration = c.expiration;
          assumed_identity = c.assumed_identity;
        },
        u,
      ))
]

unfoldable pub temporary_joined :
    IamStore → TemporaryRow → Result IamError (Option (TemporaryCredential × User))
unfolding temporary
temporary_joined s c = elim (find (is_named c.assumed_identity) s.users) [
  | none ↦ ok none
  | some u ↦ temporary c u
]

unfoldable pub get_temp_credentials :
    IamStore → ℕ → Text → Result IamError (Option (TemporaryCredential × User))
unfolding temporary_joined
get_temp_credentials s now id =
    elim (find (λ (c : TemporaryRow). text_eq c.access_key_id id && ltb now c.expiration)
      s.temporary_credentials) [ none ↦ ok none | some c ↦ temporary_joined s c ]
