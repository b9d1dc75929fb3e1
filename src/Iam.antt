-- ===== src/Iam.antt =====
-- The tables of the IAM database and the queries that authorization reads:
-- crates/strix-iam/src/store.rs, with the types of types.rs, error.rs and lib.rs.
pub mod Admin
pub mod Keys
pub mod Secrets
pub mod Smtp
pub mod Managed
pub mod Oidc
pub mod Authorize
pub mod BucketPolicies
use strix.Base.{
  ℕ, ◌+◌, Bool, true, false, not, ◌&&◌, ◌||◌, List, [], ◌∷◌, ◌++◌, Option, none, some, Text, codes,
  text_eq, any, if◌then◌else◌, ltb, ◌==◌, Result, ok, err,
}
use strix.Effect.{Effect}
use strix.Policy.{Policy, admin_policy}

pub data UserStatus : Type 0 where
  active inactive : UserStatus

-- `User`, without its ARN, its date and its password, which do not decide authorization.
pub record User : Type 0 where
  pub username : Text
  pub status : UserStatus
  pub is_root : Bool

-- A row of `iam_user_policies` or `iam_group_policies`. `document` is what `serde_json` reads from
-- the stored text; a text that is no policy reads as `none`.
pub record PolicyRow : Type 0 where
  pub owner : Text
  pub policy_name : Text
  pub document : Option Policy

-- A row of `iam_group_members`.
pub record Member : Type 0 where
  pub group_name : Text
  pub username : Text

pub data AccessKeyStatus : Type 0 where
  key_active key_inactive : AccessKeyStatus

-- A row of `iam_access_keys`. `secret` is what `decrypt_secret` reads from the column; one that cannot
-- be decrypted reads as `none`.
pub record AccessKeyRow : Type 0 where
  pub access_key_id : Text
  pub secret : Option Text
  pub username : Text
  pub created_at : ℕ
  pub status : AccessKeyStatus
  pub last_used : Option ℕ

-- A row of `iam_temporary_credentials`.
pub record TemporaryRow : Type 0 where
  pub access_key_id : Text
  pub secret : Option Text
  pub session_token_hash : Text
  pub assumed_identity : Text
  pub expiration : ℕ

pub data UsageReportSchedule : Type 0 where
  daily weekly : UsageReportSchedule

-- The row of `smtp_config`. `alert_recipients` is what `serde_json` reads from the stored text; one
-- that cannot be read is `none`.
pub record SmtpConfigRaw : Type 0 where
  pub enabled : Bool
  pub host : Text
  pub port : ℕ
  pub username : Text
  pub password_enc : Text
  pub from_address : Text
  pub from_name : Option Text
  pub use_starttls : Bool
  pub alert_on_delivery_failure : Bool
  pub send_usage_reports : Bool
  pub usage_report_schedule : Text
  pub alert_on_audit_events : Bool
  pub alert_recipients : Option (List Text)

-- A row of `oidc_providers`. `group_policy_mappings` is what `serde_json` reads from the stored text.
pub record OidcProviderRaw : Type 0 where
  pub id : Text
  pub name : Text
  pub enabled : Bool
  pub issuer_url : Text
  pub client_id : Text
  pub client_secret_enc : Text
  pub redirect_uri : Text
  pub scopes : Text
  pub username_claim : Text
  pub groups_claim : Option Text
  pub auto_create_users : Bool
  pub default_policy : Option Text
  pub group_policy_mappings : Option (List (Text × Text))

-- A row of `iam_policies`, without its dates.
pub record ManagedRow : Type 0 where
  pub name : Text
  pub description : Option Text
  pub document : Option Policy

-- `IamStore`, with the tables that decide authentication and authorization, and the settings.
pub record IamStore : Type 0 where
  pub root_access_key : Text
  pub root_secret_key : Text
  pub access_keys : List AccessKeyRow
  pub temporary_credentials : List TemporaryRow
  pub users : List User
  pub user_policies : List PolicyRow
  pub groups : List Text
  pub members : List Member
  pub group_policies : List PolicyRow
  pub policies : List ManagedRow
  pub smtp_config : Option SmtpConfigRaw
  pub oidc_providers : List OidcProviderRaw

-- The variants of `IamError` that the operations of this library answer with.
pub data IamError : Type 0 where
  user_exists user_not_found policy_not_found group_exists group_not_found : Text → IamError
  access_key_not_found : Text → IamError
  cannot_delete_root cannot_modify_root_keys max_access_keys_exceeded : IamError
  invalid_credentials encryption : IamError
  oidc : Text → IamError
  invalid_policy : IamError
  -- `Database`: a statement that the database refuses, or a text that cannot be read
  database : IamError

-- `username == "root" || username == self.root_access_key`
unfoldable pub is_root_name : IamStore → Text → Bool
is_root_name s username = text_eq username (codes "root") || text_eq username s.root_access_key

-- The documents of an owner, those that are no policies left out.
unfoldable pub documents : Text → List PolicyRow → List Policy
documents owner [] = []
documents owner (r ∷ rows) =
    let rest = documents owner rows in
    if text_eq r.owner owner then elim r.document [ none ↦ rest | some p ↦ p ∷ rest ] else rest

unfoldable pub list_user_policies : IamStore → Text → List Policy
unfolding documents is_root_name
list_user_policies s username =
    if is_root_name s username then admin_policy ∷ [] else documents username s.user_policies

unfoldable pub list_group_policies : IamStore → Text → List Policy
unfolding documents
list_group_policies s group_name = documents group_name s.group_policies

-- `ORDER BY g.name`: texts in the order of their code points.
unfoldable pub text_leb : Text → Text → Bool
text_leb [] t = true
text_leb (c ∷ s) [] = false
text_leb (c ∷ s) (d ∷ t) = ltb c d || (c == d && text_leb s t)

unfoldable pub insert_sorted : Text → List Text → List Text
unfolding text_leb
insert_sorted n [] = n ∷ []
insert_sorted n (m ∷ ns) = if text_leb n m then n ∷ m ∷ ns else m ∷ insert_sorted n ns

unfoldable pub is_member : IamStore → Text → Text → Bool
is_member s username group_name =
    any (λ (m : Member). text_eq m.group_name group_name && text_eq m.username username) s.members

-- The rows of `iam_groups` that join a membership of the user.
unfoldable pub joined_groups : IamStore → Text → List Text → List Text
unfolding insert_sorted is_member
joined_groups s username [] = []
joined_groups s username (g ∷ gs) =
    let rest = joined_groups s username gs in
    if is_member s username g then insert_sorted g rest else rest

unfoldable pub list_user_groups : IamStore → Text → List Text
unfolding joined_groups
list_user_groups s username = joined_groups s username s.groups
