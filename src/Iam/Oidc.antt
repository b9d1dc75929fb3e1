-- ===== src/Iam/Oidc.antt =====
-- The providers of logins by OpenID Connect: crates/strix-iam/src/store.rs, with `OidcConfig` of
-- idp.rs.
pub mod Stored
pub mod Collected
pub mod Simulated
use strix.Base.{
  ℕ, Bool, not, List, [], ◌∷◌, ◌++◌, Option, none, some, Text, codes, text_eq, any, find, update,
  remove, join_words, split_whitespace, if◌then◌else◌, Result, ok, err, reject_if, ◌>>=◌, ◌>>◌,
}
use strix.Crypto.{Bytes, Ciphers}
use strix.Iam.{OidcProviderRaw, IamStore, IamError, oidc}
use strix.Iam.Secrets.{is_empty, encrypt_secret, decrypt_secret}
use strix.Iam.Smtp.{encryption_key}

-- `group_policy_mappings` is a map; its pairs are in the order in which they are written.
pub record OidcConfig : Type 0 where
  pub id : Text
  pub name : Text
  pub enabled : Bool
  pub issuer_url : Text
  pub client_id : Text
  pub client_secret : Text
  pub redirect_uri : Text
  pub scopes : List Text
  pub username_claim : Text
  pub groups_claim : Option Text
  pub auto_create_users : Bool
  pub default_policy : Option Text
  pub group_policy_mappings : List (Text × Text)

abbrev mappings_or_default : Option (List (Text × Text)) → List (Text × Text)
mappings_or_default none = []
mappings_or_default (some mappings) = mappings

abbrev pub exists_error : Text → IamError
exists_error id = oidc (codes "provider '" ++ id ++ codes "' already exists")

abbrev pub not_found_error : Text → IamError
not_found_error id = oidc (codes "provider '" ++ id ++ codes "' not found")

abbrev pub is_row : Text → OidcProviderRaw → Bool
is_row id row = text_eq row.id id

-- The row of a configuration with its encrypted secret.
unfoldable pub to_row : OidcConfig → Text → OidcProviderRaw
to_row config client_secret_enc = record {
  id = config.id;
  name = config.name;
  enabled = config.enabled;
  issuer_url = config.issuer_url;
  client_id = config.client_id;
  client_secret_enc = client_secret_enc;
  redirect_uri = config.redirect_uri;
  scopes = join_words config.scopes;
  username_claim = config.username_claim;
  groups_claim = config.groups_claim;
  auto_create_users = config.auto_create_users;
  default_policy = config.default_policy;
  group_policy_mappings = some config.group_policy_mappings;
}

-- The configuration of a row with its decrypted secret.
unfoldable pub of_row : OidcProviderRaw → Text → OidcConfig
of_row raw client_secret = record {
  id = raw.id;
  name = raw.name;
  enabled = raw.enabled;
  issuer_url = raw.issuer_url;
  client_id = raw.client_id;
  client_secret = client_secret;
  redirect_uri = raw.redirect_uri;
  scopes = split_whitespace raw.scopes;
  username_claim = raw.username_claim;
  groups_claim = raw.groups_claim;
  auto_create_users = raw.auto_create_users;
  default_policy = raw.default_policy;
  group_policy_mappings = mappings_or_default raw.group_policy_mappings;
}

-- The columns that an `UPDATE` sets: all, or all but the secret.
abbrev pub rewrite_row : Bool → OidcProviderRaw → OidcProviderRaw → OidcProviderRaw
rewrite_row rewrite_secret raw row =
    if rewrite_secret
    then record raw { id = row.id }
    else record raw { id = row.id; client_secret_enc = row.client_secret_enc }

unfoldable pub delete_oidc_provider : IamStore → Text → Result IamError IamStore
delete_oidc_provider s id = do
  reject_if (not (any (is_row id) s.oidc_providers)) (not_found_error id)
  ok (record s { oidc_providers = remove (is_row id) s.oidc_providers })

module _ (c : Ciphers) (key : Bytes) where
  unfoldable pub oidc_config_to_raw : Bytes → OidcConfig → Result IamError OidcProviderRaw
  unfolding encrypt_secret to_row
  oidc_config_to_raw nonce config = do
    client_secret_enc ←
        if is_empty config.client_secret
        then ok []
        else encrypt_secret c nonce config.client_secret key
    ok (to_row config client_secret_enc)

  unfoldable pub raw_to_oidc_config : OidcProviderRaw → Result IamError OidcConfig
  unfolding decrypt_secret of_row
  raw_to_oidc_config raw = do
    client_secret ←
        if is_empty raw.client_secret_enc then ok [] else decrypt_secret c raw.client_secret_enc key
    ok (of_row raw client_secret)

  -- `map` and `collect`: the first error, or all values.
  unfoldable pub collect_configs : List OidcProviderRaw → Result IamError (List OidcConfig)
  unfolding raw_to_oidc_config
  collect_configs [] = ok []
  collect_configs (row ∷ rows) = do
    config ← raw_to_oidc_config row
    configs ← collect_configs rows
    ok (config ∷ configs)

module _ (c : Ciphers) (sha256 : Bytes → Bytes) where
  unfoldable pub list_oidc_providers : IamStore → Result IamError (List OidcConfig)
  unfolding collect_configs encryption_key
  list_oidc_providers s = collect_configs c (encryption_key c sha256 s) s.oidc_providers

  -- The id is the primary key of the table.
  unfoldable pub create_oidc_provider : IamStore → Bytes → OidcConfig → Result IamError IamStore
  unfolding oidc_config_to_raw encryption_key
  create_oidc_provider s nonce config = do
    raw ← oidc_config_to_raw c (encryption_key c sha256 s) nonce config
    reject_if (any (is_row config.id) s.oidc_providers) (exists_error config.id)
    ok (record s { oidc_providers = s.oidc_providers ++ raw ∷ [] })

  unfoldable pub update_oidc_provider : IamStore → Bytes → OidcConfig → Result IamError IamStore
  unfolding oidc_config_to_raw encryption_key
  update_oidc_provider s nonce config = do
    raw ← oidc_config_to_raw c (encryption_key c sha256 s) nonce config
    reject_if (not (any (is_row config.id) s.oidc_providers)) (not_found_error config.id)
    ok (record s {
      oidc_providers =
          update (is_row config.id) (rewrite_row (not (is_empty config.client_secret)) raw)
            s.oidc_providers;
    })

  -- A row, or nothing where there is none.
  unfoldable pub get_oidc_provider : IamStore → Text → Result IamError (Option OidcConfig)
  unfolding raw_to_oidc_config encryption_key
  get_oidc_provider s id = elim (find (is_row id) s.oidc_providers) [
    | none ↦ ok none
    | some row ↦ raw_to_oidc_config c (encryption_key c sha256 s) row >>= λ config. ok (some config)
  ]
