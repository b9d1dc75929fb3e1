-- ===== src/Examples/Logon.antt =====
-- A provider of logins is created, and then gets another name without a new secret.
use strix.Base.{
  ◌≡◌, refl, true, [], ◌∷◌, ◌++◌, replicate, none, Text, List, find, codes, text_eq, as_bytes, all,
  is_char, is_word, is_whitespace, ok,
}
use strix.Crypto.{encrypt_aes256_gcm}
use strix.Iam.{IamStore}
use strix.Iam.Admin.References.Reachable.{new_store}
use strix.Iam.Secrets.{derive_encryption_key, encrypt_secret}
use strix.Iam.Smtp.{encryption_key}
use strix.Iam.Oidc.{
  OidcConfig, to_row, oidc_config_to_raw, collect_configs, list_oidc_providers, get_oidc_provider,
  create_oidc_provider, update_oidc_provider,
}
use strix.Iam.Oidc.Collected.{is_provider}
use strix.Iam.Oidc.Simulated.{Operation, create, update_with, apply_all, run_all, run_all-lists}
use strix.Examples.Objects.{ciphers, ciphers-IsAead, nonce}
use strix.Examples.Mail.{ciphers-IsBase64, hash}

abbrev secret : Text
secret = codes "café"

abbrev provider : OidcConfig
provider = record {
  id = codes "azure";
  name = codes "Azure";
  enabled = true;
  issuer_url = codes "https://login";
  client_id = codes "strix";
  client_secret = secret;
  redirect_uri = codes "https://strix";
  scopes = codes "openid" ∷ codes "email" ∷ [];
  username_claim = codes "email";
  groups_claim = none;
  auto_create_users = true;
  default_policy = none;
  group_policy_mappings = (codes "admins", codes "AdministratorAccess") ∷ [];
}

abbrev renamed : OidcConfig
renamed = record provider { name = codes "Entra"; client_secret = [] }

abbrev empty : IamStore
empty = new_store (codes "AKROOT") (codes "root's secret")

abbrev with_provider : IamStore
with_provider = record empty {
  oidc_providers = to_row renamed (nonce ++ as_bytes secret ++ replicate 16 0) ∷ [];
}

abbrev operations : List Operation
operations = create nonce provider ∷ update_with nonce renamed ∷ []

configuring : run_all ciphers hash empty operations ≡ ok with_provider
unfolding create_oidc_provider update_oidc_provider oidc_config_to_raw encrypt_secret
    encrypt_aes256_gcm encryption_key derive_encryption_key text_eq to_row
configuring = refl

no_providers : list_oidc_providers ciphers hash empty ≡ ok []
unfolding list_oidc_providers collect_configs
no_providers = refl

secret_chars : all is_char secret ≡ true
unfolding is_char
secret_chars = refl

scope_words : all is_word provider.scopes ≡ true
unfolding is_word is_whitespace
scope_words = refl

run_all-lists_example :
    (next : List OidcConfig) × (apply_all [] operations ≡ ok next)
    × (list_oidc_providers ciphers hash with_provider ≡ ok next)
    × ((id : Text)
        → get_oidc_provider ciphers hash with_provider id ≡ ok (find (is_provider id) next))
run_all-lists_example =
    run_all-lists ciphers hash ciphers-IsAead ciphers-IsBase64 empty with_provider operations []
      ((refl, secret_chars, scope_words), ((refl, refl, scope_words), tt)) no_providers configuring
