-- ===== src/Iam/Oidc/Simulated.antt =====
-- The providers as a list of configurations, which the encrypted rows stand for.
use strix.Base.{
  ◌≡◌, refl, ap, sym, ◌∙◌, false, not, List, [], ◌∷◌, ◌++◌, Text, any, find, update, remove, Result,
  ok, reject_if, ◌>>=◌, ◌>>◌, >>=-eq-ok, ok-injective, reject_if-eq-ok,
}
use strix.Crypto.{Bytes, Ciphers}
use strix.Crypto.RoundTrip.{IsAead}
use strix.Iam.{IamStore, IamError}
use strix.Iam.Secrets.{IsBase64, is_empty}
use strix.Iam.Smtp.{encryption_key}
use strix.Iam.Oidc.Stored.{IsProvider, updated, raw_to-config_to_raw, raw_to-rewrite_row}
use strix.Iam.Oidc.{
  OidcConfig, exists_error, not_found_error, is_row, rewrite_row, oidc_config_to_raw,
  list_oidc_providers, get_oidc_provider, create_oidc_provider, update_oidc_provider,
  delete_oidc_provider,
}
use strix.Iam.Oidc.Collected.{
  is_provider, any-collect, collect-append, collect-remove, collect-update, get_oidc_provider-find,
}

-- An operation on the providers; the nonce is drawn at random.
pub data Operation : Type 0 where
  create update_with : Bytes → OidcConfig → Operation
  delete : Text → Operation

abbrev pub AreProviders : List Operation → Type 0
AreProviders [] = Unit {0}
AreProviders (create nonce config ∷ operations) = IsProvider nonce config × AreProviders operations
AreProviders (update_with nonce config ∷ operations) =
    IsProvider nonce config × AreProviders operations
AreProviders (delete id ∷ operations) = AreProviders operations

-- The operations on a list of configurations, without a database and without encryption.
abbrev pub apply_to : List OidcConfig → Operation → Result IamError (List OidcConfig)
apply_to configs (create _ config) = do
  reject_if (any (is_provider config.id) configs) (exists_error config.id)
  ok (configs ++ config ∷ [])
apply_to configs (update_with _ config) = do
  reject_if (not (any (is_provider config.id) configs)) (not_found_error config.id)
  ok (update (is_provider config.id) (updated config) configs)
apply_to configs (delete id) = do
  reject_if (not (any (is_provider id) configs)) (not_found_error id)
  ok (remove (is_provider id) configs)

abbrev pub apply_all : List OidcConfig → List Operation → Result IamError (List OidcConfig)
apply_all configs [] = ok configs
apply_all configs (operation ∷ operations) =
    apply_to configs operation >>= λ next. apply_all next operations

module _ (c : Ciphers) (sha256 : Bytes → Bytes) where
  abbrev pub run : IamStore → Operation → Result IamError IamStore
  run s (create nonce config) = create_oidc_provider c sha256 s nonce config
  run s (update_with nonce config) = update_oidc_provider c sha256 s nonce config
  run s (delete id) = delete_oidc_provider s id

  abbrev pub run_all : IamStore → List Operation → Result IamError IamStore
  run_all s [] = ok s
  run_all s (operation ∷ operations) = run s operation >>= λ next. run_all next operations

  abbrev Lists : IamStore → List OidcConfig → Type 0
  Lists s configs = list_oidc_providers c sha256 s ≡ ok configs

  -- The operation has an answer on the configurations, and the store lists it.
  abbrev Answers : IamStore → Result IamError (List OidcConfig) → Type 0
  Answers s answer = (next : List OidcConfig) × (answer ≡ ok next) × Lists s next

  module _ (aead : IsAead c) (base64 : IsBase64 c) where
    created-Answers :
        (s s' : IamStore) (nonce : Bytes) (config : OidcConfig) (configs : List OidcConfig)
        → IsProvider nonce config
        → Lists s configs
        → create_oidc_provider c sha256 s nonce config ≡ ok s'
        → Answers s' (apply_to configs (create nonce config))
    unfolding list_oidc_providers create_oidc_provider encryption_key
    created-Answers s s' nonce config configs v h e =
        let key = encryption_key c sha256 s in
        let (raw, written, e₁) = >>=-eq-ok (oidc_config_to_raw c key nonce config) _ e in
        let (_, fresh, e₂) =
          >>=-eq-ok (reject_if (any (is_row config.id) s.oidc_providers) _) _ e₁ in
        let new : any (is_provider config.id) configs ≡ false =
          sym (any-collect c key config.id s.oidc_providers configs h)
          ∙ reject_if-eq-ok _ _ fresh in
        (
          configs ++ config ∷ [],
          rw new refl,
          rw (← ok-injective e₂) (
              collect-append c key s.oidc_providers configs raw config h
                (raw_to-config_to_raw c key aead base64 nonce config raw v written)),
        )

    updated-Answers :
        (s s' : IamStore) (nonce : Bytes) (config : OidcConfig) (configs : List OidcConfig)
        → IsProvider nonce config
        → Lists s configs
        → update_oidc_provider c sha256 s nonce config ≡ ok s'
        → Answers s' (apply_to configs (update_with nonce config))
    unfolding list_oidc_providers update_oidc_provider encryption_key
    updated-Answers s s' nonce config configs v h e =
        let key = encryption_key c sha256 s in
        let (raw, written, e₁) = >>=-eq-ok (oidc_config_to_raw c key nonce config) _ e in
        let (_, there, e₂) =
          >>=-eq-ok (reject_if (not (any (is_row config.id) s.oidc_providers)) _) _ e₁ in
        let old : not (any (is_provider config.id) configs) ≡ false =
          ap not (sym (any-collect c key config.id s.oidc_providers configs h))
          ∙ reject_if-eq-ok _ _ there in
        (
          update (is_provider config.id) (updated config) configs,
          rw old refl,
          rw (← ok-injective e₂) (
              collect-update c key config.id (rewrite_row (not (is_empty config.client_secret)) raw)
                (updated config) s.oidc_providers configs
                (λ row before named read.
                  raw_to-rewrite_row c key aead base64 nonce config raw row before v written named
                    read)
                h),
        )

    deleted-Answers :
        (s s' : IamStore) (id : Text) (configs : List OidcConfig)
        → Lists s configs
        → delete_oidc_provider s id ≡ ok s'
        → Answers s' (apply_to configs (delete id))
    unfolding list_oidc_providers delete_oidc_provider encryption_key
    deleted-Answers s s' id configs h e =
        let key = encryption_key c sha256 s in
        let (_, there, e₁) = >>=-eq-ok (reject_if (not (any (is_row id) s.oidc_providers)) _) _ e in
        let old : not (any (is_provider id) configs) ≡ false =
          ap not (sym (any-collect c key id s.oidc_providers configs h))
          ∙ reject_if-eq-ok _ _ there in
        (
          remove (is_provider id) configs,
          rw old refl,
          rw (← ok-injective e₁) (collect-remove c key id s.oidc_providers configs h),
        )

    run-Answers :
        (s s' : IamStore) (operation : Operation) (operations : List Operation)
        (configs : List OidcConfig)
        → AreProviders (operation ∷ operations)
        → Lists s configs
        → run s operation ≡ ok s'
        → Answers s' (apply_to configs operation) × AreProviders operations
    run-Answers s s' (create nonce config) operations configs (v, vs) h e =
        (created-Answers s s' nonce config configs v h e, vs)
    run-Answers s s' (update_with nonce config) operations configs (v, vs) h e =
        (updated-Answers s s' nonce config configs v h e, vs)
    run-Answers s s' (delete id) operations configs vs h e =
        (deleted-Answers s s' id configs h e, vs)

    -- The table of providers of logins does what a list of configurations does: whatever
    -- creations, updates and deletions succeed one after the other, they succeed on the list
    -- that the store gave before, too, and the store then gives the list that they make of it,
    -- with every secret decrypted and an update with an empty secret keeping the old one; the
    -- lookup of an id gives the first entry with it. The nonces have 12 bytes, the secrets are
    -- texts and every scope is one word; AES-256-GCM opens what it sealed and makes it 16 bytes
    -- longer, and base64 reads what it writes and writes nothing for no bytes.
    pub run_all-lists :
        (s s' : IamStore) (operations : List Operation) (configs : List OidcConfig)
        → AreProviders operations
        → list_oidc_providers c sha256 s ≡ ok configs
        → run_all s operations ≡ ok s'
        → (next : List OidcConfig) × (apply_all configs operations ≡ ok next)
          × (list_oidc_providers c sha256 s' ≡ ok next)
          × ((id : Text) → get_oidc_provider c sha256 s' id ≡ ok (find (is_provider id) next))
    run_all-lists s s' [] configs vs h e =
        let listed : list_oidc_providers c sha256 s' ≡ ok configs = rw (← ok-injective e) h in
        (configs, refl, listed, λ id. get_oidc_provider-find c sha256 s' id configs listed)
    run_all-lists s s' (operation ∷ operations) configs vs h e =
        let (t, one, e₁) = >>=-eq-ok (run s operation) _ e in
        let (answer, ws) = run-Answers s t operation operations configs vs h one in
        let (last, all_of, listed, found) = run_all-lists t s' operations answer.0 ws answer.2 e₁ in
        (last, rw answer.1 all_of, listed, found)
