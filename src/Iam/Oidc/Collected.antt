-- ===== src/Iam/Oidc/Collected.antt =====
-- Lists of rows, and the configurations that they read as.
use strix.Base.{
  ◌≡◌, refl, sym, ◌∙◌, inl, inr, Bool, true, List, [], ◌∷◌, ◌++◌, none, some, Text, text_eq, any,
  find, update, remove, Bool-cases, if◌then◌else◌, ok, ◌>>=◌, >>=-eq-ok, ok-injective,
}
use strix.Crypto.{Bytes, Ciphers}
use strix.Iam.{OidcProviderRaw, IamStore}
use strix.Iam.Secrets.{is_empty, decrypt_secret}
use strix.Iam.Smtp.{encryption_key}
use strix.Iam.Oidc.{
  OidcConfig, is_row, of_row, raw_to_oidc_config, collect_configs, list_oidc_providers,
  get_oidc_provider,
}

abbrev pub is_provider : Text → OidcConfig → Bool
is_provider id config = text_eq config.id id

module _ (c : Ciphers) (key : Bytes) where
  id-raw_to_oidc_config :
      (raw : OidcProviderRaw) (config : OidcConfig)
      → raw_to_oidc_config c key raw ≡ ok config
      → config.id ≡ raw.id
  unfolding raw_to_oidc_config of_row
  id-raw_to_oidc_config raw config e =
      let (secret, _, e₁) =
        >>=-eq-ok
          (if is_empty raw.client_secret_enc
            then ok []
            else decrypt_secret c raw.client_secret_enc key)
          _ e in
      rw (← ok-injective e₁) refl

  collect-cons :
      (row : OidcProviderRaw) (rows : List OidcProviderRaw) (config : OidcConfig)
      (configs : List OidcConfig)
      → raw_to_oidc_config c key row ≡ ok config
      → collect_configs c key rows ≡ ok configs
      → collect_configs c key (row ∷ rows) ≡ ok (config ∷ configs)
  unfolding collect_configs
  collect-cons row rows config configs h k = rw (h, k) refl

  collect-cons_inv :
      (row : OidcProviderRaw) (rows : List OidcProviderRaw) {cfgs : List OidcConfig}
      → collect_configs c key (row ∷ rows) ≡ ok cfgs
      → (config : OidcConfig) × (configs : List OidcConfig) × (raw_to_oidc_config c key row
          ≡ ok config)
        × (collect_configs c key rows ≡ ok configs)
        × (config ∷ configs ≡ cfgs)
  unfolding collect_configs
  collect-cons_inv row rows e =
      let (config, one, e₁) = >>=-eq-ok (raw_to_oidc_config c key row) _ e in
      let (configs, rest, e₂) = >>=-eq-ok (collect_configs c key rows) _ e₁ in
      (config, configs, one, rest, ok-injective e₂)

  same_test :
      (id : Text) (row : OidcProviderRaw) (config : OidcConfig)
      → raw_to_oidc_config c key row ≡ ok config
      → is_row id row ≡ is_provider id config
  same_test id row config e = rw (id-raw_to_oidc_config row config e) refl

  collect-nil : {cfgs : List OidcConfig} → collect_configs c key [] ≡ ok cfgs → [] ≡ cfgs
  unfolding collect_configs
  collect-nil e = ok-injective e

  collect-empty : collect_configs c key [] ≡ ok []
  unfolding collect_configs
  collect-empty = refl

  pub any-collect :
      (id : Text) (rows : List OidcProviderRaw) (cfgs : List OidcConfig)
      → collect_configs c key rows ≡ ok cfgs
      → any (is_row id) rows ≡ any (is_provider id) cfgs
  any-collect id [] cfgs e = rw (← collect-nil e) refl
  any-collect id (row ∷ rows) cfgs e =
      let (config, configs, one, rest, same) = collect-cons_inv row rows e in
      rw (← same, same_test id row config one, any-collect id rows configs rest) refl

  pub collect-append :
      (rows : List OidcProviderRaw) (cfgs : List OidcConfig) (raw : OidcProviderRaw)
      (config : OidcConfig)
      → collect_configs c key rows ≡ ok cfgs
      → raw_to_oidc_config c key raw ≡ ok config
      → collect_configs c key (rows ++ raw ∷ []) ≡ ok (cfgs ++ config ∷ [])
  collect-append [] cfgs raw new e h =
      rw (← collect-nil e) (collect-cons raw [] new [] h collect-empty)
  collect-append (row ∷ rows) cfgs raw new e h =
      let (config, configs, one, rest, same) = collect-cons_inv row rows e in
      rw (← same) (
        collect-cons row (rows ++ raw ∷ []) config (configs ++ new ∷ []) one
          (collect-append rows configs raw new rest h))

  pub collect-remove :
      (id : Text) (rows : List OidcProviderRaw) (cfgs : List OidcConfig)
      → collect_configs c key rows ≡ ok cfgs
      → collect_configs c key (remove (is_row id) rows) ≡ ok (remove (is_provider id) cfgs)
  collect-remove id [] cfgs e = rw (← collect-nil e) collect-empty
  collect-remove id (row ∷ rows) cfgs e =
      let (config, configs, one, rest, same) = collect-cons_inv row rows e in
      let ih = collect-remove id rows configs rest in
      let test = same_test id row config one in
      rw (← same, test)
        (elim (Bool-cases (is_provider id config)) [
          | inl gone ↦ rw gone ih
          | inr stays ↦ rw stays (
              collect-cons row (remove (is_row id) rows) config (remove (is_provider id) configs)
                one ih)
        ])

  pub collect-update :
      (id : Text) (f : OidcProviderRaw → OidcProviderRaw) (g : OidcConfig → OidcConfig)
      (rows : List OidcProviderRaw) (cfgs : List OidcConfig)
      → ((row : OidcProviderRaw) (config : OidcConfig)
          → is_row id row ≡ true
          → raw_to_oidc_config c key row ≡ ok config
          → raw_to_oidc_config c key (f row) ≡ ok (g config))
      → collect_configs c key rows ≡ ok cfgs
      → collect_configs c key (update (is_row id) f rows) ≡ ok (update (is_provider id) g cfgs)
  collect-update id f g [] cfgs h e = rw (← collect-nil e) collect-empty
  collect-update id f g (row ∷ rows) cfgs h e =
      let (config, configs, one, rest, same) = collect-cons_inv row rows e in
      let ih = collect-update id f g rows configs h rest in
      let test = same_test id row config one in
      rw (← same) (elim (Bool-cases (is_row id row)) [
        | inl t ↦
            rw (t, sym test ∙ t)
              (collect-cons (f row) (update (is_row id) f rows) (g config)
                (update (is_provider id) g configs) (h row config t one) ih)
        | inr t ↦
            rw (t, sym test ∙ t)
              (collect-cons row (update (is_row id) f rows) config
                (update (is_provider id) g configs) one ih)
      ])

module _ (c : Ciphers) (sha256 : Bytes → Bytes) where
  find-collect :
      (key : Bytes) (id : Text) (rows : List OidcProviderRaw) (cfgs : List OidcConfig)
      → collect_configs c key rows ≡ ok cfgs
      → elim (find (is_row id) rows) [
        | none ↦ ok none
        | some row ↦ raw_to_oidc_config c key row >>= λ config. ok (some config)
      ]
        ≡ ok (find (is_provider id) cfgs)
  find-collect key id [] cfgs e = rw (← collect-nil c key e) refl
  find-collect key id (row ∷ rows) cfgs e =
      let (config, configs, one, rest, same) = collect-cons_inv c key row rows e in
      let ih = find-collect key id rows configs rest in
      let test = same_test c key id row config one in
      rw (← same) (elim (Bool-cases (is_row id row)) [
        | inl t ↦ rw (t, sym test ∙ t, one) refl
        | inr t ↦ rw (t, sym test ∙ t) ih
      ])

  pub get_oidc_provider-find :
      (s : IamStore) (id : Text) (cfgs : List OidcConfig)
      → list_oidc_providers c sha256 s ≡ ok cfgs
      → get_oidc_provider c sha256 s id ≡ ok (find (is_provider id) cfgs)
  unfolding get_oidc_provider list_oidc_providers
  get_oidc_provider-find s id cfgs h =
      find-collect (encryption_key c sha256 s) id s.oidc_providers cfgs h
