-- ===== src/Iam/Oidc/Stored.antt =====
-- A row reads as the configuration that was written, also after an update without a secret.
use strix.Base.{
  ◌≡◌, refl, ap, inl, inr, true, false, not, [], ◌∷◌, Text, text_eq_iff, all, is_char, is_word,
  split_whitespace-join_words, Bool-cases, if◌then◌else◌, length, Result, ok, >>=-eq-ok,
  ok-injective,
}
use strix.Crypto.{Bytes, Ciphers, nonce_size}
use strix.Crypto.RoundTrip.{IsAead}
use strix.Iam.{OidcProviderRaw, IamError}
use strix.Iam.Secrets.{
  IsBase64, is_empty, encrypt_secret, decrypt_secret, decrypt-encrypt_secret,
  encrypt_secret-nonempty,
}
use strix.Iam.Oidc.{
  OidcConfig, is_row, to_row, of_row, rewrite_row, oidc_config_to_raw, raw_to_oidc_config,
}

-- A nonce has 12 bytes, a secret is a text, and a scope is one word.
abbrev pub IsProvider : Bytes → OidcConfig → Type 0
IsProvider nonce config =
    (length nonce ≡ nonce_size)
    × (all is_char config.client_secret ≡ true)
    × (all is_word config.scopes ≡ true)

abbrev pub set_secret : OidcConfig → Text → OidcConfig
set_secret config secret = record config { client_secret = secret }

-- What an update makes of a configuration: an empty secret keeps the old one.
abbrev pub updated : OidcConfig → OidcConfig → OidcConfig
updated config old =
    if is_empty config.client_secret then set_secret config old.client_secret else config

is_empty-eq : (s : Text) → is_empty s ≡ true → s ≡ []
is_empty-eq [] h = refl
is_empty-eq (x ∷ s) h = cc

of-to_row :
    (config : OidcConfig) (enc secret : Text)
    → all is_word config.scopes ≡ true
    → of_row (to_row config enc) secret ≡ set_secret config secret
unfolding of_row to_row
of-to_row config enc secret h = rw (split_whitespace-join_words config.scopes h) refl

module _ (c : Ciphers) (key : Bytes) where
  abbrev read_secret : Text → Result IamError Text
  read_secret enc = if is_empty enc then ok [] else decrypt_secret c enc key

  raw_to-row :
      (config : OidcConfig) (enc secret : Text)
      → all is_word config.scopes ≡ true
      → read_secret enc ≡ ok secret
      → raw_to_oidc_config c key (to_row config enc) ≡ ok (set_secret config secret)
  unfolding raw_to_oidc_config to_row
  raw_to-row config enc secret h e = rw e (ap ok (of-to_row config enc secret h))

  raw_to-secret :
      (row : OidcProviderRaw) (old : OidcConfig)
      → raw_to_oidc_config c key row ≡ ok old
      → read_secret row.client_secret_enc ≡ ok old.client_secret
  unfolding raw_to_oidc_config of_row
  raw_to-secret row old e =
      let (secret, read, e₁) = >>=-eq-ok (read_secret row.client_secret_enc) _ e in
      rw (read, ← ok-injective e₁) refl

  config_to_raw_inv :
      (nonce : Bytes) (config : OidcConfig) (raw : OidcProviderRaw)
      → oidc_config_to_raw c key nonce config ≡ ok raw
      → (enc : Text) × ((if is_empty config.client_secret
            then ok []
            else encrypt_secret c nonce config.client_secret key)
          ≡ ok enc)
        × (to_row config enc ≡ raw)
  unfolding oidc_config_to_raw
  config_to_raw_inv nonce config raw e =
      let (enc, one, e₁) =
        >>=-eq-ok
          (if is_empty config.client_secret
            then ok []
            else encrypt_secret c nonce config.client_secret key)
          _ e in
      (enc, one, ok-injective e₁)

  -- An update without a secret.
  raw_to-kept :
      (config : OidcConfig) (enc : Text) (row : OidcProviderRaw) (old : OidcConfig)
      → all is_word config.scopes ≡ true
      → row.id ≡ config.id
      → raw_to_oidc_config c key row ≡ ok old
      → raw_to_oidc_config c key (rewrite_row false (to_row config enc) row)
        ≡ ok (set_secret config old.client_secret)
  unfolding to_row
  raw_to-kept config enc row old h same e =
      rw same
        (raw_to-row config row.client_secret_enc old.client_secret h (raw_to-secret row old e))

  module _ (aead : IsAead c) (base64 : IsBase64 c) where
    read-stored :
        (nonce : Bytes) (config : OidcConfig) (enc : Text)
        → IsProvider nonce config
        → (if is_empty config.client_secret
            then ok []
            else encrypt_secret c nonce config.client_secret key)
          ≡ ok enc
        → read_secret enc ≡ ok config.client_secret
    read-stored nonce config enc (n, chars, _) e =
        elim (Bool-cases (is_empty config.client_secret)) [
          | inl none_given ↦
              let none : ◌≡◌ {A = Result IamError Text} (ok []) (ok enc) =
                rw (← e, none_given) refl in
              rw (← ok-injective none, is_empty-eq config.client_secret none_given) refl
          | inr given ↦
              let sealed : encrypt_secret c nonce config.client_secret key ≡ ok enc =
                rw (← e, given) refl in
              rw
                (
                  encrypt_secret-nonempty c aead base64 nonce key config.client_secret enc n chars
                      sealed,
                  decrypt-encrypt_secret c aead base64 nonce key config.client_secret enc n chars
                      sealed,
                )
                refl
        ]

    pub raw_to-config_to_raw :
        (nonce : Bytes) (config : OidcConfig) (raw : OidcProviderRaw)
        → IsProvider nonce config
        → oidc_config_to_raw c key nonce config ≡ ok raw
        → raw_to_oidc_config c key raw ≡ ok config
    raw_to-config_to_raw nonce config raw v e =
        let (enc, one, same) = config_to_raw_inv nonce config raw e in
        rw (← same)
          (raw_to-row config enc config.client_secret v.2 (read-stored nonce config enc v one))

    pub raw_to-rewrite_row :
        (nonce : Bytes) (config : OidcConfig) (raw row : OidcProviderRaw) (old : OidcConfig)
        → IsProvider nonce config
        → oidc_config_to_raw c key nonce config ≡ ok raw
        → is_row config.id row ≡ true
        → raw_to_oidc_config c key row ≡ ok old
        → raw_to_oidc_config c key (rewrite_row (not (is_empty config.client_secret)) raw row)
          ≡ ok (updated config old)
    unfolding to_row
    raw_to-rewrite_row nonce config raw row old v e named h =
        let (enc, one, same) = config_to_raw_inv nonce config raw e in
        let id : row.id ≡ config.id = (text_eq_iff row.id config.id).0 named in
        elim (Bool-cases (is_empty config.client_secret)) [
          | inl none_given ↦ rw (none_given, ← same) (raw_to-kept config enc row old v.2 id h)
          | inr given ↦
              rw (given, ← same, id)
                (raw_to-row config enc config.client_secret v.2
                  (read-stored nonce config enc v one))
        ]
