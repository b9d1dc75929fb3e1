-- ===== src/Iam/Smtp/Kept.antt =====
-- What the settings of the mail relay are after any settings that were stored.
use strix.Base.{
  ◌≡◌, ◌<◌, ◌%◌, refl, ap, true, List, [], ◌∷◌, Option, none, some, Text, all, is_char, length,
  arith, Result, ok, ◌>>=◌, >>=-eq-ok, ok-injective,
}
use strix.Crypto.{Bytes, Ciphers, nonce_size}
use strix.Crypto.RoundTrip.{IsAead}
use strix.Iam.{IamStore, IamError, UsageReportSchedule, daily, weekly, SmtpConfigRaw}
use strix.Iam.Secrets.{IsBase64, encrypt_secret, decrypt-encrypt_secret, encrypt_secret-nonempty}
use strix.Iam.Smtp.{
  SmtpConfig, as_str, from_str, smtp_row_to_raw, into_config_without_secret, to_raw,
  stored_password, encryption_key, decrypt_password, with_password, encrypt_password,
  get_smtp_config, get_smtp_config_with_secret, set_smtp_config,
}

-- Settings with another password.
abbrev pub set_password : SmtpConfig → Text → SmtpConfig
set_password config password = record config { password = password }

-- Settings as they are shown.
abbrev pub hidden : Option SmtpConfig → Option SmtpConfig
hidden none = none
hidden (some config) = some (set_password config [])

-- The password that counts after settings are stored: the new one, or else the one before.
abbrev pub password_of : Option SmtpConfig → Text → Text
password_of before (x ∷ password) = x ∷ password
password_of none [] = []
password_of (some config) [] = config.password

-- The settings that a mail relay has, without a database: the last ones, with the last password that
-- was not empty.
abbrev pub last_settings : Option SmtpConfig → List (Bytes × SmtpConfig) → Option SmtpConfig
last_settings before [] = before
last_settings before ((_, config) ∷ sets) =
    last_settings (some (set_password config (password_of before config.password))) sets

-- A password is a text, a port has 16 bits, and a nonce 12 bytes.
abbrev pub IsSettings : Bytes × SmtpConfig → Type 0
IsSettings (nonce, config) =
    (length nonce ≡ nonce_size) × (all is_char config.password ≡ true) × (config.port < 65536)

abbrev pub AreSettings : List (Bytes × SmtpConfig) → Type 0
AreSettings [] = Unit {0}
AreSettings (set ∷ sets) = IsSettings set × AreSettings sets

from_str-as_str : (schedule : UsageReportSchedule) → from_str (as_str schedule) ≡ some schedule
unfolding from_str as_str
from_str-as_str daily = refl
from_str-as_str weekly = refl

into_config-to_raw :
    (config : SmtpConfig) (enc : Text)
    → config.port < 65536
    → into_config_without_secret (smtp_row_to_raw (to_raw config enc)) ≡ set_password config []
unfolding into_config_without_secret to_raw
into_config-to_raw config enc h =
    let port : config.port % 65536 ≡ config.port = omega arith in
    rw (from_str-as_str config.usage_report_schedule, port) refl

module _ (c : Ciphers) (sha256 : Bytes → Bytes) where
  abbrev pub set_all : IamStore → List (Bytes × SmtpConfig) → Result IamError IamStore
  set_all s [] = ok s
  set_all s ((nonce, config) ∷ sets) =
      set_smtp_config c sha256 s nonce config >>= λ s'. set_all s' sets

  decrypt_password-eq :
      (s : IamStore) (raw : SmtpConfigRaw) (before : Option SmtpConfig)
      → with_password c sha256 s raw ≡ ok before
      → decrypt_password c sha256 s raw ≡ ok (password_of before [])
  unfolding with_password
  decrypt_password-eq s raw before e =
      let (password, read, e₁) = >>=-eq-ok (decrypt_password c sha256 s raw) _ e in
      rw (read, ← ok-injective e₁) refl

  -- Without the password, what is read with it.
  get_smtp_config-hidden :
      (s : IamStore) (row : Option SmtpConfigRaw) (o : Option SmtpConfig)
      → s.smtp_config ≡ row
      → get_smtp_config_with_secret c sha256 s ≡ ok o
      → get_smtp_config s ≡ hidden o
  unfolding get_smtp_config get_smtp_config_with_secret with_password into_config_without_secret
  get_smtp_config-hidden s none o r e =
      let same : ◌≡◌ {A = Result IamError (Option SmtpConfig)} (ok none) (ok o) =
        rw (← e, r) refl in
      rw (r, ← ok-injective same) refl
  get_smtp_config-hidden s (some raw) o r e =
      let read : with_password c sha256 s (smtp_row_to_raw raw) ≡ ok o = rw (← e, r) refl in
      let (password, _, e₁) =
        >>=-eq-ok (decrypt_password c sha256 s (smtp_row_to_raw raw)) _ read in
      rw (r, ← ok-injective e₁) refl

  module _ (aead : IsAead c) (base64 : IsBase64 c) where
    -- A password that is not given stays.
    decrypt_password-kept :
        (s : IamStore) (config : SmtpConfig) (row : Option SmtpConfigRaw)
        (before : Option SmtpConfig)
        → s.smtp_config ≡ row
        → get_smtp_config_with_secret c sha256 s ≡ ok before
        → decrypt_password c sha256 s (to_raw config (stored_password s none))
          ≡ ok (password_of before [])
    unfolding get_smtp_config_with_secret decrypt_password to_raw
    decrypt_password-kept s config none before r e =
        let same : ◌≡◌ {A = Result IamError (Option SmtpConfig)} (ok none) (ok before) =
          rw (← e, r) refl in
        rw (r, ← ok-injective same) refl
    decrypt_password-kept s config (some raw) before r e =
        let read : with_password c sha256 s (smtp_row_to_raw raw) ≡ ok before = rw (← e, r) refl in
        let p = decrypt_password-eq s (smtp_row_to_raw raw) before read in rw (← p, r) refl

    -- A password that is given is stored.
    decrypt_password-stored :
        (s : IamStore) (config : SmtpConfig) (nonce : Bytes) (password enc : Text)
        → length nonce ≡ nonce_size
        → all is_char password ≡ true
        → encrypt_secret c nonce password (encryption_key c sha256 s) ≡ ok enc
        → decrypt_password c sha256 s (to_raw config enc) ≡ ok password
    unfolding decrypt_password to_raw
    decrypt_password-stored s config nonce password enc n chars e =
        rw
          (
            encrypt_secret-nonempty c aead base64 nonce (encryption_key c sha256 s) password enc n
                chars e,
            decrypt-encrypt_secret c aead base64 nonce (encryption_key c sha256 s) password enc n
                chars e,
          )
          refl

    decrypt_password-set :
        (s : IamStore) (config : SmtpConfig) (nonce : Bytes) (password : Text)
        (before : Option SmtpConfig) (enc : Option Text)
        → length nonce ≡ nonce_size
        → all is_char password ≡ true
        → get_smtp_config_with_secret c sha256 s ≡ ok before
        → encrypt_password c sha256 s nonce password ≡ ok enc
        → decrypt_password c sha256 s (to_raw config (stored_password s enc))
          ≡ ok (password_of before password)
    unfolding encrypt_password
    decrypt_password-set s config nonce [] before enc n chars h e =
        rw (← ok-injective e) (decrypt_password-kept s config s.smtp_config before refl h)
    decrypt_password-set s config nonce (x ∷ password) before enc n chars h e =
        let (text, stored, e₁) =
          >>=-eq-ok (encrypt_secret c nonce (x ∷ password) (encryption_key c sha256 s)) _ e in
        rw (← ok-injective e₁)
          (decrypt_password-stored s config nonce (x ∷ password) text n chars stored)

    get-set_smtp_config :
        (s s' : IamStore) (nonce : Bytes) (config : SmtpConfig) (before : Option SmtpConfig)
        → IsSettings (nonce, config)
        → get_smtp_config_with_secret c sha256 s ≡ ok before
        → set_smtp_config c sha256 s nonce config ≡ ok s'
        → get_smtp_config_with_secret c sha256 s'
          ≡ ok (some (set_password config (password_of before config.password)))
    unfolding set_smtp_config get_smtp_config_with_secret with_password decrypt_password
        encryption_key
    get-set_smtp_config s s' nonce config before (n, chars, port) h e =
        let (enc, stored, e₁) = >>=-eq-ok (encrypt_password c sha256 s nonce config.password) _ e in
        let raw = smtp_row_to_raw (to_raw config (stored_password s enc)) in
        let read : decrypt_password c sha256 s raw ≡ ok (password_of before config.password) =
          decrypt_password-set s config nonce config.password before enc n chars h stored in
        let same = into_config-to_raw config (stored_password s enc) port in
        let password = password_of before config.password in
        rw (← ok-injective e₁, read) (ap (λ shown. ok (some (set_password shown password))) same)

    get-set_all_secret :
        (s s' : IamStore) (sets : List (Bytes × SmtpConfig)) (before : Option SmtpConfig)
        → AreSettings sets
        → get_smtp_config_with_secret c sha256 s ≡ ok before
        → set_all s sets ≡ ok s'
        → get_smtp_config_with_secret c sha256 s' ≡ ok (last_settings before sets)
    get-set_all_secret s s' [] before v h e = rw (← ok-injective e) h
    get-set_all_secret s s' ((nonce, config) ∷ sets) before (v, vs) h e =
        let (t, one, e₁) = >>=-eq-ok (set_smtp_config c sha256 s nonce config) _ e in
        let next = set_password config (password_of before config.password) in
        get-set_all_secret t s' sets (some next) vs
          (get-set_smtp_config s t nonce config before v h one) e₁

    -- Whatever settings of the mail relay are stored one after the other with success, the
    -- reader for the mail transport then gives the last ones with the last password that was
    -- not empty, and the reader for the API gives the same without a password; before the first
    -- ones, the reader for the mail transport answered. The nonces have 12 bytes, the ports 16
    -- bits and the passwords are texts; AES-256-GCM opens what it sealed and makes it 16 bytes
    -- longer, and base64 reads what it writes and writes nothing for no bytes.
    pub get-set_all :
        (s s' : IamStore) (sets : List (Bytes × SmtpConfig)) (before : Option SmtpConfig)
        → AreSettings sets
        → get_smtp_config_with_secret c sha256 s ≡ ok before
        → set_all s sets ≡ ok s'
        → (get_smtp_config_with_secret c sha256 s' ≡ ok (last_settings before sets))
          × (get_smtp_config s' ≡ hidden (last_settings before sets))
    get-set_all s s' sets before v h e =
        let last = get-set_all_secret s s' sets before v h e in
        (last, get_smtp_config-hidden s' s'.smtp_config (last_settings before sets) refl last)
