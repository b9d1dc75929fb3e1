-- ===== src/Examples/Mail.antt =====
-- The mail relay gets a password, and then another host.
use strix.Base.{
  ◌≡◌, refl, false, true, [], ◌∷◌, ◌++◌, replicate, none, some, Text, codes, as_bytes, ok, all,
  is_char, arith,
}
use strix.Crypto.{Bytes, encrypt_aes256_gcm}
use strix.Iam.{daily, IamStore}
use strix.Iam.Admin.References.Reachable.{new_store}
use strix.Iam.Secrets.{IsBase64, derive_encryption_key, encrypt_secret}
use strix.Iam.Smtp.{
  SmtpConfig, to_raw, encryption_key, encrypt_password, set_smtp_config, get_smtp_config,
  get_smtp_config_with_secret,
}
use strix.Iam.Smtp.Kept.{set_password, set_all, get-set_all}
use strix.Examples.Objects.{ciphers, ciphers-IsAead, nonce}

pub ciphers-IsBase64 : IsBase64 ciphers
ciphers-IsBase64 = (λ bytes. refl, refl)

abbrev pub hash : Bytes → Bytes
hash bytes = replicate 32 7

abbrev with_secret : SmtpConfig
with_secret = record {
  enabled = true;
  host = codes "mail";
  port = 587;
  username = codes "strix";
  password = codes "é secret";
  from_address = codes "strix@mail";
  from_name = none;
  use_starttls = true;
  alert_on_delivery_failure = false;
  send_usage_reports = true;
  usage_report_schedule = daily;
  alert_on_audit_events = false;
  alert_recipients = codes "ops@mail" ∷ [];
}

abbrev moved : SmtpConfig
moved = record with_secret { host = codes "relay"; password = [] }

abbrev empty : IamStore
empty = new_store (codes "AKROOT") (codes "root's secret")

abbrev stored : Text
stored = nonce ++ as_bytes (codes "é secret") ++ replicate 16 0

abbrev configured : IamStore
configured = record empty { smtp_config = some (to_raw moved stored) }

configuring :
    set_all ciphers hash empty ((nonce, with_secret) ∷ (nonce, moved) ∷ []) ≡ ok configured
unfolding set_smtp_config encrypt_password encrypt_secret encrypt_aes256_gcm encryption_key
    derive_encryption_key
configuring = refl

nothing_stored : get_smtp_config_with_secret ciphers hash empty ≡ ok none
unfolding get_smtp_config_with_secret
nothing_stored = refl

secret_chars : all is_char (codes "é secret") ≡ true
unfolding is_char
secret_chars = refl

get-set_all_example :
    (get_smtp_config_with_secret ciphers hash configured
      ≡ ok (some (set_password moved (codes "é secret"))))
    × (get_smtp_config configured ≡ some moved)
get-set_all_example =
    get-set_all ciphers hash ciphers-IsAead ciphers-IsBase64 empty configured
      ((nonce, with_secret) ∷ (nonce, moved) ∷ []) none
      ((refl, secret_chars, omega arith), ((refl, refl, omega arith), tt)) nothing_stored
      configuring
