-- ===== src/Iam/Smtp.antt =====
-- The settings of the mail relay: crates/strix-iam/src/store.rs, with the types of smtp.rs.
pub mod Kept
use strix.Base.{
  ℕ, ◌%◌, Bool, List, [], ◌∷◌, Option, none, some, Text, codes, text_eq, to_ascii_lowercase,
  if◌then◌else◌, Result, ok, err, ok_or, ◌>>=◌,
}
use strix.Crypto.{Bytes, Ciphers}
use strix.Iam.{UsageReportSchedule, daily, weekly, SmtpConfigRaw, IamStore, IamError, encryption}
use strix.Iam.Secrets.{is_empty, derive_encryption_key, encrypt_secret, decrypt_secret}

pub record SmtpConfig : Type 0 where
  pub enabled : Bool
  pub host : Text
  pub port : ℕ
  pub username : Text
  pub password : Text
  pub from_address : Text
  pub from_name : Option Text
  pub use_starttls : Bool
  pub alert_on_delivery_failure : Bool
  pub send_usage_reports : Bool
  pub usage_report_schedule : UsageReportSchedule
  pub alert_on_audit_events : Bool
  pub alert_recipients : List Text

unfoldable pub as_str : UsageReportSchedule → Text
as_str daily = codes "daily"
as_str weekly = codes "weekly"

-- `parse::<UsageReportSchedule>()`
unfoldable pub from_str : Text → Option UsageReportSchedule
unfolding to_ascii_lowercase text_eq
from_str s =
    let lower = to_ascii_lowercase s in
    if text_eq lower (codes "daily")
    then some daily
    else if text_eq lower (codes "weekly")
    then some weekly
    else none

-- `unwrap_or_default`
abbrev schedule_or_default : Option UsageReportSchedule → UsageReportSchedule
schedule_or_default none = weekly
schedule_or_default (some schedule) = schedule

abbrev list_or_default : Option (List Text) → List Text
list_or_default none = []
list_or_default (some texts) = texts

abbrev text_or_default : Option Text → Text
text_or_default none = []
text_or_default (some text) = text

-- `as u16`
abbrev pub smtp_row_to_raw : SmtpConfigRaw → SmtpConfigRaw
smtp_row_to_raw row = record row { port = row.port % 65536 }

unfoldable pub into_config_without_secret : SmtpConfigRaw → SmtpConfig
unfolding from_str
into_config_without_secret raw = record {
  enabled = raw.enabled;
  host = raw.host;
  port = raw.port;
  username = raw.username;
  password = [];
  from_address = raw.from_address;
  from_name = raw.from_name;
  use_starttls = raw.use_starttls;
  alert_on_delivery_failure = raw.alert_on_delivery_failure;
  send_usage_reports = raw.send_usage_reports;
  usage_report_schedule = schedule_or_default (from_str raw.usage_report_schedule);
  alert_on_audit_events = raw.alert_on_audit_events;
  alert_recipients = list_or_default raw.alert_recipients;
}

-- `raw.map(|r| r.into_config_without_secret())`
unfoldable pub get_smtp_config : IamStore → Option SmtpConfig
unfolding into_config_without_secret
get_smtp_config s = elim s.smtp_config [
  | none ↦ none
  | some row ↦ some (into_config_without_secret (smtp_row_to_raw row))
]

-- The row that the database has, with the password that it keeps where none is given.
abbrev pub stored_password : IamStore → Option Text → Text
stored_password s (some enc) = enc
stored_password s none = elim s.smtp_config [
  | none ↦ text_or_default none
  | some raw ↦ raw.password_enc
]

unfoldable pub to_raw : SmtpConfig → Text → SmtpConfigRaw
unfolding as_str
to_raw config password_enc = record {
  enabled = config.enabled;
  host = config.host;
  port = config.port;
  username = config.username;
  password_enc = password_enc;
  from_address = config.from_address;
  from_name = config.from_name;
  use_starttls = config.use_starttls;
  alert_on_delivery_failure = config.alert_on_delivery_failure;
  send_usage_reports = config.send_usage_reports;
  usage_report_schedule = as_str config.usage_report_schedule;
  alert_on_audit_events = config.alert_on_audit_events;
  alert_recipients = some config.alert_recipients;
}

-- `sha256` is the hash of the crate sha2.
module _ (c : Ciphers) (sha256 : Bytes → Bytes) where
  -- The field that `IamStore::new` computes.
  unfoldable pub encryption_key : IamStore → Bytes
  unfolding derive_encryption_key
  encryption_key s = derive_encryption_key sha256 s.root_secret_key

  unfoldable pub decrypt_password : IamStore → SmtpConfigRaw → Result IamError Text
  unfolding encryption_key decrypt_secret
  decrypt_password s raw =
      if is_empty raw.password_enc
      then ok []
      else decrypt_secret c raw.password_enc (encryption_key s)

  unfoldable pub with_password : IamStore → SmtpConfigRaw → Result IamError (Option SmtpConfig)
  unfolding decrypt_password into_config_without_secret
  with_password s raw = do
    password ← decrypt_password s raw
    ok (some (record (into_config_without_secret raw) { password = password }))

  unfoldable pub get_smtp_config_with_secret : IamStore → Result IamError (Option SmtpConfig)
  unfolding with_password
  get_smtp_config_with_secret s = elim s.smtp_config [
    | none ↦ ok none
    | some row ↦ with_password s (smtp_row_to_raw row)
  ]

  unfoldable pub encrypt_password : IamStore → Bytes → Text → Result IamError (Option Text)
  unfolding encryption_key encrypt_secret
  encrypt_password s nonce [] = ok none
  encrypt_password s nonce (x ∷ password) = do
    enc ← encrypt_secret c nonce (x ∷ password) (encryption_key s)
    ok (some enc)

  -- `serde_json` writes every list of texts.
  unfoldable pub set_smtp_config : IamStore → Bytes → SmtpConfig → Result IamError IamStore
  unfolding encrypt_password to_raw
  set_smtp_config s nonce config = do
    password_enc ← encrypt_password s nonce config.password
    ok (record s { smtp_config = some (to_raw config (stored_password s password_enc)) })
