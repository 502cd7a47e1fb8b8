-- ===== src/Notify/Smtp/Saving.antt =====
-- internal/web/handlers.go: the smtp part of `UpdateSettings`. The check of an address against the
-- regular expression for e-mail addresses is a parameter.
use loomwatch.Prelude.{
  Bool, true, not, ◌&&◌, ◌||◌, Option, List, [], ◌∷◌, Result, ok, err, ◌==◌, nat_eq, string_eq,
  list_eq, if◌then◌else◌, String,
}
use loomwatch.Prelude.Int.{ℤ, pos, pos_part, ltb_ℤ}
use loomwatch.Notify.Base64.{Bytes}
use loomwatch.Notify.Crypto.{Cipher, CryptoError, encrypt, is_encrypted_value}
use loomwatch.Notify.Smtp.{
  JsonValue, text, SmtpSettings, SmtpSetting, unreadable, unset, malformed, saved, split_commas,
  recipients, is_empty,
}

-- The body under "smtp".
pub record PostedSmtp : Type 0 where
  pub host : String
  pub port : ℤ
  pub protocol : String
  pub username : String
  pub password : Bytes
  pub from_address : String
  pub from_name : String
  pub to : String

pub data SaveError : Type 0 where
  bad_port bad_protocol bad_from_address bad_recipient encryption_failed not_saved : SaveError

abbrev valid_protocol : String → Bool
valid_protocol p = p == "auto" || p == "tls" || p == "starttls" || p == "none" || p == ""

abbrev all_emails : (String → Bool) → List String → Bool
all_emails is_email [] = true
all_emails is_email (addr ∷ addrs) = is_email addr && all_emails is_email addrs

-- The password of the stored settings, where it is a text.
abbrev stored_text : JsonValue → Bytes
stored_text (text b) = b
stored_text JsonValue.missing = []
stored_text JsonValue.null = []
stored_text JsonValue.not_text = []

abbrev stored_password : SmtpSetting → Bytes
stored_password unreadable = []
stored_password unset = []
stored_password malformed = []
stored_password (saved s) = stored_text s.password

-- The settings that are stored, with the password as it is written.
abbrev pub stored_as : PostedSmtp → Bytes → SmtpSettings
stored_as p password = record {
  host = p.host;
  port = pos_part p.port;
  protocol = p.protocol;
  username = p.username;
  password = text password;
  from_address = p.from_address;
  from_name = p.from_name;
  to = p.to;
}

module _ (c : Cipher) (random : Option Bytes) (saves : Bool) (is_email : String → Bool)
    (key : Bytes) where
  abbrev save_as :
      PostedSmtp
      → SmtpSetting
      → Result CryptoError Bytes
      → Result SaveError (Unit {0}) × SmtpSetting
  save_as p setting (err _) = (err encryption_failed, setting)
  save_as p setting (ok password) =
      if saves then (ok tt, saved (stored_as p password)) else (err not_saved, setting)

  -- The password to store: an empty one keeps the stored one, and what is marked as encrypted is
  -- not encrypted again.
  abbrev written_password : Bytes → Result CryptoError Bytes
  written_password password =
      if not (is_empty password) && not (is_encrypted_value password)
      then encrypt c random password key []
      else ok password

  -- The smtp part of `UpdateSettings`
  unfoldable pub save_smtp : PostedSmtp → SmtpSetting → Result SaveError (Unit {0}) × SmtpSetting
  save_smtp p setting =
      if ltb_ℤ p.port (pos 0) || ltb_ℤ (pos 65_535) p.port
      then (err bad_port, setting)
      else if not (valid_protocol p.protocol)
      then (err bad_protocol, setting)
      else if not (p.from_address == "") && not (is_email p.from_address)
      then (err bad_from_address, setting)
      else if not (p.to == "") && not (all_emails is_email (recipients (split_commas p.to)))
      then (err bad_recipient, setting)
      else save_as p setting
          (written_password (if is_empty p.password then stored_password setting else p.password))
