-- ===== src/Notify/Smtp.antt =====
-- The mailer's settings: `ConfigureSMTP` of internal/notify/notify.go, the smtp part of
-- `UpdateSettings` in internal/web/handlers.go, and internal/web/crypto.go, which changes the
-- encryption of the stored password when the admin password changes. The setting is a JSON text in
-- the code; here it is what parsing the text gives. The nonces are arguments.
pub mod Saving
pub mod Passwords
pub mod Doubled
mod Tests
use loomwatch.Prelude.{
  ℕ, zero, suc, ◌+◌, Bool, true, false, not, ◌&&◌, ◌||◌, Option, none, some, List, [], ◌∷◌, Result,
  ok, err, ◌==◌, nat_eq, string_eq, list_eq, length, ltb, if◌then◌else◌, String, codes, trim_space,
}
use Prim.Native.Char.{Char, code}
use loomwatch.Notify.Base64.{Bytes, hex_encode}
use loomwatch.Notify.Crypto.{Cipher, CryptoError, encrypt, decrypt, is_encrypted_value}

-- The value under "password".
pub data JsonValue : Type 0 where
  missing null not_text : JsonValue
  text : Bytes → JsonValue

-- `smtpSettingsJSON`, as it is stored.
pub record SmtpSettings : Type 0 where
  pub host : String
  pub port : ℕ
  pub protocol : String
  pub username : String
  pub password : JsonValue
  pub from_address : String
  pub from_name : String
  pub to : String

-- What `GetSetting("smtp")` gives: an error, no text, a text that is no object, or settings.
pub data SmtpSetting : Type 0 where
  unreadable unset malformed : SmtpSetting
  saved : SmtpSettings → SmtpSetting

-- `SMTPConfig`
pub record SmtpConfig : Type 0 where
  pub host : String
  pub port : ℕ
  pub username : String
  pub password : Bytes
  pub protocol : String
  pub from_addr : String
  pub from_name : String
  pub to_addrs : List String

-- The part of `NotificationEngine` that `ConfigureSMTP` works on, with the stored setting.
pub record SmtpEngine : Type 0 where
  pub encryption_key : Bytes
  pub legacy_encryption_key : Bytes
  pub mailer : Option SmtpConfig
  pub setting : SmtpSetting

pub data SmtpError : Type 0 where
  setting_error json_error : SmtpError

abbrev add_first : Char → List String → List String
add_first c [] = String.◌∷◌ c String.[] ∷ []
add_first c (s ∷ pieces) = String.◌∷◌ c s ∷ pieces

-- `strings.Split(s, ",")`
pub split_commas : String → List String
split_commas String.[] = String.[] ∷ []
split_commas (String.◌∷◌ c s) =
    let rest = split_commas s in if code c == b',' then String.[] ∷ rest else add_first c rest

-- The loop that collects recipients.
pub recipients : List String → List String
recipients [] = []
recipients (addr ∷ addrs) =
    let trimmed = trim_space addr in
    let rest = recipients addrs in if not (trimmed == "") then trimmed ∷ rest else rest

abbrev pub is_empty : Bytes → Bool
is_empty [] = true
is_empty (_ ∷ _) = false

-- The text that `json.Unmarshal` puts into the field `Password`; another value is an error.
abbrev password_field : JsonValue → Option Bytes
password_field missing = some []
password_field null = some []
password_field not_text = none
password_field (text b) = some b

module _ (c : Cipher) (random : Option Bytes) (saves : Bool) where
  -- The setting after the migration of a password that the legacy key opened.
  abbrev migrated : SmtpSettings → Result CryptoError Bytes → SmtpSetting
  migrated s (err _) = saved s
  migrated s (ok encrypted) =
      if saves then saved (record s { password = text encrypted }) else saved s

  -- The answer of the legacy key.
  abbrev by_legacy : Bytes → Bytes → SmtpSettings → Result CryptoError Bytes → Bytes × SmtpSetting
  by_legacy password key s (err _) = (password, saved s)
  by_legacy password key s (ok plaintext) =
      (plaintext, migrated s (encrypt c random plaintext key []))

  -- The answer of the current key.
  abbrev by_key :
      Bytes → Bytes → Bytes → SmtpSettings → Result CryptoError Bytes → Bytes × SmtpSetting
  by_key password key legacy s (ok plaintext) = (plaintext, saved s)
  by_key password key legacy s (err _) =
      if not (is_empty legacy) && not (legacy == key)
      then by_legacy password key s (decrypt c password legacy [])
      else (password, saved s)

  -- The password that the mailer gets, and the setting with what the migration wrote.
  pub resolve_password : SmtpEngine → SmtpSettings → Bytes → Bytes × SmtpSetting
  resolve_password e s password =
      let key = e.encryption_key in
      if not (is_empty key) && not (is_empty password) && ltb 24 (length password)
      then by_key password key e.legacy_encryption_key s (decrypt c password key [])
      else (password, saved s)

  abbrev configured : SmtpEngine → SmtpSettings → Bytes × SmtpSetting → SmtpEngine
  configured e s (password, setting) = record e {
    setting = setting;
    mailer = some (record {
      host = s.host;
      port = if s.port == 0 then 587 else s.port;
      username = s.username;
      password = password;
      protocol = s.protocol;
      from_addr = s.from_address;
      from_name = s.from_name;
      to_addrs = recipients (split_commas s.to);
    });
  }

  pub configure_with :
      SmtpEngine → SmtpSettings → Option Bytes → Result SmtpError (Unit {0}) × SmtpEngine
  unfolding resolve_password
  configure_with e s none = (err json_error, e)
  configure_with e s (some password) =
      if s.host == ""
      then (ok tt, record e { mailer = none })
      else (ok tt, configured e s (resolve_password e s password))

  pub configure_from : SmtpEngine → SmtpSetting → Result SmtpError (Unit {0}) × SmtpEngine
  unfolding configure_with
  configure_from e unreadable = (err setting_error, e)
  configure_from e unset = (ok tt, record e { mailer = none })
  configure_from e malformed = (err json_error, e)
  configure_from e (saved s) = configure_with e s (password_field s.password)

  -- `ConfigureSMTP`
  unfoldable pub configure_smtp : SmtpEngine → Result SmtpError (Unit {0}) × SmtpEngine
  unfolding configure_from
  configure_smtp e = configure_from e e.setting

-- The hashes: SHA-256, and HKDF-SHA256 of a secret and a salt, `none` for an error.
pub record Kdf : Type 0 where
  pub sha256 : Bytes → Bytes
  pub hkdf : Bytes → Bytes → Option Bytes

-- The fallback of `DeriveEncryptionKey`: a hash that is 64 characters long is the key.
abbrev legacy_key : Kdf → Bytes → Bytes
legacy_key k password_hash =
    if length password_hash == 64 then password_hash else hex_encode (k.sha256 password_hash)

abbrev derived : Kdf → Bytes → Option Bytes → Bytes
derived k password_hash none = legacy_key k password_hash
derived k password_hash (some key) = hex_encode key

abbrev salted : Kdf → Bytes → Option Bytes → Bytes
salted k password_hash none = legacy_key k password_hash
salted k password_hash (some salt) = derived k password_hash (k.hkdf password_hash salt)

abbrev first_salt : Option Bytes → Option Bytes → Option Bytes
first_salt none package_salt = package_salt
first_salt (some salt) package_salt = some salt

-- `DeriveEncryptionKey`, with the salt of the package.
unfoldable pub derive_encryption_key : Kdf → Option Bytes → Bytes → Option Bytes → Bytes
derive_encryption_key k package_salt password_hash salt =
    salted k password_hash (first_salt salt package_salt)

pub data ReencryptError : Type 0 where
  parse_failed encrypt_failed decrypt_failed reencrypt_failed save_failed : ReencryptError

module _ (c : Cipher) (random : Option Bytes) (saves : Bool) (old_key new_key : Bytes) where
  -- The end of `reEncryptSMTPPassword`: the settings with the new password are saved.
  abbrev save_password : SmtpSettings → Bytes → Result ReencryptError (Unit {0}) × SmtpSetting
  save_password s encrypted =
      if saves
      then (ok tt, saved (record s { password = text encrypted }))
      else (err save_failed, saved s)

  abbrev save_encrypted :
      SmtpSettings
      → ReencryptError
      → Result CryptoError Bytes
      → Result ReencryptError (Unit {0}) × SmtpSetting
  save_encrypted s e (err _) = (err e, saved s)
  save_encrypted s e (ok encrypted) = save_password s encrypted

  -- The old key did not open the password: it may have the new one already.
  abbrev try_new :
      SmtpSettings → Result CryptoError Bytes → Result ReencryptError (Unit {0}) × SmtpSetting
  try_new s (ok _) = (ok tt, saved s)
  try_new s (err _) = (err decrypt_failed, saved s)

  abbrev by_old :
      SmtpSettings
      → Bytes
      → Result CryptoError Bytes
      → Result ReencryptError (Unit {0}) × SmtpSetting
  by_old s password (err _) = try_new s (decrypt c password new_key [])
  by_old s password (ok plaintext) =
      save_encrypted s reencrypt_failed (encrypt c random plaintext new_key [])

  pub reencrypt_text : SmtpSettings → JsonValue → Result ReencryptError (Unit {0}) × SmtpSetting
  reencrypt_text s missing = (ok tt, saved s)
  reencrypt_text s null = (ok tt, saved s)
  reencrypt_text s not_text = (ok tt, saved s)
  reencrypt_text s (text password) =
      if is_empty password
      then (ok tt, saved s)
      else if not (is_encrypted_value password)
      then save_encrypted s encrypt_failed (encrypt c random password new_key [])
      else by_old s password (decrypt c password old_key [])

  -- `reEncryptSMTPPassword`
  unfoldable pub reencrypt_smtp_password :
      SmtpSetting → Result ReencryptError (Unit {0}) × SmtpSetting
  unfolding reencrypt_text
  reencrypt_smtp_password unreadable = (ok tt, unreadable)
  reencrypt_smtp_password unset = (ok tt, unset)
  reencrypt_smtp_password malformed = (err parse_failed, malformed)
  reencrypt_smtp_password (saved s) = reencrypt_text s s.password

  -- `ReEncryptAllData`, once the keys are derived.
  unfoldable pub reencrypt_all_data : SmtpSetting → Result ReencryptError (Unit {0}) × SmtpSetting
  unfolding reencrypt_smtp_password
  reencrypt_all_data setting =
      if old_key == new_key then (ok tt, setting) else reencrypt_smtp_password setting
