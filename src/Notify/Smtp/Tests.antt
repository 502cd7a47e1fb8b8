-- ===== src/Notify/Smtp/Tests.antt =====
-- Witnesses of the theorems on the stored password.
use loomwatch.Prelude.{
  ℕ, ◌≡◌, ◌≢◌, refl, Bool, true, false, none, some, [], ◌∷◌, ok, err, arith, codes, string_eq,
  String, ap,
}
use loomwatch.Prelude.Int.{pos}
use loomwatch.Notify.Base64.{Bytes, encode, hex_decode}
use loomwatch.Notify.Crypto.{is_encrypted_value, encrypt}
use loomwatch.Notify.Crypto.RoundTrip.{IsKey, ciphertext}
use loomwatch.Notify.Crypto.Tests.{
  open_cipher, open_cipher-IsAuthenticated, first_key, first_key_bytes, first_key-IsKey, some_nonce,
  some_nonce-IsNonce, hunter,
}
use loomwatch.Notify.Smtp.{
  text, SmtpSettings, SmtpSetting, unset, saved, SmtpEngine, configure_smtp, decrypt_failed,
  reencrypt_all_data,
}
use loomwatch.Notify.Smtp.Saving.{PostedSmtp, save_smtp}
use loomwatch.Notify.Smtp.Passwords.{mailer_password}
use loomwatch.Notify.Smtp.Doubled.{
  save_smtp-configure_smtp, save_smtp_doubles, reencrypt_all_data_doubles,
  reencrypt_all_data_marked,
}

abbrev second_key : Bytes
second_key = codes "1123456789abcdef0123456789abcdef0123456789abcdef0123456789abcdef"

abbrev second_key_bytes : Bytes
second_key_bytes =
    17 ∷ 35 ∷ 69 ∷ 103 ∷ 137 ∷ 171 ∷ 205 ∷ 239 ∷ 1 ∷ 35 ∷ 69 ∷ 103 ∷ 137 ∷ 171 ∷ 205 ∷ 239 ∷ 1 ∷ 35
    ∷ 69 ∷ 103 ∷ 137 ∷ 171 ∷ 205 ∷ 239 ∷ 1 ∷ 35 ∷ 69 ∷ 103 ∷ 137 ∷ 171 ∷ 205 ∷ 239 ∷ []

second_key-IsKey : IsKey second_key second_key_bytes
unfolding hex_decode
second_key-IsKey = record { decodes = refl; has_length = refl }

abbrev first_byte : Bytes → ℕ
first_byte [] = 0
first_byte (b ∷ _) = b

keys_differ : first_key ≢ second_key
keys_differ e = omega (arith, ap first_byte e)

abbrev posted : Bytes → PostedSmtp
posted password = record {
  host = "mail.example.com";
  port = pos 587;
  protocol = "tls";
  username = "ada";
  password = password;
  from_address = "";
  from_name = "";
  to = "";
}

abbrev stored : Bytes → SmtpSettings
stored password = record {
  host = "mail.example.com";
  port = 587;
  protocol = "tls";
  username = "ada";
  password = text password;
  from_address = "";
  from_name = "";
  to = "";
}

abbrev engine : Bytes → SmtpSetting → SmtpEngine
engine key setting = record {
  encryption_key = key;
  legacy_encryption_key = [];
  mailer = none;
  setting = setting;
}

abbrev anything : String → Bool
anything s = true

abbrev first_saved : SmtpSetting
first_saved =
    (save_smtp open_cipher (some some_nonce) true anything first_key (posted hunter) unset).1

save_done :
    (save_smtp open_cipher (some some_nonce) true anything first_key (posted hunter) unset).0
    ≡ ok tt
unfolding save_smtp encrypt hex_decode is_encrypted_value
save_done = refl

hunter_plain : is_encrypted_value hunter ≡ false
unfolding is_encrypted_value
hunter_plain = refl

save_smtp-configure_smtp_example :
    mailer_password (configure_smtp open_cipher none true (engine first_key first_saved)).1.mailer
    ≡ some hunter
save_smtp-configure_smtp_example =
    save_smtp-configure_smtp open_cipher first_key first_key_bytes some_nonce true anything
      (posted hunter) unset none true (engine first_key first_saved) open_cipher-IsAuthenticated
      first_key-IsKey some_nonce-IsNonce (omega arith) (λ e. cc) hunter_plain
      (ground (arith, string_eq.matches_iff "mail.example.com" "")) save_done refl refl

abbrev hidden : Bytes
hidden = ciphertext open_cipher first_key_bytes some_nonce hunter []

abbrev resaved : SmtpSetting
resaved =
    (save_smtp open_cipher (some some_nonce) true anything first_key (posted [])
      (saved (stored hidden))).1

resave_done :
    (save_smtp open_cipher
      (some some_nonce)
      true
      anything
      first_key
      (posted [])
      (saved (stored hidden))).0
    ≡ ok tt
unfolding save_smtp encrypt hex_decode is_encrypted_value ciphertext encode
resave_done = refl

save_smtp_doubles_example :
    (mailer_password (configure_smtp open_cipher none true (engine first_key resaved)).1.mailer
      ≡ some hidden)
    × (hidden ≢ hunter)
save_smtp_doubles_example =
    save_smtp_doubles open_cipher first_key first_key_bytes some_nonce some_nonce true anything
      (posted []) (stored hidden) hunter none true (engine first_key resaved)
      open_cipher-IsAuthenticated first_key-IsKey some_nonce-IsNonce some_nonce-IsNonce
      (omega arith) refl refl (ground (arith, string_eq.matches_iff "mail.example.com" ""))
      resave_done refl refl

abbrev changed : SmtpSetting
changed =
    (reencrypt_all_data open_cipher (some some_nonce) true first_key second_key
      (saved (stored hidden))).1

reencrypt_all_data_doubles_example :
    ((reencrypt_all_data open_cipher
        (some some_nonce)
        true
        first_key
        second_key
        (saved (stored hidden))).0
      ≡ ok tt)
    × (mailer_password (configure_smtp open_cipher none true (engine second_key changed)).1.mailer
        ≡ some hidden)
    × (hidden ≢ hunter)
reencrypt_all_data_doubles_example =
    reencrypt_all_data_doubles open_cipher first_key first_key_bytes second_key second_key_bytes
      some_nonce some_nonce (stored hidden) hunter none true (engine second_key changed)
      open_cipher-IsAuthenticated first_key-IsKey second_key-IsKey some_nonce-IsNonce
      some_nonce-IsNonce (omega arith) keys_differ refl
      (ground (arith, string_eq.matches_iff "mail.example.com" "")) refl refl

abbrev marked : Bytes
marked = codes "enc:c2VjcmV0"

marked_is : is_encrypted_value marked ≡ true
unfolding is_encrypted_value
marked_is = refl

reencrypt_all_data_marked_example :
    reencrypt_all_data open_cipher none true first_key second_key (saved (stored marked))
    ≡ (err decrypt_failed, saved (stored marked))
reencrypt_all_data_marked_example =
    reencrypt_all_data_marked open_cipher none true first_key second_key (stored marked) marked
      keys_differ refl marked_is
