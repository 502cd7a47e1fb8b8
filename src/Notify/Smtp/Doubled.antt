-- ===== src/Notify/Smtp/Doubled.antt =====
-- internal/web/handlers.go, internal/web/crypto.go and internal/notify/notify.go: the password of
-- the mailer after its settings are saved, saved again, and after the admin password has changed.
use loomwatch.Prelude.{
  ℕ, ◌≡◌, ◌≢◌, ◌∙◌, refl, ap, Bool, true, false, Option, none, some, [], ◌∷◌, Result, ok, err,
  nat_eq, string_eq, list_eq, length, arith, String,
}
use loomwatch.Notify.Base64.{Bytes, IsBytes}
use loomwatch.Notify.Base64.RoundTrip.{decode_marked}
use loomwatch.Notify.Crypto.{
  Cipher, IsAuthenticated, CryptoError, invalid_base64, parse_key, decrypt_with, decrypt,
  is_encrypted_value,
}
use loomwatch.Notify.Crypto.RoundTrip.{IsKey, IsNonce, ciphertext, encrypt-eq}
use loomwatch.Notify.Smtp.{
  text, SmtpSettings, SmtpSetting, saved, SmtpEngine, configure_smtp, decrypt_failed,
  ReencryptError, reencrypt_text, reencrypt_smtp_password, reencrypt_all_data,
}
use loomwatch.Notify.Smtp.Saving.{PostedSmtp, save_smtp, stored_as}
use loomwatch.Notify.Smtp.Passwords.{
  mailer_password, ciphertext-IsBytes, length-ciphertext, ciphertext_unmarked,
  configure_smtp-password,
}

marked_nonempty : (p : Bytes) → is_encrypted_value p ≡ true → p ≢ []
unfolding is_encrypted_value
marked_nonempty [] m = absurd (ground arith)
marked_nonempty (x ∷ p) m = λ e. ground arith

rejected :
    (c : Cipher) (k : Result CryptoError Bytes)
    → (e : CryptoError) × (decrypt_with c k none [] ≡ err e)
unfolding decrypt_with
rejected c (ok key) = (invalid_base64, refl)
rejected c (err e) = (e, refl)

-- A text that is marked as encrypted does not decrypt, for its mark is not taken off.
decrypt_marked :
    (c : Cipher) (p key_hex : Bytes)
    → is_encrypted_value p ≡ true
    → (e : CryptoError) × (decrypt c p key_hex [] ≡ err e)
unfolding decrypt is_encrypted_value
decrypt_marked c [] key_hex m = absurd (ground arith)
decrypt_marked c (x ∷ []) key_hex m = absurd (ground arith)
decrypt_marked c (x ∷ y ∷ []) key_hex m = absurd (ground arith)
decrypt_marked c (x ∷ y ∷ z ∷ []) key_hex m = absurd (ground arith)
decrypt_marked c (x ∷ y ∷ z ∷ v ∷ rest) key_hex m =
    let ex : x ≡ 101 = ground arith in
    let ey : y ≡ 110 = ground arith in
    let ez : z ≡ 99 = ground arith in
    let ev : v ≡ 58 = ground arith in
    rw (ex, ey, ez, ev, decode_marked rest) (rejected c (parse_key key_hex))

module _ (c : Cipher) (h : IsAuthenticated c) (key_hex key nonce : Bytes) (k : IsKey key_hex key)
    (n : IsNonce nonce) where
  -- What is stored of a password that is posted.
  save_smtp-stored :
      (saves : Bool) (is_email : String → Bool) (p : PostedSmtp) (setting : SmtpSetting)
      → p.password ≢ []
      → is_encrypted_value p.password ≡ false
      → (save_smtp c (some nonce) saves is_email key_hex p setting).0 ≡ ok tt
      → (save_smtp c (some nonce) saves is_email key_hex p setting).1
        ≡ saved (stored_as p (ciphertext c key nonce p.password []))
  unfolding save_smtp
  save_smtp-stored saves is_email p setting nonempty plain done =
      ground (arith, encrypt-eq c h key_hex key nonce k n p.password [])

  -- An empty password keeps the stored one, which is encrypted once more.
  save_smtp-kept :
      (saves : Bool) (is_email : String → Bool) (p : PostedSmtp) (s : SmtpSettings) (ct : Bytes)
      → p.password ≡ []
      → s.password ≡ text ct
      → ct ≢ []
      → is_encrypted_value ct ≡ false
      → (save_smtp c (some nonce) saves is_email key_hex p (saved s)).0 ≡ ok tt
      → (save_smtp c (some nonce) saves is_email key_hex p (saved s)).1
        ≡ saved (stored_as p (ciphertext c key nonce ct []))
  unfolding save_smtp
  save_smtp-kept saves is_email p s ct none_given kept nonempty plain done =
      ground (arith, encrypt-eq c h key_hex key nonce k n ct [])

  ciphertext-ne : (p : Bytes) → ciphertext c key nonce p [] ≢ p
  ciphertext-ne p e =
      omega (arith, length-ciphertext c h key_hex key nonce k n p, ap (λ (t : Bytes). length t) e)

  ciphertext_nonempty : (p : Bytes) → ciphertext c key nonce p [] ≢ []
  ciphertext_nonempty p e =
      omega (arith, length-ciphertext c h key_hex key nonce k n p, ap (λ (t : Bytes). length t) e)

  -- After a change of the admin password the stored password is encrypted under the new key.
  reencrypt_text-unmarked :
      (old_hex : Bytes) (s : SmtpSettings) (p : Bytes)
      → p ≢ []
      → is_encrypted_value p ≡ false
      → reencrypt_text c (some nonce) true old_hex key_hex s (text p)
        ≡ (ok tt, saved (record s { password = text (ciphertext c key nonce p []) }))
  unfolding reencrypt_text
  reencrypt_text-unmarked old_hex s p nonempty plain =
      ground (arith, encrypt-eq c h key_hex key nonce k n p [])

-- A password that is posted, not empty and not marked with "enc:", is what the mailer logs in with
-- when it is configured with the same key, if the settings were saved and name a host.
pub save_smtp-configure_smtp :
    (c : Cipher) (key_hex key nonce : Bytes) (saves : Bool) (is_email : String → Bool)
    (p : PostedSmtp) (setting : SmtpSetting) (random : Option Bytes) (saves' : Bool)
    (e : SmtpEngine)
    → IsAuthenticated c
    → IsKey key_hex key
    → IsNonce nonce
    → IsBytes p.password
    → p.password ≢ []
    → is_encrypted_value p.password ≡ false
    → p.host ≢ ""
    → (save_smtp c (some nonce) saves is_email key_hex p setting).0 ≡ ok tt
    → e.encryption_key ≡ key_hex
    → e.setting ≡ (save_smtp c (some nonce) saves is_email key_hex p setting).1
    → mailer_password (configure_smtp c random saves' e).1.mailer ≡ some p.password
save_smtp-configure_smtp c key_hex key nonce saves is_email p setting random saves' e h k n b
      nonempty plain host done ke se =
    configure_smtp-password c h key_hex key nonce k n random saves' e
      (stored_as p (ciphertext c key nonce p.password [])) p.password b ke
      (se ∙ save_smtp-stored c h key_hex key nonce k n saves is_email p setting nonempty plain done)
      host refl

-- Saving the settings again with the password left empty encrypts the stored password a second
-- time: the mailer then logs in with the text of the first encryption, which is not the password.
pub save_smtp_doubles :
    (c : Cipher) (key_hex key nonce nonce' : Bytes) (saves : Bool) (is_email : String → Bool)
    (p : PostedSmtp) (s : SmtpSettings) (password : Bytes) (random : Option Bytes) (saves' : Bool)
    (e : SmtpEngine)
    → IsAuthenticated c
    → IsKey key_hex key
    → IsNonce nonce
    → IsNonce nonce'
    → IsBytes password
    → s.password ≡ text (ciphertext c key nonce password [])
    → p.password ≡ []
    → p.host ≢ ""
    → (save_smtp c (some nonce') saves is_email key_hex p (saved s)).0 ≡ ok tt
    → e.encryption_key ≡ key_hex
    → e.setting ≡ (save_smtp c (some nonce') saves is_email key_hex p (saved s)).1
    → (mailer_password (configure_smtp c random saves' e).1.mailer
        ≡ some (ciphertext c key nonce password []))
      × (ciphertext c key nonce password [] ≢ password)
save_smtp_doubles c key_hex key nonce nonce' saves is_email p s password random saves' e h k n n' b
      kept empty host done ke se =
    let ct = ciphertext c key nonce password [] in
    (
      configure_smtp-password c h key_hex key nonce' k n' random saves' e
          (stored_as p (ciphertext c key nonce' ct [])) ct
          (ciphertext-IsBytes c h key_hex key nonce k n password b) ke
          (se
            ∙ save_smtp-kept c h key_hex key nonce' k n' saves is_email p s ct empty kept
                (ciphertext_nonempty c h key_hex key nonce k n password)
                (ciphertext_unmarked c h key_hex key nonce k n password b) done)
          host refl,
      ciphertext-ne c h key_hex key nonce k n password,
    )

-- A change of the admin password to one with another key reports no error and encrypts the stored
-- password a second time, instead of decrypting it with the old key first: with the new key the
-- mailer logs in with the text of the first encryption, which is not the password.
pub reencrypt_all_data_doubles :
    (c : Cipher) (old_hex old new_hex new nonce nonce' : Bytes) (s : SmtpSettings)
    (password : Bytes) (random : Option Bytes) (saves : Bool) (e : SmtpEngine)
    → IsAuthenticated c
    → IsKey old_hex old
    → IsKey new_hex new
    → IsNonce nonce
    → IsNonce nonce'
    → IsBytes password
    → old_hex ≢ new_hex
    → s.password ≡ text (ciphertext c old nonce password [])
    → s.host ≢ ""
    → e.encryption_key ≡ new_hex
    → e.setting ≡ (reencrypt_all_data c (some nonce') true old_hex new_hex (saved s)).1
    → ((reencrypt_all_data c (some nonce') true old_hex new_hex (saved s)).0 ≡ ok tt)
      × (mailer_password (configure_smtp c random saves e).1.mailer
          ≡ some (ciphertext c old nonce password []))
      × (ciphertext c old nonce password [] ≢ password)
unfolding reencrypt_all_data reencrypt_smtp_password
reencrypt_all_data_doubles c old_hex old new_hex new nonce nonce' s password random saves e h k k' n
      n' b differ kept host ke se =
    let ct = ciphertext c old nonce password [] in
    let s' : SmtpSettings = record s { password = text (ciphertext c new nonce' ct []) } in
    let done : reencrypt_all_data c (some nonce') true old_hex new_hex (saved s)
        ≡ (ok tt, saved s') =
      ground (
        arith,
        (list_eq {A = ℕ} ⦃e = nat_eq⦄).matches_iff old_hex new_hex,
        reencrypt_text-unmarked c h new_hex new nonce' k' n' old_hex s ct
            (ciphertext_nonempty c h old_hex old nonce k n password)
            (ciphertext_unmarked c h old_hex old nonce k n password b),
      ) in
    (
      ap (λ (r : Result ReencryptError (Unit {0}) × SmtpSetting). r.0) done,
      configure_smtp-password c h new_hex new nonce' k' n' random saves e s' ct
          (ciphertext-IsBytes c h old_hex old nonce k n password b) ke
          (se ∙ ap (λ (r : Result ReencryptError (Unit {0}) × SmtpSetting). r.1) done) host refl,
      ciphertext-ne c h old_hex old nonce k n password,
    )

reencrypt_text_marked :
    (c : Cipher) (random : Option Bytes) (saves : Bool) (old_hex new_hex : Bytes) (s : SmtpSettings)
    (p : Bytes)
    → is_encrypted_value p ≡ true
    → reencrypt_text c random saves old_hex new_hex s (text p) ≡ (err decrypt_failed, saved s)
unfolding reencrypt_text
reencrypt_text_marked c random saves old_hex new_hex s p marked =
    let (e, by_old) = decrypt_marked c p old_hex marked in
    let (e', by_new) = decrypt_marked c p new_hex marked in ground (arith, marked_nonempty p marked)

-- A stored password that is marked as encrypted, as `EncryptForStorage` marks it, is never
-- encrypted for the new admin password: a change to another key fails to decrypt it, whatever the
-- keys and the cipher are, and leaves the settings as they were.
pub reencrypt_all_data_marked :
    (c : Cipher) (random : Option Bytes) (saves : Bool) (old_hex new_hex : Bytes) (s : SmtpSettings)
    (p : Bytes)
    → old_hex ≢ new_hex
    → s.password ≡ text p
    → is_encrypted_value p ≡ true
    → reencrypt_all_data c random saves old_hex new_hex (saved s) ≡ (err decrypt_failed, saved s)
unfolding reencrypt_all_data reencrypt_smtp_password
reencrypt_all_data_marked c random saves old_hex new_hex s p differ kept marked = ground (
  arith,
  (list_eq {A = ℕ} ⦃e = nat_eq⦄).matches_iff old_hex new_hex,
  reencrypt_text_marked c random saves old_hex new_hex s p marked,
)
