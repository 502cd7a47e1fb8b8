-- ===== src/Notify/Smtp/Passwords.antt =====
-- internal/web/handlers.go, internal/web/crypto.go and internal/notify/notify.go: what becomes of
-- the password of the mailer when settings are saved and when the admin password changes.
use loomwatch.Prelude.{
  ℕ, ◌+◌, ◌≤◌, ◌≡◌, ◌≢◌, refl, ap, Bool, false, Option, none, some, [], ◌∷◌, ◌++◌, nat_eq,
  string_eq, list_eq, length, length-append, arith,
}
use loomwatch.Notify.Base64.{Bytes, IsBytes, hex_decode}
use loomwatch.Notify.Base64.RoundTrip.{encode-IsBytes, encode-fourth, length-encode}
use loomwatch.Notify.Crypto.{Cipher, IsAuthenticated, is_encrypted_value}
use loomwatch.Notify.Crypto.RoundTrip.{
  IsKey, IsNonce, ciphertext, decrypt-ciphertext, whole_IsBytes,
}
use loomwatch.Notify.Smtp.{
  text, SmtpSettings, saved, SmtpConfig, SmtpEngine, configure_smtp, resolve_password,
}

-- The password that the mailer logs in with.
abbrev pub mailer_password : Option SmtpConfig → Option Bytes
mailer_password none = none
mailer_password (some cfg) = some cfg.password

unmarked :
    (s : Bytes)
    → ((a b c : ℕ) (rest : Bytes) → s ≢ a ∷ b ∷ c ∷ 58 ∷ rest)
    → is_encrypted_value s ≡ false
unfolding is_encrypted_value
unmarked [] h = refl
unmarked (a ∷ []) h = ground arith
unmarked (a ∷ b ∷ []) h = ground arith
unmarked (a ∷ b ∷ c ∷ []) h = ground arith
unmarked (a ∷ b ∷ c ∷ d ∷ rest) h = ground (arith, h a b c rest)

module _ (c : Cipher) (h : IsAuthenticated c) (key_hex key nonce : Bytes) (k : IsKey key_hex key)
    (n : IsNonce nonce) where
  pub ciphertext-IsBytes : (p : Bytes) → IsBytes p → IsBytes (ciphertext c key nonce p [])
  unfolding ciphertext
  ciphertext-IsBytes p b = encode-IsBytes _ (whole_IsBytes c h key_hex key nonce k n p [] b)

  pub length-ciphertext : (p : Bytes) → length p + 28 ≤ length (ciphertext c key nonce p [])
  unfolding ciphertext
  length-ciphertext p =
      let sealed = c.seal key nonce p [] in
      omega (
        arith,
        length-encode (nonce ++ sealed),
        length-append {0} nonce sealed,
        h.tagged key nonce p [],
        n.has_length,
      )

  -- What `Encrypt` writes is not marked as encrypted.
  pub ciphertext_unmarked :
      (p : Bytes) → IsBytes p → is_encrypted_value (ciphertext c key nonce p []) ≡ false
  unfolding ciphertext
  ciphertext_unmarked p b =
      unmarked _ (encode-fourth _ (whole_IsBytes c h key_hex key nonce k n p [] b))

  key_nonempty : key_hex ≢ []
  unfolding hex_decode
  key_nonempty e = ground (arith, ap hex_decode e, k.decodes, k.has_length)

  resolve_password-ciphertext :
      (random : Option Bytes) (saves : Bool) (e : SmtpEngine) (s : SmtpSettings) (p : Bytes)
      → IsBytes p
      → e.encryption_key ≡ key_hex
      → (resolve_password c random saves e s (ciphertext c key nonce p [])).0 ≡ p
  unfolding resolve_password
  resolve_password-ciphertext random saves e s p b ke = ground (
    arith,
    key_nonempty,
    length-ciphertext p,
    decrypt-ciphertext c h key_hex key nonce k n p [] b,
  )

  -- The mailer logs in with what was encrypted under the engine's key.
  pub configure_smtp-password :
      (random : Option Bytes) (saves : Bool) (e : SmtpEngine) (s : SmtpSettings) (p : Bytes)
      → IsBytes p
      → e.encryption_key ≡ key_hex
      → e.setting ≡ saved s
      → s.host ≢ ""
      → s.password ≡ text (ciphertext c key nonce p [])
      → mailer_password (configure_smtp c random saves e).1.mailer ≡ some p
  unfolding configure_smtp
  configure_smtp-password random saves e s p b ke se host pe =
      ground (
        arith,
        string_eq.matches_iff s.host "",
        resolve_password-ciphertext random saves e s p b ke,
      )
