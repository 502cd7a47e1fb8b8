-- ===== src/Notify/Crypto/RoundTrip.antt =====
-- internal/notify/crypto.go: what is encrypted under a key is decrypted under it.
use loomwatch.Prelude.{
  ℕ, zero, suc, ◌≡◌, refl, ap, true, some, List, [], ◌∷◌, ◌++◌, ok, nat_eq, length, length-append,
  arith,
}
use loomwatch.Notify.Base64.{Bytes, IsBytes, encode, hex_decode}
use loomwatch.Notify.Base64.RoundTrip.{decode-encode}
use loomwatch.Notify.Crypto.{
  Cipher, IsAuthenticated, take, drop, encrypt, decrypt, encrypted_prefix, encrypt_for_storage,
  is_encrypted_value, decrypt_from_storage, additional_data,
}

-- A hex text of 32 bytes.
pub record IsKey (key_hex key : Bytes) : Type 0 where
  pub decodes : hex_decode key_hex ≡ some key
  pub has_length : length key ≡ 32

-- What the random source gives.
pub record IsNonce (nonce : Bytes) : Type 0 where
  pub bytes : IsBytes nonce
  pub has_length : length nonce ≡ 12

pub IsBytes-append : (xs ys : Bytes) → IsBytes xs → IsBytes ys → IsBytes (xs ++ ys)
IsBytes-append [] ys h k = k
IsBytes-append (x ∷ xs) ys h k = (h.0, IsBytes-append xs ys h.1 k)

pub take-append : (n : ℕ) (xs ys : Bytes) → length xs ≡ n → take n (xs ++ ys) ≡ xs
take-append zero [] ys h = refl
take-append zero (x ∷ xs) ys h = absurd (omega arith)
take-append (suc n) [] ys h = absurd (omega arith)
take-append (suc n) (x ∷ xs) ys h = ap (λ (t : Bytes). x ∷ t) (take-append n xs ys (omega arith))

drop-append : (n : ℕ) (xs ys : Bytes) → length xs ≡ n → drop n (xs ++ ys) ≡ ys
drop-append zero [] ys h = refl
drop-append zero (x ∷ xs) ys h = absurd (omega arith)
drop-append (suc n) [] ys h = absurd (omega arith)
drop-append (suc n) (x ∷ xs) ys h = drop-append n xs ys (omega arith)

-- The text that `Encrypt` writes.
unfoldable pub ciphertext : Cipher → Bytes → Bytes → Bytes → Bytes → Bytes
ciphertext c key nonce text extra = encode (nonce ++ c.seal key nonce text extra)

module _ (c : Cipher) (h : IsAuthenticated c) (key_hex key nonce : Bytes) (k : IsKey key_hex key)
    (n : IsNonce nonce) where
  pub encrypt-eq :
      (text : Bytes) (aad : List Bytes)
      → encrypt c (some nonce) text key_hex aad
        ≡ ok (ciphertext c key nonce text (additional_data aad))
  unfolding encrypt ciphertext
  encrypt-eq text aad = ground (arith, k.decodes, k.has_length)

  pub whole_IsBytes :
      (text extra : Bytes) → IsBytes text → IsBytes (nonce ++ c.seal key nonce text extra)
  whole_IsBytes text extra b =
      IsBytes-append nonce (c.seal key nonce text extra) n.bytes (h.bytes key nonce text extra b)

  pub decrypt-ciphertext :
      (text : Bytes) (aad : List Bytes)
      → IsBytes text
      → decrypt c (ciphertext c key nonce text (additional_data aad)) key_hex aad ≡ ok text
  unfolding decrypt ciphertext
  decrypt-ciphertext text aad b =
      let extra = additional_data aad in
      let sealed = c.seal key nonce text extra in
      ground (
        arith,
        k.decodes,
        k.has_length,
        n.has_length,
        decode-encode (nonce ++ sealed) (whole_IsBytes text extra b),
        length-append {0} nonce sealed,
        take-append 12 nonce sealed n.has_length,
        drop-append 12 nonce sealed n.has_length,
        h.opens key nonce text extra b,
      )

-- What `Encrypt` writes under a key, `Decrypt` reads under it, with the same additional data; what
-- `EncryptForStorage` writes is marked as encrypted, and `DecryptFromStorage` reads it. The key is
-- 32 bytes in hex, the nonce 12 bytes, and the cipher opens what it sealed.
pub decrypt-encrypt :
    (c : Cipher) (key_hex key nonce text : Bytes) (aad : List Bytes)
    → IsAuthenticated c
    → IsKey key_hex key
    → IsNonce nonce
    → IsBytes text
    → (written : Bytes) × (stored : Bytes) × (encrypt c (some nonce) text key_hex aad ≡ ok written)
      × (decrypt c written key_hex aad ≡ ok text)
      × (encrypt_for_storage c (some nonce) text key_hex ≡ ok stored)
      × (is_encrypted_value stored ≡ true)
      × (decrypt_from_storage c stored key_hex ≡ ok text)
unfolding encrypt_for_storage is_encrypted_value decrypt_from_storage
decrypt-encrypt c key_hex key nonce text aad h k n b = (
  ciphertext c key nonce text (additional_data aad),
  encrypted_prefix ++ ciphertext c key nonce text [],
  encrypt-eq c h key_hex key nonce k n text aad,
  decrypt-ciphertext c h key_hex key nonce k n text aad b,
  ground (arith, encrypt-eq c h key_hex key nonce k n text []),
  refl,
  decrypt-ciphertext c h key_hex key nonce k n text [] b,
)
