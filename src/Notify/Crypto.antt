-- ===== src/Notify/Crypto.antt =====
-- internal/notify/crypto.go: AES-256-GCM of texts in base64, with a key in hex. The cipher is a
-- parameter; its laws are those of an authenticated cipher. The nonce is an argument, `none` where
-- the random source fails.
pub mod RoundTrip
pub mod Tests
use loomwatch.Prelude.{
  ℕ, zero, suc, ◌+◌, ◌<◌, ◌≡◌, ◌≢◌, Bool, true, false, not, ◌&&◌, Option, none, some, List, [], ◌∷◌,
  ◌++◌, Result, ok, err, ◌==◌, nat_eq, length, ltb, if◌then◌else◌, String, codes,
}
use loomwatch.Notify.Base64.{Bytes, IsBytes, encode, decode, hex_encode, hex_decode}

-- `gcm.Seal` and `gcm.Open` of a key, a nonce, a text and additional data, less the nonce that
-- `Seal` appends to.
pub record Cipher : Type 0 where
  pub seal : Bytes → Bytes → Bytes → Bytes → Bytes
  pub unseal : Bytes → Bytes → Bytes → Bytes → Option Bytes

-- What AES-GCM promises of bytes: it opens what it sealed, and its output is the text's bytes with a
-- tag of 16.
pub record IsAuthenticated (c : Cipher) : Type 0 where
  pub opens :
      (key nonce text extra : Bytes)
      → IsBytes text
      → c.unseal key nonce (c.seal key nonce text extra) extra ≡ some text
  pub tagged :
      (key nonce text extra : Bytes) → length (c.seal key nonce text extra) ≡ length text + 16
  pub bytes : (key nonce text extra : Bytes) → IsBytes text → IsBytes (c.seal key nonce text extra)

pub data CryptoError : Type 0 where
  invalid_key_hex wrong_key_length no_randomness invalid_base64 too_short not_authentic :
      CryptoError

abbrev pub nonce_size : ℕ
nonce_size = 12

module _ {ℓ} {A : Type ℓ} where
  abbrev pub take : ℕ → List A → List A
  take zero xs = []
  take (suc n) [] = []
  take (suc n) (x ∷ xs) = x ∷ take n xs

  abbrev pub drop : ℕ → List A → List A
  drop zero xs = xs
  drop (suc n) [] = []
  drop (suc n) (x ∷ xs) = drop n xs

-- The optional additional data.
abbrev additional_data : List Bytes → Bytes
additional_data [] = []
additional_data (aad ∷ _) = aad

-- `hex.DecodeString(keyHex)`, and the check of its length.
abbrev pub key_of : Option Bytes → Result CryptoError Bytes
key_of none = err invalid_key_hex
key_of (some key) = if length key == 32 then ok key else err wrong_key_length

abbrev pub parse_key : Bytes → Result CryptoError Bytes
parse_key key_hex = key_of (hex_decode key_hex)

abbrev pub encrypted_prefix : Bytes
encrypted_prefix = codes "enc:"

module _ (c : Cipher) where
  pub encrypt_with :
      Result CryptoError Bytes → Option Bytes → Bytes → List Bytes → Result CryptoError Bytes
  encrypt_with (err e) random plaintext aad = err e
  encrypt_with (ok key) none plaintext aad = err no_randomness
  encrypt_with (ok key) (some nonce) plaintext aad =
      ok (encode (nonce ++ c.seal key nonce plaintext (additional_data aad)))

  -- `Encrypt`
  unfoldable pub encrypt : Option Bytes → Bytes → Bytes → List Bytes → Result CryptoError Bytes
  unfolding encrypt_with
  encrypt random plaintext key_hex aad = encrypt_with (parse_key key_hex) random plaintext aad

  -- `gcm.Open`, with its error.
  abbrev opened : Option Bytes → Result CryptoError Bytes
  opened none = err not_authentic
  opened (some plaintext) = ok plaintext

  unfoldable pub decrypt_with :
      Result CryptoError Bytes → Option Bytes → List Bytes → Result CryptoError Bytes
  decrypt_with (err e) bytes aad = err e
  decrypt_with (ok key) none aad = err invalid_base64
  decrypt_with (ok key) (some bytes) aad =
      if ltb (length bytes) nonce_size
      then err too_short
      else opened
          (c.unseal key (take nonce_size bytes) (drop nonce_size bytes) (additional_data aad))

  -- `Decrypt`
  unfoldable pub decrypt : Bytes → Bytes → List Bytes → Result CryptoError Bytes
  unfolding decrypt_with
  decrypt encoded key_hex aad = decrypt_with (parse_key key_hex) (decode encoded) aad

  abbrev prefixed : Result CryptoError Bytes → Result CryptoError Bytes
  prefixed (err e) = err e
  prefixed (ok ciphertext) = ok (encrypted_prefix ++ ciphertext)

  -- `EncryptForStorage`
  unfoldable pub encrypt_for_storage : Option Bytes → Bytes → Bytes → Result CryptoError Bytes
  unfolding encrypt
  encrypt_for_storage random plaintext key_hex = prefixed (encrypt random plaintext key_hex [])

-- `strings.HasPrefix` on bytes.
abbrev starts_with : Bytes → Bytes → Bool
starts_with s [] = true
starts_with [] (p ∷ ps) = false
starts_with (b ∷ bs) (p ∷ ps) = b == p && starts_with bs ps

-- `IsEncryptedValue`
unfoldable pub is_encrypted_value : Bytes → Bool
is_encrypted_value value = starts_with value encrypted_prefix

-- `DecryptFromStorage`
unfoldable pub decrypt_from_storage : Cipher → Bytes → Bytes → Result CryptoError Bytes
unfolding decrypt is_encrypted_value
decrypt_from_storage c stored key_hex =
    if not (is_encrypted_value stored) then ok stored else decrypt c (drop 4 stored) key_hex []
