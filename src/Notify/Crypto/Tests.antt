-- ===== src/Notify/Crypto/Tests.antt =====
-- Witnesses of the theorems on encryption: a cipher without secrecy, which appends a tag.
use loomwatch.Prelude.{
  ◌-◌, ◌≡◌, refl, ap, true, some, [], ◌∷◌, ◌++◌, ok, arith, length, length-append, codes,
}
use loomwatch.Notify.Base64.{Bytes, hex_decode}
use loomwatch.Notify.Crypto.{
  Cipher, IsAuthenticated, take, encrypt, decrypt, encrypt_for_storage, is_encrypted_value,
  decrypt_from_storage,
}
use loomwatch.Notify.Crypto.RoundTrip.{IsKey, IsNonce, IsBytes-append, take-append, decrypt-encrypt}

abbrev pub tag : Bytes
tag = 1 ∷ 2 ∷ 3 ∷ 4 ∷ 5 ∷ 6 ∷ 7 ∷ 8 ∷ 9 ∷ 10 ∷ 11 ∷ 12 ∷ 13 ∷ 14 ∷ 15 ∷ 16 ∷ []

abbrev pub open_cipher : Cipher
open_cipher = record {
  seal = λ key nonce text extra. text ++ tag;
  unseal = λ key nonce sealed extra. some (take (length sealed - 16) sealed);
}

opens_sealed : (text : Bytes) → take (length (text ++ tag) - 16) (text ++ tag) ≡ text
opens_sealed text =
    take-append (length (text ++ tag) - 16) text tag (omega (arith, length-append {0} text tag))

pub open_cipher-IsAuthenticated : IsAuthenticated open_cipher
open_cipher-IsAuthenticated = record {
  opens = λ key nonce text extra b. ap (λ (t : Bytes). some t) (opens_sealed text);
  tagged = λ key nonce text extra. length-append text tag;
  bytes = λ key nonce text extra b. IsBytes-append text tag b (omega arith);
}

abbrev pub first_key : Bytes
first_key = codes "0123456789abcdef0123456789abcdef0123456789abcdef0123456789abcdef"

abbrev pub first_key_bytes : Bytes
first_key_bytes =
    1 ∷ 35 ∷ 69 ∷ 103 ∷ 137 ∷ 171 ∷ 205 ∷ 239 ∷ 1 ∷ 35 ∷ 69 ∷ 103 ∷ 137 ∷ 171 ∷ 205 ∷ 239 ∷ 1 ∷ 35
    ∷ 69 ∷ 103 ∷ 137 ∷ 171 ∷ 205 ∷ 239 ∷ 1 ∷ 35 ∷ 69 ∷ 103 ∷ 137 ∷ 171 ∷ 205 ∷ 239 ∷ []

pub first_key-IsKey : IsKey first_key first_key_bytes
unfolding hex_decode
first_key-IsKey = record { decodes = refl; has_length = refl }

abbrev pub some_nonce : Bytes
some_nonce = 21 ∷ 22 ∷ 23 ∷ 24 ∷ 25 ∷ 26 ∷ 27 ∷ 28 ∷ 29 ∷ 30 ∷ 31 ∷ 32 ∷ []

pub some_nonce-IsNonce : IsNonce some_nonce
some_nonce-IsNonce = record { bytes = omega arith; has_length = refl }

abbrev pub hunter : Bytes
hunter = codes "hunter22"

decrypt-encrypt_example :
    (written : Bytes) × (stored : Bytes) × (encrypt open_cipher
        (some some_nonce)
        hunter
        first_key
        []
      ≡ ok written)
    × (decrypt open_cipher written first_key [] ≡ ok hunter)
    × (encrypt_for_storage open_cipher (some some_nonce) hunter first_key ≡ ok stored)
    × (is_encrypted_value stored ≡ true)
    × (decrypt_from_storage open_cipher stored first_key ≡ ok hunter)
decrypt-encrypt_example =
    decrypt-encrypt open_cipher first_key first_key_bytes some_nonce hunter []
      open_cipher-IsAuthenticated first_key-IsKey some_nonce-IsNonce (omega arith)
