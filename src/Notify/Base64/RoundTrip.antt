-- ===== src/Notify/Base64/RoundTrip.antt =====
-- The encodings of internal/notify/crypto.go decode to what was encoded.
use loomwatch.Prelude.{
  ℕ, ◌+◌, ◌*◌, ◌/◌, ◌%◌, ◌≤◌, ◌<◌, ◌≡◌, ◌≢◌, ◌∙◌, refl, ap, false, none, some, [], ◌∷◌, length,
  arith, nat_beq,
}
use loomwatch.Notify.Base64.{
  Bytes, IsBytes, symbol, sextet, encode, quantum, decode_quanta, without_breaks, decode, digit,
  digit_value, hex_encode, hex_decode,
}

sextet-symbol : (n : ℕ) → n < 64 → sextet (symbol n) ≡ some n
unfolding sextet symbol
sextet-symbol n h = ground arith

-- A character of the alphabet is neither padding nor a line break nor a colon.
symbol_plain :
    (n : ℕ)
    → n < 64
    → (symbol n ≢ 61) × (symbol n ≢ 10) × (symbol n ≢ 13) × (symbol n ≢ 58) × (symbol n < 256)
unfolding symbol
symbol_plain n h = (ground arith, ground arith, ground arith, ground arith, ground arith)

-- No character is a line break, and all are bytes.
abbrev IsUnbroken : Bytes → Type 0
IsUnbroken [] = Unit {0}
IsUnbroken (c ∷ cs) = (c ≢ 10) × (c ≢ 13) × (c < 256) × IsUnbroken cs

unbroken_kept : (cs : Bytes) → IsUnbroken cs → without_breaks cs ≡ cs
unfolding without_breaks
unbroken_kept [] h = refl
unbroken_kept (c ∷ cs) h = ground (arith, unbroken_kept cs h.3)

symbol-IsUnbroken : (n : ℕ) (cs : Bytes) → n < 64 → IsUnbroken cs → IsUnbroken (symbol n ∷ cs)
symbol-IsUnbroken n cs h k = ((symbol_plain n h).1, (symbol_plain n h).2, (symbol_plain n h).4, k)

encode-IsUnbroken : (s : Bytes) → IsBytes s → IsUnbroken (encode s)
unfolding encode
encode-IsUnbroken [] h = tt
encode-IsUnbroken (a ∷ []) h =
    symbol-IsUnbroken (a / 4) (symbol (a % 4 * 16) ∷ 61 ∷ 61 ∷ []) (omega arith)
      (symbol-IsUnbroken (a % 4 * 16) (61 ∷ 61 ∷ []) (omega arith) (omega arith))
encode-IsUnbroken (a ∷ b ∷ []) h =
    let y = a % 4 * 16 + b / 16 in
    let z = b % 16 * 4 in
    symbol-IsUnbroken (a / 4) (symbol y ∷ symbol z ∷ 61 ∷ []) (omega arith) (
      symbol-IsUnbroken y (symbol z ∷ 61 ∷ []) (omega arith)
        (symbol-IsUnbroken z (61 ∷ []) (omega arith) (omega arith)))
encode-IsUnbroken (a ∷ b ∷ c ∷ s) h =
    let y = a % 4 * 16 + b / 16 in
    let z = b % 16 * 4 + c / 64 in
    let v = c % 64 in
    symbol-IsUnbroken (a / 4) (symbol y ∷ symbol z ∷ symbol v ∷ encode s) (omega arith) (
      symbol-IsUnbroken y (symbol z ∷ symbol v ∷ encode s) (omega arith) (
        symbol-IsUnbroken z (symbol v ∷ encode s) (omega arith)
          (symbol-IsUnbroken v (encode s) (omega arith) (encode-IsUnbroken s h.1.1.1))))

-- Four characters that are no padding.
quantum-symbols :
    (x y z v : ℕ) (rest more : Bytes)
    → x < 64
    → y < 64
    → z < 64
    → v < 64
    → quantum (symbol x) (symbol y) (symbol z) (symbol v) rest (some more)
      ≡ some ((x * 4 + y / 16) ∷ (y % 16 * 16 + z / 4) ∷ (z % 4 * 64 + v) ∷ more)
unfolding quantum
quantum-symbols x y z v rest more hx hy hz hv =
    let plain : nat_beq (symbol v) 61 ≡ false = ground (arith, symbol_plain v) in
    rw (plain, sextet-symbol x hx, sextet-symbol y hy, sextet-symbol z hz, sextet-symbol v hv)

quantum-padded :
    (x y z : ℕ)
    → x < 64
    → y < 64
    → z < 64
    → quantum (symbol x) (symbol y) (symbol z) 61 [] (some [])
      ≡ some ((x * 4 + y / 16) ∷ (y % 16 * 16 + z / 4) ∷ [])
unfolding quantum
quantum-padded x y z hx hy hz =
    let plain : nat_beq (symbol z) 61 ≡ false = ground (arith, symbol_plain z) in
    rw (plain, sextet-symbol x hx, sextet-symbol y hy, sextet-symbol z hz)

decode_quanta-encode : (s : Bytes) → IsBytes s → decode_quanta (encode s) ≡ some s
unfolding decode_quanta encode
decode_quanta-encode [] h = refl
decode_quanta-encode (a ∷ []) h =
    unfold quantum in
    rw (sextet-symbol (a / 4) (omega arith), sextet-symbol (a % 4 * 16) (omega arith))
      (ap (λ (t : ℕ). some (t ∷ [])) (omega arith))
decode_quanta-encode (a ∷ b ∷ []) h =
    quantum-padded (a / 4) (a % 4 * 16 + b / 16) (b % 16 * 4) (omega arith) (omega arith)
      (omega arith)
    ∙ ground arith
decode_quanta-encode (a ∷ b ∷ c ∷ s) h = rw (decode_quanta-encode s h.1.1.1) (
    quantum-symbols (a / 4) (a % 4 * 16 + b / 16) (b % 16 * 4 + c / 64) (c % 64) (encode s) s
      (omega arith) (omega arith) (omega arith) (omega arith)
    ∙ ground arith)

-- Bytes that are encoded in base64 decode to themselves.
pub decode-encode : (s : Bytes) → IsBytes s → decode (encode s) ≡ some s
unfolding decode
decode-encode s h = rw (unbroken_kept (encode s) (encode-IsUnbroken s h)) (decode_quanta-encode s h)

digit_value-digit : (n : ℕ) → n < 16 → digit_value (digit n) ≡ some n
unfolding digit digit_value
digit_value-digit n h = ground arith

-- So do bytes written in hex.
pub hex_decode-hex_encode : (s : Bytes) → IsBytes s → hex_decode (hex_encode s) ≡ some s
unfolding hex_decode hex_encode
hex_decode-hex_encode [] h = refl
hex_decode-hex_encode (b ∷ bs) h =
    ground
      (arith, digit_value-digit (b / 16), digit_value-digit (b % 16), hex_decode-hex_encode bs h.1)

unbroken-IsBytes : (cs : Bytes) → IsUnbroken cs → IsBytes cs
unbroken-IsBytes [] h = tt
unbroken-IsBytes (c ∷ cs) h = (h.2, unbroken-IsBytes cs h.3)

pub encode-IsBytes : (s : Bytes) → IsBytes s → IsBytes (encode s)
encode-IsBytes s h = unbroken-IsBytes (encode s) (encode-IsUnbroken s h)

-- No base64 has a colon as its fourth character.
pub encode-fourth :
    (s : Bytes) → IsBytes s → (a b c : ℕ) (rest : Bytes) → encode s ≢ a ∷ b ∷ c ∷ 58 ∷ rest
unfolding encode
encode-fourth [] h a b c rest e = cc
encode-fourth (x ∷ []) h a b c rest e = ground arith
encode-fourth (x ∷ y ∷ []) h a b c rest e = ground arith
encode-fourth (x ∷ y ∷ z ∷ s) h a b c rest e = ground (arith, symbol_plain (z % 64))

pub length-encode : (s : Bytes) → length s ≤ length (encode s)
unfolding encode
length-encode [] = omega arith
length-encode (a ∷ []) = omega arith
length-encode (a ∷ b ∷ []) = omega arith
length-encode (a ∷ b ∷ c ∷ s) = omega (arith, length-encode s)

-- A text that begins with "enc:" is no base64.
pub decode_marked : (rest : Bytes) → decode (101 ∷ 110 ∷ 99 ∷ 58 ∷ rest) ≡ none
unfolding decode decode_quanta quantum without_breaks sextet
decode_marked rest = refl
