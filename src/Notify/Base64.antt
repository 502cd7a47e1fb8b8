-- ===== src/Notify/Base64.antt =====
-- Go's `base64.StdEncoding` and `hex` on bytes, as internal/notify/crypto.go uses them.
pub mod RoundTrip
use loomwatch.Prelude.{
  ℕ, suc, ◌+◌, ◌-◌, ◌*◌, ◌/◌, ◌%◌, ◌≤◌, ◌<◌, ◌≡◌, refl, Bool, true, false, ◌&&◌, ◌||◌, Option, none,
  some, List, [], ◌∷◌, length, arith, ltb, leb, nat_beq, if◌then◌else◌,
}

-- A Go string or a slice of bytes.
abbrev pub Bytes : Type 0
Bytes = List ℕ

-- All numbers are bytes.
abbrev pub IsBytes : Bytes → Type 0
IsBytes [] = Unit {0}
IsBytes (b ∷ bs) = (b < 256) × IsBytes bs

-- The character of six bits.
pub symbol : ℕ → ℕ
symbol n =
    if ltb n 26
    then n + b'A'
    else if ltb n 52
    then n - 26 + b'a'
    else if ltb n 62
    then n - 52 + b'0'
    else if nat_beq n 62
    then b'+'
    else b'/'

-- The six bits of a character; `none` for one outside the alphabet.
pub sextet : ℕ → Option ℕ
sextet c =
    if leb b'A' c && leb c b'Z'
    then some (c - b'A')
    else if leb b'a' c && leb c b'z'
    then some (c - b'a' + 26)
    else if leb b'0' c && leb c b'9'
    then some (c - b'0' + 52)
    else if nat_beq c b'+'
    then some 62
    else if nat_beq c b'/'
    then some 63
    else none

-- `EncodeToString`
unfoldable pub encode : Bytes → Bytes
unfolding symbol
encode [] = []
encode (a ∷ []) = symbol (a / 4) ∷ symbol (a % 4 * 16) ∷ b'=' ∷ b'=' ∷ []
encode (a ∷ b ∷ []) =
    symbol (a / 4) ∷ symbol (a % 4 * 16 + b / 16) ∷ symbol (b % 16 * 4) ∷ b'=' ∷ []
encode (a ∷ b ∷ c ∷ bs) =
    symbol (a / 4)
    ∷ symbol (a % 4 * 16 + b / 16)
    ∷ symbol (b % 16 * 4 + c / 64)
    ∷ symbol (c % 64)
    ∷ encode bs

abbrev join_two : Option ℕ → Option ℕ → Option Bytes
join_two (some x) (some y) = some ((x * 4 + y / 16) ∷ [])
join_two (some x) none = none
join_two none y = none

abbrev join_three : Option ℕ → Option ℕ → Option ℕ → Option Bytes
join_three (some x) (some y) (some z) = some ((x * 4 + y / 16) ∷ (y % 16 * 16 + z / 4) ∷ [])
join_three (some x) (some y) none = none
join_three (some x) none z = none
join_three none y z = none

abbrev join_four : Option ℕ → Option ℕ → Option ℕ → Option ℕ → Option Bytes → Option Bytes
join_four (some x) (some y) (some z) (some v) (some more) =
    some ((x * 4 + y / 16) ∷ (y % 16 * 16 + z / 4) ∷ (z % 4 * 64 + v) ∷ more)
join_four (some x) (some y) (some z) (some v) none = none
join_four (some x) (some y) (some z) none more = none
join_four (some x) (some y) none v more = none
join_four (some x) none z v more = none
join_four none y z v more = none

abbrev is_nil : Bytes → Bool
is_nil [] = true
is_nil (_ ∷ _) = false

-- Four characters, with what follows them and its decoding: padding may only stand at the end.
pub quantum : ℕ → ℕ → ℕ → ℕ → Bytes → Option Bytes → Option Bytes
unfolding sextet
quantum a b c d rest more =
    if nat_beq d b'='
    then if is_nil rest
      then if nat_beq c b'='
        then join_two (sextet a) (sextet b)
        else join_three (sextet a) (sextet b) (sextet c)
      else none
    else join_four (sextet a) (sextet b) (sextet c) (sextet d) more

pub decode_quanta : Bytes → Option Bytes
unfolding quantum
decode_quanta [] = some []
decode_quanta (a ∷ b ∷ c ∷ d ∷ rest) = quantum a b c d rest (decode_quanta rest)
decode_quanta (_ ∷ []) = none
decode_quanta (_ ∷ _ ∷ []) = none
decode_quanta (_ ∷ _ ∷ _ ∷ []) = none

-- The decoder skips line breaks.
pub without_breaks : Bytes → Bytes
without_breaks [] = []
without_breaks (c ∷ cs) =
    if nat_beq c 10 || nat_beq c 13 then without_breaks cs else c ∷ without_breaks cs

-- `DecodeString`; `none` is an error.
unfoldable pub decode : Bytes → Option Bytes
unfolding decode_quanta without_breaks
decode s = decode_quanta (without_breaks s)

-- The digit of four bits, as `hex.EncodeToString` writes it.
pub digit : ℕ → ℕ
digit n = if ltb n 10 then n + b'0' else n - 10 + b'a'

-- The four bits of a digit, small or capital.
pub digit_value : ℕ → Option ℕ
digit_value c =
    if leb b'0' c && leb c b'9'
    then some (c - b'0')
    else if leb b'a' c && leb c b'f'
    then some (c - b'a' + 10)
    else if leb b'A' c && leb c b'F'
    then some (c - b'A' + 10)
    else none

-- `hex.EncodeToString`
unfoldable pub hex_encode : Bytes → Bytes
unfolding digit
hex_encode [] = []
hex_encode (b ∷ bs) = digit (b / 16) ∷ digit (b % 16) ∷ hex_encode bs

abbrev join_hex : Option ℕ → Option ℕ → Option Bytes → Option Bytes
join_hex (some x) (some y) (some more) = some ((x * 16 + y) ∷ more)
join_hex (some x) (some y) none = none
join_hex (some x) none more = none
join_hex none y more = none

-- `hex.DecodeString`; `none` is an error.
unfoldable pub hex_decode : Bytes → Option Bytes
unfolding digit_value
hex_decode [] = some []
hex_decode (a ∷ b ∷ rest) = join_hex (digit_value a) (digit_value b) (hex_decode rest)
hex_decode (_ ∷ []) = none
