-- ===== src/Web/Sessions.antt =====
-- `SessionStore` of internal/web/middleware.go and the `auth_tokens` table of
-- internal/store/store.go. Times and the random token are arguments where the code reads the clock
-- and the random source; an expiry is read back as it was written. What the code calls to compare
-- a password with a hash (bcrypt, SHA-256) is the parameter `Hashes`.
pub mod Coherence
pub mod View
pub mod Grants
pub mod Refinement
pub mod Access
mod Gate
mod Tests
use loomwatch.Prelude.{
  ℕ, suc, ◌+◌, ◌*◌, ◌≡◌, String, Bool, true, false, not, ◌&&◌, ◌||◌, Option, none, some, List, [],
  ◌∷◌, ◌==◌, nat_eq, string_eq, ltb, leb, if◌then◌else◌, length, is_some, codes,
}
use loomwatch.Prelude.Dict.{Dict, lookup, insert, erase}

-- Seven days.
abbrev pub session_max_age : ℕ
session_max_age = 7 * 24 * 3600 * 1_000_000_000

-- `bcrypt.CompareHashAndPassword(…) == nil` and the hex SHA-256 of a password.
pub record Hashes : Type 0 where
  pub check_password_hash : String → String → Bool
  pub legacy_hash_password : String → String

-- The table, with the driver's schedule of the statements that fail.
pub record TokenDb : Type 0 where
  pub rows : Dict String ℕ
  pub calls : ℕ
  pub fails : ℕ → Bool

pub record SessionStore : Type 0 where
  pub tokens : Dict String ℕ
  pub username : String
  pub password_hash : String
  pub store : Option TokenDb

-- A statement whose error the caller ignores.
abbrev pub exec : (Dict String ℕ → Dict String ℕ) → TokenDb → TokenDb
exec f db =
    let failed = db.fails db.calls in
    record db { rows = if failed then db.rows else f db.rows; calls = suc db.calls }

-- `SaveAuthToken`, `DeleteAuthToken` and `DeleteAllAuthTokens`, where there is a store.
unfoldable pub save_auth_token : String → ℕ → Option TokenDb → Option TokenDb
save_auth_token token expiry none = none
save_auth_token token expiry (some db) = some (exec (insert token expiry) db)

unfoldable pub delete_auth_token : String → Option TokenDb → Option TokenDb
delete_auth_token token none = none
delete_auth_token token (some db) = some (exec (erase token) db)

unfoldable pub delete_all_auth_tokens : Option TokenDb → Option TokenDb
delete_all_auth_tokens none = none
delete_all_auth_tokens (some db) = some (exec (λ rows. []) db)

-- `GetAuthTokenExpiry`; a token that is not found and an error are both `none`, which its only
-- caller does not tell apart.
unfoldable pub get_auth_token_expiry : String → TokenDb → Option ℕ × TokenDb
get_auth_token_expiry token db =
    let failed = db.fails db.calls in
    (if failed then none else lookup token db.rows, record db { calls = suc db.calls })

pub is_hex_digit : ℕ → Bool
is_hex_digit c = leb b'0' c && leb c b'9' || leb b'a' c && leb c b'f' || leb b'A' c && leb c b'F'

pub all_hex : List ℕ → Bool
all_hex [] = true
all_hex (c ∷ cs) = is_hex_digit c && all_hex cs

-- `IsLegacyHash`
unfoldable pub is_legacy_hash : String → Bool
unfolding is_hex_digit all_hex
is_legacy_hash hash = length (codes hash) == 64 && all_hex (codes hash)

module _ (h : Hashes) where
  -- The comparison that `Authenticate` and the middleware's Basic Auth make.
  unfoldable pub password_matches : String → String → Bool
  password_matches stored password =
      if is_legacy_hash stored
      then h.legacy_hash_password password == stored
      else h.check_password_hash password stored

  -- `Authenticate`, with the token that `generateToken` returns.
  unfoldable pub authenticate :
      String → String → ℕ → String → SessionStore → SessionStore × Option String
  authenticate username password now token s =
      let expiry = now + session_max_age in
      if not (username == s.username)
      then (s, none)
      else if not (password_matches s.password_hash password)
      then (s, none)
      else (
        record s {
          tokens = insert token expiry s.tokens;
          store = save_auth_token token expiry s.store;
        },
        some token,
      )

-- The part of `ValidateToken` for a token that is not cached, from what the database returned.
unfoldable pub validate_found : String → ℕ → SessionStore → TokenDb → Option ℕ → SessionStore × Bool
validate_found token now s db none = (record s { store = some db }, false)
validate_found token now s db (some expiry) =
    if ltb expiry now
    then (record s { store = delete_auth_token token (some db) }, false)
    else (record s { tokens = insert token expiry s.tokens; store = some db }, true)

unfoldable pub validate_stored : String → ℕ → SessionStore → Option TokenDb → SessionStore × Bool
validate_stored token now s none = (s, false)
validate_stored token now s (some db) =
    let (found, db') = get_auth_token_expiry token db in validate_found token now s db' found

-- `ValidateToken`
unfoldable pub validate_token : String → ℕ → SessionStore → SessionStore × Bool
validate_token token now s = if token == "" then (s, false) else elim (lookup token s.tokens) [
  | none ↦ validate_stored token now s s.store
  | some expiry ↦
      if ltb expiry now
      then (
        record s { tokens = erase token s.tokens; store = delete_auth_token token s.store },
        false,
      )
      else (s, true)
]

-- `Invalidate`
unfoldable pub invalidate : String → SessionStore → SessionStore
invalidate token s = record s {
  tokens = erase token s.tokens;
  store = delete_auth_token token s.store;
}

-- `UpdatePassword`
unfoldable pub update_password : String → SessionStore → SessionStore
update_password new_hash s = record s { password_hash = new_hash }

-- `InvalidateAll`
unfoldable pub invalidate_all : SessionStore → SessionStore
invalidate_all s = record s { tokens = []; store = delete_all_auth_tokens s.store }

-- The loop of `EvictExpiredTokens` over the cached tokens.
pub evict_expired :
    ℕ → Dict String ℕ → Dict String ℕ × Option TokenDb → Dict String ℕ × Option TokenDb
evict_expired now [] (tokens, store) = (tokens, store)
evict_expired now ((token, expiry) ∷ rest) (tokens, store) = evict_expired now rest (
    if ltb expiry now then (erase token tokens, delete_auth_token token store) else (tokens, store))

-- `EvictExpiredTokens`
unfoldable pub evict_expired_tokens : ℕ → SessionStore → SessionStore
evict_expired_tokens now s =
    let (tokens, store) = evict_expired now s.tokens (s.tokens, s.store) in
    record s { tokens = tokens; store = store }
