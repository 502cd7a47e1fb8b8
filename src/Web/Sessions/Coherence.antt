-- ===== src/Web/Sessions/Coherence.antt =====
-- The tokens that a session store knows, whether it has them cached, in the database or both, and
-- what saving and deleting a token does to them when no statement fails.
use loomwatch.Prelude.{
  ℕ, ◌≤◌, ◌≡◌, refl, String, true, false, Option, none, some, [], arith, ◌==◌, nat_eq, string_eq,
  ltb, if◌then◌else◌, is_some,
}
use loomwatch.Prelude.Dict.{Dict, lookup, insert, erase, lookup-insert, lookup-erase}
use loomwatch.Web.Sessions.{
  TokenDb, SessionStore, save_auth_token, delete_auth_token, delete_all_auth_tokens,
}

-- The expiry of a token: the database's, or the cache's where there is no database.
abbrev pub view_of : Dict String ℕ → Option TokenDb → String → Option ℕ
view_of tokens none u = lookup u tokens
view_of tokens (some db) u = lookup u db.rows

abbrev pub view : SessionStore → String → Option ℕ
view s = view_of s.tokens s.store

-- The expiry, if it has not passed.
abbrev pub live : ℕ → Option ℕ → Option ℕ
live now none = none
live now (some expiry) = if ltb expiry now then none else some expiry

pub live_mono :
    (now later : ℕ) (a b : Option ℕ)
    → now ≤ later
    → live now a ≡ live now b
    → live later a ≡ live later b
live_mono now later a b h e = ground arith

abbrev pub Faultless : Option TokenDb → Type 0
Faultless none = Unit
Faultless (some db) = (n : ℕ) → db.fails n ≡ false

-- What is cached about a token is what the database holds.
abbrev pub CoherentAt : String → Dict String ℕ → Option TokenDb → Type 0
CoherentAt u tokens none = Unit
CoherentAt u tokens (some db) =
    is_some (lookup u tokens) ≡ true → lookup u db.rows ≡ lookup u tokens

-- After an operation: the statements still do not fail, the cache is coherent, and the token's
-- expiry is as given.
abbrev pub Becomes : String → Option ℕ → Dict String ℕ → Option TokenDb → Type 0
Becomes u expiry tokens store =
    Faultless store × CoherentAt u tokens store × (view_of tokens store u ≡ expiry)

pub saved-Becomes :
    (k u : String) (expiry : ℕ) (tokens : Dict String ℕ) (store : Option TokenDb)
    → Faultless store
    → CoherentAt u tokens store
    → Becomes u
        (if k == u then some expiry else view_of tokens store u)
        (insert k expiry tokens)
        (save_auth_token k expiry store)
unfolding save_auth_token
saved-Becomes k u expiry tokens none fine coherent = (tt, tt, lookup-insert k u expiry tokens)
saved-Becomes k u expiry tokens (some db) fine coherent =
    let cached = lookup-insert k u expiry tokens in
    let stored = lookup-insert k u expiry db.rows in
    (
      fine,
      ground (arith, fine db.calls, cached, stored, coherent),
      ground (arith, fine db.calls, stored),
    )

pub deleted-Becomes :
    (k u : String) (tokens : Dict String ℕ) (store : Option TokenDb)
    → Faultless store
    → CoherentAt u tokens store
    → Becomes u
        (if k == u then none else view_of tokens store u)
        (erase k tokens)
        (delete_auth_token k store)
unfolding delete_auth_token
deleted-Becomes k u tokens none fine coherent = (tt, tt, lookup-erase k u tokens)
deleted-Becomes k u tokens (some db) fine coherent =
    let cached = lookup-erase k u tokens in
    let stored = lookup-erase k u db.rows in
    (
      fine,
      ground (arith, fine db.calls, cached, stored, coherent),
      ground (arith, fine db.calls, stored),
    )

pub all_deleted-Becomes :
    (u : String) (store : Option TokenDb)
    → Faultless store
    → Becomes u none [] (delete_all_auth_tokens store)
unfolding delete_all_auth_tokens
all_deleted-Becomes u none fine = (tt, tt, refl)
all_deleted-Becomes u (some db) fine =
    (fine, ground (arith, fine db.calls), ground (arith, fine db.calls))
