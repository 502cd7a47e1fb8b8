-- ===== src/Web/Sessions/Gate.antt =====
-- What the session middleware lets through, in terms of what logins have granted, and a logout
-- whose statement fails.
use Prim.Native.String.{◌++◌ as str_append}
use loomwatch.Prelude.{
  ℕ, suc, ◌≡◌, refl, ◌∙◌, ap, inl, inr, Option-cases, String, Bool, true, false, not, ◌&&◌, Option,
  none, some, List, arith, ◌==◌, string_eq, ltb, if◌then◌else◌, is_some, has_prefix,
}
use loomwatch.Prelude.Dict.{lookup, lookup-erase}
use loomwatch.Web.Sessions.{
  Hashes, TokenDb, SessionStore, password_matches, validate_token, validate_stored, validate_found,
  get_auth_token_expiry, invalidate, delete_auth_token,
}
use loomwatch.Web.Sessions.View.{validate_token-Validates}
use loomwatch.Web.Sessions.Coherence.{live}
use loomwatch.Web.Sessions.Refinement.{run-Refines, validate_token-user}
use loomwatch.Web.Sessions.Grants.{Call, Grants, Refines, AllBefore, run, grants}
use loomwatch.Web.Sessions.Access.{
  Net, Request, Outcome, serves, unauthorized, redirects, is_static_asset,
  is_local_menubar_public_path, TrustedProxyAuth, any_contains, is_loopback_request, trusted_user,
  trusted_user_of, basic_auth, without_session, bypasses, check_cookie, session_auth,
}

module _ (n : Net) where
  -- The path needs a session, at least from this peer.
  abbrev pub is_guarded : String → Request → Bool
  is_guarded base r =
      not (is_static_asset r.path base)
      && not (r.path == str_append base "/login")
      && not (r.path == str_append base "/metrics")
      && not (is_local_menubar_public_path r.path && is_loopback_request n r)

  -- No trusted network holds the peer.
  abbrev pub FromOutside : Option (TrustedProxyAuth n) → Request → Type 0
  FromOutside none r = Unit
  FromOutside (some t) r =
      (ip : n.Ip) → n.parse_host r.remote_addr ≡ some ip → any_contains n t.cidrs ip ≡ false

  outside-trusted_user :
      (proxy : Option (TrustedProxyAuth n)) (r : Request)
      → FromOutside proxy r
      → trusted_user n proxy r ≡ none
  unfolding trusted_user trusted_user_of
  outside-trusted_user none r outside = refl
  outside-trusted_user (some t) r outside = elim (Option-cases (n.parse_host r.remote_addr)) [
    | inl unknown ↦ rw (trusted_user, trusted_user_of, unknown) refl
    | inr (ip, e) ↦ rw (trusted_user, trusted_user_of, e, outside ip e) refl
  ]

  guarded-bypasses :
      (base : String) (proxy : Option (TrustedProxyAuth n)) (r : Request)
      → is_guarded base r ≡ true
      → FromOutside proxy r
      → bypasses n base proxy r ≡ false
  unfolding bypasses
  guarded-bypasses base proxy r guarded outside =
      rw (outside-trusted_user proxy r outside) (ground arith)

  -- What a client without a granted token gets.
  abbrev pub by_credentials : Hashes → String → String → Grants → Request → Outcome
  by_credentials h base user g r =
      if has_prefix r.path (str_append base "/api/")
      then elim r.credentials [
        | none ↦ unauthorized
        | some (name, password) ↦
            if name == user && password_matches h g.hash password then serves else unauthorized
      ]
      else redirects

  without_session_granted :
      (h : Hashes) (base user : String) (r : Request) (s : SessionStore) (g : Grants)
      → s.username ≡ user
      → s.password_hash ≡ g.hash
      → without_session n h base r s ≡ by_credentials h base user g r
  unfolding without_session basic_auth
  without_session_granted h base user r s g same_user same_hash =
      elim (Option-cases r.credentials) [
        | inl absent ↦ rw absent (ground arith)
        | inr (given, e) ↦ rw (e, same_user, same_hash) (ground arith)
      ]

-- The middleware over a store whose statements do not fail, after any calls up to now, for a
-- request with a token that is not empty, to a path that needs a session, from a peer in no
-- trusted network: whatever the headers say, the handler runs if the token is granted and not
-- expired; if not, an API request needs the user's name and current password and gets a 401
-- without them, and any other request is sent to the login page.
pub session_auth_granted :
    (n : Net) (h : Hashes) (base user token : String) (proxy : Option (TrustedProxyAuth n))
    (r : Request) (now : ℕ) (calls : List (ℕ × Call)) (s : SessionStore) (g : Grants)
    → AllBefore now calls
    → Refines now user s g
    → r.cookie ≡ some token
    → (token == "") ≡ false
    → is_guarded n base r ≡ true
    → FromOutside n proxy r
    → (session_auth n h base proxy r now (run h calls s)).1 ≡ (
        if is_some (live now ((grants h user calls g).expiry token))
        then serves
        else by_credentials n h base user (grants h user calls g) r)
unfolding session_auth check_cookie grants without_session
session_auth_granted n h base user token proxy r now calls s g before r0 cookie named guarded
      outside =
    let r' = run-Refines h now user calls s g before r0 in
    let s' = run h calls s in
    let v =
      validate_token-Validates token token now s' named (r'.coherent token) r'.fine
        (r'.coherent token) in
    let valid : (validate_token token now s').1
        ≡ is_some (live now ((grants h user calls g).expiry token)) =
      v.1 ∙ ap is_some (r'.shown token) in
    let after = validate_token-user token now s' in
    let rest =
      without_session_granted n h base user r (validate_token token now s').0
        (grants h user calls g) (after.0 ∙ r'.named) (after.1 ∙ r'.hashed) in
    rw (guarded-bypasses n base proxy r guarded outside, cookie, valid, rest) refl

-- A logout whose statement fails while the next one does not: the token that is stored and has not
-- expired is accepted again.
pub invalidate_failed :
    (token : String) (now expiry : ℕ) (s : SessionStore) (db : TokenDb)
    → s.store ≡ some db
    → db.fails db.calls ≡ true
    → db.fails (suc db.calls) ≡ false
    → (token == "") ≡ false
    → lookup token db.rows ≡ some expiry
    → ltb expiry now ≡ false
    → (validate_token token now (invalidate token s)).1 ≡ true
unfolding validate_token invalidate delete_auth_token validate_stored validate_found
    get_auth_token_expiry
invalidate_failed token now expiry s db held failed works named stored early =
    let gone = lookup-erase token token s.tokens in
    let same = string_eq.matches_iff token token in ground arith
