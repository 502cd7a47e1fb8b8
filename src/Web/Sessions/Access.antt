-- ===== src/Web/Sessions/Access.antt =====
-- Who passes the session middleware of internal/web/middleware.go, with the trusted proxies of
-- internal/web/trusted_proxy.go and the loopback test of internal/web/menubar.go. What Go's `net`
-- makes of an address is the parameter `Net`; `credentials` is what `extractCredentials` returns.
use Prim.Native.String.{◌++◌ as str_append}
use loomwatch.Prelude.{
  ℕ, String, Bool, false, ◌&&◌, ◌||◌, Option, none, some, List, [], ◌∷◌, ◌==◌, string_eq,
  if◌then◌else◌, is_some, has_prefix, trim_space,
}
use loomwatch.Web.Sessions.{Hashes, SessionStore, password_matches, validate_token}

-- `net.SplitHostPort` with its fallback to the whole address, `net.ParseIP`, and tests on an IP.
pub record Net : Type 1 where
  pub Ip : Type 0
  pub Network : Type 0
  pub parse_host : String → Option Ip
  pub is_loopback : Ip → Bool
  pub contains : Network → Ip → Bool

pub record Request : Type 0 where
  pub path : String
  pub remote_addr : String
  pub header_values : String → List String
  pub cookie : Option String
  pub credentials : Option (String × String)

-- What the middleware does: the handler runs, a 401 in JSON, or a redirect to the login page.
pub data Outcome : Type 0 where
  serves unauthorized redirects : Outcome

-- `isStaticAsset`
unfoldable pub is_static_asset : String → String → Bool
is_static_asset path base =
    has_prefix path (str_append base "/static/")
    || path == str_append base "/sw.js"
    || path == str_append base "/manifest.json"

-- `isLocalMenubarPublicPath`
unfoldable pub is_local_menubar_public_path : String → Bool
is_local_menubar_public_path path =
    path == "/menubar"
    || path == "/api/menubar/summary"
    || path == "/api/menubar/preferences"
    || path == "/api/menubar/refresh"
    || path == "/api/menubar/tray-title"

module _ (n : Net) where
  open n use {Ip, Network, parse_host, is_loopback, contains}

  -- `type TrustedProxyAuth struct`
  pub record TrustedProxyAuth : Type 0 where
    pub cidrs : List Network
    pub user_header : String

  -- `NewTrustedProxyAuth`
  unfoldable pub new_trusted_proxy_auth : List Network → String → Option TrustedProxyAuth
  new_trusted_proxy_auth [] header = none
  new_trusted_proxy_auth (c ∷ cs) header =
      let user_header = trim_space header in
      if user_header == ""
      then none
      else some (record { cidrs = c ∷ cs; user_header = user_header })

  -- `isLoopbackRequest`
  unfoldable pub is_loopback_request : Request → Bool
  is_loopback_request r = elim (parse_host r.remote_addr) [
    | none ↦ false
    | some ip ↦ is_loopback ip
  ]

  -- The loop over the networks.
  abbrev pub any_contains : List Network → Ip → Bool
  any_contains [] ip = false
  any_contains (c ∷ cs) ip = contains c ip || any_contains cs ip

  -- Exactly one header value, not blank.
  abbrev pub asserted_user : List String → Option String
  asserted_user [] = none
  asserted_user (v ∷ []) = let user = trim_space v in if user == "" then none else some user
  asserted_user (v ∷ w ∷ vs) = none

  -- `TrustedUser`, where there is a configuration.
  unfoldable pub trusted_user_of : TrustedProxyAuth → Request → Option String
  trusted_user_of t r = elim (parse_host r.remote_addr) [
    | none ↦ none
    | some ip ↦
        if any_contains t.cidrs ip then asserted_user (r.header_values t.user_header) else none
  ]

  -- `TrustedUser`
  unfoldable pub trusted_user : Option TrustedProxyAuth → Request → Option String
  trusted_user none r = none
  trusted_user (some t) r = trusted_user_of t r

  -- The Basic Auth of the API branch.
  unfoldable pub basic_auth : Hashes → SessionStore → Option (String × String) → Bool
  basic_auth h s none = false
  basic_auth h s (some (user, password)) =
      user == s.username && password_matches h s.password_hash password

  -- The middleware's last branches, for a request without a valid session.
  unfoldable pub without_session : Hashes → String → Request → SessionStore → Outcome
  without_session h base r s =
      if has_prefix r.path (str_append base "/api/")
      then if basic_auth h s r.credentials then serves else unauthorized
      else redirects

  -- The paths and peers that need no session.
  unfoldable pub bypasses : String → Option TrustedProxyAuth → Request → Bool
  bypasses base proxy r =
      is_static_asset r.path base
      || (r.path == str_append base "/login" || r.path == str_append base "/metrics")
      || is_local_menubar_public_path r.path && is_loopback_request r
      || is_some (trusted_user proxy r)

  -- The session cookie, if there is one.
  unfoldable pub check_cookie : Option String → ℕ → SessionStore → SessionStore × Bool
  check_cookie none now s = (s, false)
  check_cookie (some token) now s = validate_token token now s

  -- `sessionAuthMiddlewareWithTrustedProxy`
  unfoldable pub session_auth :
      Hashes
      → String
      → Option TrustedProxyAuth
      → Request
      → ℕ
      → SessionStore
      → SessionStore × Outcome
  session_auth h base proxy r now s =
      if bypasses base proxy r
      then (s, serves)
      else let (s', valid) = check_cookie r.cookie now s in
        (s', if valid then serves else without_session h base r s')
