-- ===== src/Web/Sessions/Tests.antt =====
-- The session store and its middleware on concrete calls, and their theorems there.
use loomwatch.Prelude.{
  ℕ, ◌≡◌, refl, false, some, none, List, [], ◌∷◌, arith, string_eq, ◌==◌, is_some, if◌then◌else◌,
  nat_beq, has_prefix,
}
use loomwatch.Web.Sessions.{Hashes, TokenDb, SessionStore, validate_token}
use loomwatch.Web.Sessions.Coherence.{live}
use loomwatch.Web.Sessions.Refinement.{run_validates}
use loomwatch.Web.Sessions.Grants.{
  Call, logs_in, checks, logs_out, changes_password, evicts, Grants, Refines, run, grants,
}
use loomwatch.Web.Sessions.Access.{
  is_static_asset, is_local_menubar_public_path, Net, Request, serves, unauthorized,
  TrustedProxyAuth, session_auth,
}
use loomwatch.Web.Sessions.Gate.{session_auth_granted}

-- A hash is the password with a mark before it.
abbrev hashes : Hashes
hashes = record {
  check_password_hash = λ hash password. hash == password;
  legacy_hash_password = λ password. password;
}

abbrev db : TokenDb
db = record { rows = []; calls = 0; fails = λ n. false }

abbrev store : SessionStore
store = record { tokens = []; username = "ann"; password_hash = "one"; store = some db }

abbrev granted : Grants
granted = record { hash = "one"; expiry = λ u. none }

abbrev refines : Refines 50 "ann" store granted
refines = record {
  keys = tt;
  fine = λ n. refl;
  coherent = λ u h. refl;
  named = refl;
  hashed = refl;
  shown = λ u. refl;
}

abbrev calls : List (ℕ × Call)
calls =
    (10, logs_in "ann" "one" "t1")
    ∷ (20, logs_in "bob" "one" "t2")
    ∷ (30, changes_password "two")
    ∷ (40, checks "t1")
    ∷ (45, logs_out "t3")
    ∷ (48, evicts)
    ∷ []

run_validates_example :
    (validate_token "t1" 50 (run hashes calls store)).1
    ≡ is_some (live 50 ((grants hashes "ann" calls granted).expiry "t1"))
run_validates_example =
    run_validates hashes 50 "ann" "t1" calls store granted
      (omega arith, (omega arith, (omega arith, (omega arith, (omega arith, (omega arith, tt))))))
      refines refl

-- Addresses and networks are numbers; the peer is 7 and the trusted network is 1.
abbrev net : Net
net = record {
  Ip = ℕ;
  Network = ℕ;
  parse_host = λ host. some 7;
  is_loopback = λ ip. false;
  contains = λ network ip. false;
}

abbrev proxy : TrustedProxyAuth net
proxy = record { cidrs = 1 ∷ []; user_header = "X-User" }

abbrev request : Request
request = record {
  path = "/api/current";
  remote_addr = "10.0.0.7:4000";
  header_values = λ name. "root" ∷ [];
  cookie = some "t1";
  credentials = none;
}

session_auth_granted_example :
    (session_auth net hashes "" (some proxy) request 50 (run hashes calls store)).1 ≡ (
      if is_some (live 50 ((grants hashes "ann" calls granted).expiry "t1"))
      then serves
      else unauthorized)
unfolding has_prefix is_static_asset is_local_menubar_public_path
session_auth_granted_example =
    session_auth_granted net hashes "" "ann" "t1" (some proxy) request 50 calls store granted
      (omega arith, (omega arith, (omega arith, (omega arith, (omega arith, (omega arith, tt))))))
      refines refl refl refl (λ ip e. refl)

-- The token is cached and stored; the first statement fails.
abbrev failing : TokenDb
failing = record { rows = ("t1", 90) ∷ []; calls = 0; fails = λ n. nat_beq n 0 }

abbrev cached : SessionStore
cached = record {
  tokens = ("t1", 90) ∷ [];
  username = "ann";
  password_hash = "one";
  store = some failing;
}
