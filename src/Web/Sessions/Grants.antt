-- ===== src/Web/Sessions/Grants.antt =====
-- The abstract view of a session store: until when each token is granted, what calls do to that, and
-- when a store stands for it.
use loomwatch.Prelude.{
  ℕ, ◌+◌, ◌≤◌, ◌≡◌, String, ◌&&◌, Option, none, some, List, [], ◌∷◌, ◌==◌, string_eq, if◌then◌else◌,
}
use loomwatch.Prelude.Dict.{IsMap}
use loomwatch.Web.Sessions.{
  SessionStore, Hashes, session_max_age, password_matches, authenticate, validate_token, invalidate,
  invalidate_all, update_password, evict_expired_tokens,
}
use loomwatch.Web.Sessions.Coherence.{view, live, Faultless, CoherentAt}

pub data Call : Type 0 where
  logs_in : String → String → String → Call
  checks logs_out changes_password : String → Call
  logs_out_all evicts : Call

-- The abstract state: the password's hash, and until when each token is good.
pub record Grants : Type 0 where
  pub hash : String
  pub expiry : String → Option ℕ

module _ (h : Hashes) where
  unfoldable pub step : ℕ × Call → SessionStore → SessionStore
  step (now, logs_in username password token) s = (authenticate h username password now token s).0
  step (now, checks token) s = (validate_token token now s).0
  step (now, logs_out token) s = invalidate token s
  step (now, changes_password hash) s = update_password hash s
  step (now, logs_out_all) s = invalidate_all s
  step (now, evicts) s = evict_expired_tokens now s

  unfoldable pub run : List (ℕ × Call) → SessionStore → SessionStore
  run [] s = s
  run (c ∷ cs) s = run cs (step c s)

  -- The same calls on the abstract state of a store for one user.
  unfoldable pub grant_step : String → ℕ × Call → Grants → Grants
  grant_step user (now, logs_in username password token) g =
      if username == user && password_matches h g.hash password
      then record g {
        expiry = λ u. if token == u then some (now + session_max_age) else g.expiry u;
      }
      else g
  grant_step user (now, checks token) g = g
  grant_step user (now, logs_out token) g = record g {
    expiry = λ u. if token == u then none else g.expiry u;
  }
  grant_step user (now, changes_password hash) g = record g { hash = hash }
  grant_step user (now, logs_out_all) g = record g { expiry = λ u. none }
  grant_step user (now, evicts) g = g

  unfoldable pub grants : String → List (ℕ × Call) → Grants → Grants
  grants user [] g = g
  grants user (c ∷ cs) g = grants user cs (grant_step user c g)

-- The store stands for the abstract state, as far as tokens are live at a given time.
pub record Refines (now : ℕ) (user : String) (s : SessionStore) (g : Grants) : Type 0 where
  pub keys : IsMap s.tokens
  pub fine : Faultless s.store
  pub coherent : (u : String) → CoherentAt u s.tokens s.store
  pub named : s.username ≡ user
  pub hashed : s.password_hash ≡ g.hash
  pub shown : (u : String) → live now (view s u) ≡ live now (g.expiry u)

abbrev pub AllBefore : ℕ → List (ℕ × Call) → Type 0
AllBefore now [] = Unit
AllBefore now (c ∷ cs) = (c.0 ≤ now) × AllBefore now cs
