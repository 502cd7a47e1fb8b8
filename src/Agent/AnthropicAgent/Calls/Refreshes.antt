-- ===== src/Agent/AnthropicAgent/Calls/Refreshes.antt =====
-- internal/agent/anthropic_agent.go: the refreshes of one recovery, counted.
use loomwatch.Prelude.{
  ℕ, suc, ◌+◌, ◌≤◌, ◌≡◌, ◌⊎◌, Bool, true, false, Option, none, some, Result, ok, err, arith,
  string_eq, nat_eq, count_if,
}
use loomwatch.Agent.AnthropicAgent.{
  World, Config, AnthropicAgent, AnthropicCredentials, OauthTokens, OauthError, rate_limited,
  invalid_grant, refresh_failed, called, logged, Event, fetched, refreshed, auth_error, stored,
  processed, checked, reported, auto_refresh_tokens_enabled, auth_retry_backoff,
}
use loomwatch.Agent.AnthropicAgent.Oauth.{
  note_oauth_refresh_failure, refresh_guards, recovered, running_guards, recover_with,
  try_oauth_recovery, try_paused_auth_recovery, proactive_answer, proactive_refresh,
}

abbrev is_refreshed : Event → Bool
is_refreshed (refreshed _) = true
is_refreshed (fetched _) = false
is_refreshed (auth_error _) = false
is_refreshed (stored _) = false
is_refreshed (processed _) = false
is_refreshed (checked _) = false
is_refreshed (reported _) = false

abbrev is_fetched : Event → Bool
is_fetched (fetched _) = true
is_fetched (refreshed _) = false
is_fetched (auth_error _) = false
is_fetched (stored _) = false
is_fetched (processed _) = false
is_fetched (checked _) = false
is_fetched (reported _) = false

-- The calls of the OAuth endpoint, each of which uses up a refresh token.
abbrev pub refreshes : AnthropicAgent → ℕ
refreshes a = count_if is_refreshed a.log

-- The calls of the usage API.
abbrev pub fetches : AnthropicAgent → ℕ
fetches a = count_if is_fetched a.log

-- At most so many calls of the OAuth endpoint and of the usage API.
abbrev pub Spends : ℕ → ℕ → AnthropicAgent → AnthropicAgent → Type 0
Spends m n a b = (refreshes b ≤ refreshes a + m) × (fetches b ≤ fetches a + n)

-- Refreshing is ruled out by the settings or by a running Claude Code, or `u` is not 0.
abbrev pub Allows : World → ℕ → Type 0
Allows w u =
    (n m : ℕ)
    → (auto_refresh_tokens_enabled (w.auto_refresh_setting n) ≡ false)
      ⊎ (w.claude_code_running m ≡ true)
      ⊎ (1 ≤ u)

module _ (w : World) (c : Config) (u : ℕ) (allows : Allows w u) where
  note_oauth_refresh_failure-Spends :
      (e : OauthError) (a : AnthropicAgent) → Spends 0 0 a (note_oauth_refresh_failure w c e a)
  unfolding note_oauth_refresh_failure
  note_oauth_refresh_failure-Spends (rate_limited n) a = ground arith
  note_oauth_refresh_failure-Spends invalid_grant a = ground arith
  note_oauth_refresh_failure-Spends refresh_failed a = ground arith

  recovered-Spends :
      (creds : AnthropicCredentials) (r : Result OauthError OauthTokens) (a : AnthropicAgent)
      → Spends 0 0 a (recovered w c creds (r, a)).1
  unfolding recovered
  recovered-Spends creds (ok new) a = ground arith
  recovered-Spends creds (err e) a = note_oauth_refresh_failure-Spends e a

  recover_with-Spends :
      (creds : Option AnthropicCredentials) (a : AnthropicAgent)
      → Spends 1 0 a (recover_with w c creds a).1
  unfolding recover_with
  recover_with-Spends none a = ground arith
  recover_with-Spends (some creds) a =
      let a1 = called (logged (refreshed creds.refresh_token) a) in
      ground (arith, recovered-Spends creds (w.refresh_token a.calls creds.refresh_token) a1)

  -- The guards let a refresh pass only where one is allowed.
  refresh_guards_stop :
      (a : AnthropicAgent)
      → Spends 0 0 a (refresh_guards w c a).1 × (((refresh_guards w c a).0 ≡ false) ⊎ (1 ≤ u))
  unfolding refresh_guards
  refresh_guards_stop a = ground (arith, allows a.calls (suc a.calls))

  pub try_oauth_recovery-Spends : (a : AnthropicAgent) → Spends u 0 a (try_oauth_recovery w c a).1
  unfolding try_oauth_recovery
  try_oauth_recovery-Spends a =
      let a1 = (refresh_guards w c a).1 in
      ground
        (arith, refresh_guards_stop a, recover_with-Spends (w.creds_refresh a1.calls) (called a1))

  pub try_paused_auth_recovery-Spends :
      (a : AnthropicAgent) → Spends u 0 a (try_paused_auth_recovery w c a).1
  unfolding try_paused_auth_recovery
  try_paused_auth_recovery-Spends a =
      let count = suc a.auth_retry_count in
      let a1 : AnthropicAgent = record a {
        auth_retry_count = count;
        auth_retry_at = w.now a.calls + auth_retry_backoff count;
        calls = suc a.calls;
      } in
      ground (arith, try_oauth_recovery-Spends a1)

  proactive_answer-Spends :
      (creds : AnthropicCredentials) (r : Result OauthError OauthTokens) (a : AnthropicAgent)
      → Spends 0 0 a (proactive_answer w c creds (r, a))
  unfolding proactive_answer
  proactive_answer-Spends creds (ok new) a = ground arith
  proactive_answer-Spends creds (err (rate_limited n)) a = ground arith
  proactive_answer-Spends creds (err invalid_grant) a = ground arith
  proactive_answer-Spends creds (err refresh_failed) a = ground arith

  pub proactive_refresh-Spends :
      (creds : AnthropicCredentials) (a : AnthropicAgent)
      → Spends u 0 a (proactive_refresh w c creds a)
  unfolding proactive_refresh
  proactive_refresh-Spends creds a =
      let a1 = (running_guards w c (called a)).1 in
      ground (
        arith,
        allows a.calls (suc a.calls),
        proactive_answer-Spends creds (w.refresh_token a1.calls creds.refresh_token)
            (called (logged (refreshed creds.refresh_token) a1)),
      )
