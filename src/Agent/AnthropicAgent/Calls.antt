-- ===== src/Agent/AnthropicAgent/Calls.antt =====
-- internal/agent/anthropic_agent.go: how often one poll calls the two endpoints, and when it must
-- not refresh at all.
pub mod Refreshes
pub mod Fetches
use loomwatch.Prelude.{
  ℕ, zero, suc, ◌+◌, ◌*◌, ◌≤◌, ◌≡◌, ◌⊎◌, inl, inr, refl, String, Bool, true, false, Option, none,
  some, List, [], ◌∷◌, arith, string_eq, nat_eq, count_if, if_both,
}
use loomwatch.Tracker.Anthropic.{AnthropicQuota, AnthropicSnapshot}
use loomwatch.Agent.AnthropicAgent.{
  World, Config, AnthropicAgent, AnthropicCredentials, called, logged, fetched, stored, processed,
  checked, reported, auto_refresh_tokens_enabled,
}
use loomwatch.Agent.AnthropicAgent.Statusline.{StatuslineRateLimits, statusline_to_snapshot}
use loomwatch.Agent.AnthropicAgent.Oauth.{proactive_refresh, try_paused_auth_recovery}
use loomwatch.Agent.AnthropicAgent.Fetch.{Fetched, fetch_quotas, first_answer}
use loomwatch.Agent.AnthropicAgent.Poll.{
  check_quotas, session_values, process_stored, process_response, statusline_poll, statusline_read,
  poll_statusline, refresh_expiring, refresh_first, install_token, reread_token, respond,
  poll_unless_paused, poll_api, poll_enabled, poll,
}
use loomwatch.Agent.AnthropicAgent.Calls.Refreshes.{
  refreshes, fetches, Spends, Allows, try_paused_auth_recovery-Spends, proactive_refresh-Spends,
}
use loomwatch.Agent.AnthropicAgent.Calls.Fetches.{fetch-Spends}

check_quotas-Spends :
    (qs : List AnthropicQuota) (a : AnthropicAgent) → Spends 0 0 a (check_quotas qs a)
unfolding check_quotas
check_quotas-Spends [] a = ground arith
check_quotas-Spends (q ∷ qs) a = ground (arith, check_quotas-Spends qs (logged (checked q) a))

module _ (w : World) (c : Config) where
  process_stored-Spends :
      (s : AnthropicSnapshot) (a : AnthropicAgent) → Spends 0 0 a (process_stored w c s a)
  unfolding process_stored
  process_stored-Spends s a =
      ground (
        arith,
        check_quotas-Spends s.quotas a,
        check_quotas-Spends s.quotas (logged (processed s) a),
      )

  respond-Spends : (r : Fetched) → Spends 0 0 r.1 (respond w c r)
  unfolding process_response
  respond-Spends (none, a) = ground arith
  respond-Spends (some quotas, a) =
      let snapshot : AnthropicSnapshot = record { captured_at = w.now a.calls; quotas = quotas } in
      let a1 : AnthropicAgent = record (called (called a)) {
        auth_fail_count = 0;
        auth_retry_count = 0;
        auth_retry_at = 0;
      } in
      ground (arith, process_stored-Spends snapshot (logged (stored snapshot) a1))

  statusline_read-Spends :
      (r : Option (Option StatuslineRateLimits)) (a : AnthropicAgent)
      → Spends 0 0 a (statusline_read w c r a).1
  unfolding statusline_read
  statusline_read-Spends none a = ground arith
  statusline_read-Spends (some none) a = ground arith
  statusline_read-Spends (some (some rl)) a = ground arith

  poll_statusline-Spends : (a : AnthropicAgent) → Spends 0 0 a (poll_statusline w c a).1
  unfolding poll_statusline
  poll_statusline-Spends a =
      ground (arith, statusline_read-Spends (w.read_statusline (suc a.calls)) (called (called a)))

  reread_token-Spends : (a : AnthropicAgent) → Spends 0 0 a (reread_token w c a)
  unfolding reread_token
  reread_token-Spends a = ground arith

module _ (w : World) (c : Config) (u : ℕ) (allows : Allows w u) where
  refresh_expiring-Spends :
      (creds : Option AnthropicCredentials) (a : AnthropicAgent)
      → Spends u 0 a (refresh_expiring w c creds a)
  unfolding refresh_expiring
  refresh_expiring-Spends none a = ground arith
  refresh_expiring-Spends (some creds) a =
      ground (arith, proactive_refresh-Spends w c u allows creds a)

  refresh_first-Spends : (a : AnthropicAgent) → Spends u 0 a (refresh_first w c a)
  unfolding refresh_first
  refresh_first-Spends a =
      ground (arith, refresh_expiring-Spends (w.creds_refresh a.calls) (called a))

  poll_unless_paused-Spends : (a : AnthropicAgent) → Spends (u + u) 3 a (poll_unless_paused w c a)
  unfolding poll_unless_paused
  poll_unless_paused-Spends a =
      let a1 = (try_paused_auth_recovery w c a).1 in
      ground (
        arith,
        try_paused_auth_recovery-Spends w c u allows a,
        respond-Spends w c (first_answer w c (fetch_quotas w c a)),
        fetch-Spends w c u allows a,
        respond-Spends w c (first_answer w c (fetch_quotas w c a1)),
        fetch-Spends w c u allows a1,
      )

  poll_api-Spends : (a : AnthropicAgent) → Spends (3 * u) 3 a (poll_api w c a)
  unfolding poll_api
  poll_api-Spends a =
      let a1 = refresh_first w c a in
      let a2 = reread_token w c a1 in
      ground
        (arith, refresh_first-Spends a, reread_token-Spends w c a1, poll_unless_paused-Spends a2)

  poll_enabled-Spends : (a : AnthropicAgent) → Spends (3 * u) 3 a (poll_enabled w c a)
  unfolding poll_enabled
  poll_enabled-Spends a =
      ground (arith, poll_statusline-Spends w c a, poll_api-Spends (poll_statusline w c a).1)

  poll-Spends : (a : AnthropicAgent) → Spends (3 * u) 3 a (poll w c a)
  unfolding poll
  poll-Spends a = ground (arith, poll_enabled-Spends a, poll_enabled-Spends (called a))

-- One poll calls the usage API at most three times and the OAuth endpoint at most three times,
-- whatever its surroundings answer.
pub poll_spends :
    (w : World) (c : Config) (a : AnthropicAgent)
    → (fetches (poll w c a) ≤ fetches a + 3) × (refreshes (poll w c a) ≤ refreshes a + 3)
poll_spends w c a = ground (arith, poll-Spends w c 1 (λ n m. inr (inr (omega arith))) a)

-- A poll does not use up a refresh token if the settings forbid refreshing at every moment of the
-- poll, or if Claude Code runs at every moment of it: it makes no call of the OAuth endpoint, on no
-- path, be it the refresh before expiry, the bypass of a 429, or a recovery from rejections.
pub poll_spares :
    (w : World) (c : Config) (a : AnthropicAgent)
    → ((n : ℕ) → auto_refresh_tokens_enabled (w.auto_refresh_setting n) ≡ false)
      ⊎ ((n : ℕ) → w.claude_code_running n ≡ true)
    → refreshes (poll w c a) ≤ refreshes a
poll_spares w c a (inl off) = ground (arith, poll-Spends w c 0 (λ n m. inl (off n)) a)
poll_spares w c a (inr runs) = ground (arith, poll-Spends w c 0 (λ n m. inr (inl (runs m))) a)

-- An agent set to use the status line only calls neither endpoint in a poll, also where the file
-- is stale, missing or invalid.
pub poll_statusline_only :
    (w : World) (c : Config) (a : AnthropicAgent)
    → c.api_polling_disabled ≡ true
    → (fetches (poll w c a) ≤ fetches a) × (refreshes (poll w c a) ≤ refreshes a)
unfolding poll poll_enabled poll_api
poll_statusline_only w c a off =
    ground (arith, poll_statusline-Spends w c a, poll_statusline-Spends w c (called a))
