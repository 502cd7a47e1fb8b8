-- ===== src/Agent/AnthropicAgent/Recovery.antt =====
-- internal/agent/anthropic_agent.go: a paused agent recovers by itself once its retry is due.
use loomwatch.Prelude.{
  ℕ, suc, ◌+◌, ◌≤◌, ◌<◌, ◌≡◌, ◌≢◌, ◌⊎◌, inl, inr, refl, String, Bool, true, false, some, List, [],
  ◌∷◌, Result, ok, err, arith, string_eq, nat_eq, count_if,
}
use loomwatch.Tracker.Anthropic.{AnthropicQuota, AnthropicSnapshot}
use loomwatch.Agent.AnthropicAgent.{
  World, Config, AnthropicAgent, AnthropicCredentials, OauthTokens, FetchError, called, logged,
  Event, fetched, refreshed, auth_error, stored, processed, checked, reported,
  auto_refresh_tokens_enabled, auth_retry_backoff,
}
use loomwatch.Agent.AnthropicAgent.Oauth.{lift_pause, try_oauth_recovery, try_paused_auth_recovery}
use loomwatch.Agent.AnthropicAgent.Fetch.{decayed, fetch_quotas, first_answer}
use loomwatch.Agent.AnthropicAgent.Poll.{
  check_quotas, process_stored, process_response, poll_statusline, refresh_first, reread_token,
  respond, poll_unless_paused, poll_api, poll_enabled, poll,
}

abbrev is_stored : Event → Bool
is_stored (stored _) = true
is_stored (fetched _) = false
is_stored (refreshed _) = false
is_stored (auth_error _) = false
is_stored (processed _) = false
is_stored (checked _) = false
is_stored (reported _) = false

-- The snapshots stored so far.
abbrev pub stores : AnthropicAgent → ℕ
stores a = count_if is_stored a.log

-- Nothing of the pause is left, and one more snapshot is stored.
abbrev pub Resumed : AnthropicAgent → AnthropicAgent → Type 0
Resumed a b =
    (b.auth_paused ≡ false)
    × (b.auth_fail_count ≡ 0)
    × (b.auth_retry_at ≡ 0)
    × (b.auth_retry_count ≡ 0)
    × (stores b ≡ suc (stores a))

-- Surroundings in which a refresh is allowed and all calls succeed, from a time on.
pub record IsHealthy (w : World) (since : ℕ) (creds : AnthropicCredentials) (new : OauthTokens)
    (quotas : List AnthropicQuota) : Type 0 where
  pub due : (n : ℕ) → since ≤ w.now n
  pub enabled : (n : ℕ) → auto_refresh_tokens_enabled (w.auto_refresh_setting n) ≡ true
  pub not_running : (n : ℕ) → w.claude_code_running n ≡ false
  pub has_creds : (n : ℕ) → w.creds_refresh n ≡ some creds
  pub refreshes : (n : ℕ) → w.refresh_token n creds.refresh_token ≡ ok new
  pub fetches : (n : ℕ) (token : String) → w.fetch_quotas n token ≡ ok quotas
  pub inserts : (n : ℕ) → w.insert_snapshot n ≡ true

check_quotas-stores :
    (qs : List AnthropicQuota) (a : AnthropicAgent)
    → (stores (check_quotas qs a) ≡ stores a)
      × ((check_quotas qs a).auth_paused ≡ a.auth_paused)
      × ((check_quotas qs a).auth_fail_count ≡ a.auth_fail_count)
      × ((check_quotas qs a).auth_retry_at ≡ a.auth_retry_at)
      × ((check_quotas qs a).auth_retry_count ≡ a.auth_retry_count)
unfolding check_quotas
check_quotas-stores [] a = (refl, refl, refl, refl, refl)
check_quotas-stores (q ∷ qs) a = check_quotas-stores qs (logged (checked q) a)

module _ (w : World) (c : Config) (since : ℕ) (creds : AnthropicCredentials) (new : OauthTokens)
    (quotas : List AnthropicQuota) (h : IsHealthy w since creds new quotas) where
  process_response-Resumed :
      (a : AnthropicAgent) → a.auth_paused ≡ false → Resumed a (process_response w c quotas a)
  unfolding process_response process_stored
  process_response-Resumed a free =
      let snapshot : AnthropicSnapshot = record { captured_at = w.now a.calls; quotas = quotas } in
      let a1 : AnthropicAgent = logged (stored snapshot) (record (called (called a)) {
        auth_fail_count = 0;
        auth_retry_count = 0;
        auth_retry_at = 0;
      }) in
      ground (
        arith,
        h.inserts (suc a.calls),
        check_quotas-stores quotas a1,
        check_quotas-stores quotas (logged (processed snapshot) a1),
      )

  -- The fetch of an agent that is not paused.
  answered-Resumed :
      (r : Result FetchError (List AnthropicQuota)) (a : AnthropicAgent)
      → r ≡ ok quotas
      → a.auth_paused ≡ false
      → Resumed a (respond w c (first_answer w c (r, a)))
  unfolding first_answer
  answered-Resumed (err e) a e' free = cc
  answered-Resumed (ok qs) a e free =
      let same : qs ≡ quotas = cc in rw same (process_response-Resumed (decayed a) free)

  fetch-Resumed :
      (a : AnthropicAgent)
      → a.auth_paused ≡ false
      → Resumed a (respond w c (first_answer w c (fetch_quotas w c a)))
  fetch-Resumed a free =
      answered-Resumed (w.fetch_quotas a.calls a.client_token)
        (called (logged (fetched a.client_token) a)) (h.fetches a.calls a.client_token) free

  -- A refresh that is allowed and succeeds, by an agent that is not in a back-off.
  recovers :
      (a : AnthropicAgent)
      → c.has_creds_refresh ≡ true
      → creds.refresh_token ≢ ""
      → a.rate_limit_paused ≡ false
      → ((try_oauth_recovery w c a).0 ≡ true) × (stores (try_oauth_recovery w c a).1 ≡ stores a)
  unfolding try_oauth_recovery
  recovers a has nonempty no_backoff = ground (
    arith,
    h.enabled a.calls,
    h.not_running (suc a.calls),
    h.has_creds (suc (suc a.calls)),
    h.refreshes (suc (suc (suc a.calls))),
    string_eq.matches_iff creds.refresh_token "",
  )

  paused_recovers :
      (a : AnthropicAgent)
      → c.has_creds_refresh ≡ true
      → creds.refresh_token ≢ ""
      → a.rate_limit_paused ≡ false
      → (a.auth_paused ≡ false) ⊎ ((0 < a.auth_retry_at) × (a.auth_retry_at ≤ since))
      → Resumed a (poll_unless_paused w c a)
  unfolding poll_unless_paused try_paused_auth_recovery
  paused_recovers a has nonempty no_backoff reached =
      let count = suc a.auth_retry_count in
      let a1 : AnthropicAgent = record a {
        auth_retry_count = count;
        auth_retry_at = w.now a.calls + auth_retry_backoff count;
        calls = suc a.calls;
      } in
      let a2 = lift_pause w c (try_oauth_recovery w c a1).1 in
      let got = recovers a1 has nonempty no_backoff in
      ground (arith, h.due a.calls, got, fetch-Resumed a2, fetch-Resumed a)

  -- The re-read of the token may end the pause, and changes nothing else of it.
  reread_token-paused :
      (a : AnthropicAgent)
      → a.rate_limit_paused ≡ false
      → ((reread_token w c a).rate_limit_paused ≡ false)
        × (stores (reread_token w c a) ≡ stores a)
        × (((reread_token w c a).auth_paused ≡ false)
            ⊎ ((reread_token w c a).auth_retry_at ≡ a.auth_retry_at))
  unfolding reread_token
  reread_token-paused a no_backoff = (ground arith, ground arith, ground arith)

  refresh_first-eq : (a : AnthropicAgent) → a.auth_paused ≡ true → refresh_first w c a ≡ a
  unfolding refresh_first
  refresh_first-eq a paused = ground arith

  poll_api-Resumed :
      (a : AnthropicAgent)
      → c.api_polling_disabled ≡ false
      → c.has_creds_refresh ≡ true
      → creds.refresh_token ≢ ""
      → a.rate_limit_paused ≡ false
      → a.auth_paused ≡ true
      → 0 < a.auth_retry_at
      → a.auth_retry_at ≤ since
      → Resumed a (poll_api w c a)
  unfolding poll_api
  poll_api-Resumed a api has nonempty no_backoff paused pos reached =
      ground
        (arith, refresh_first-eq a, reread_token-paused a, paused_recovers (reread_token w c a))

  -- The status line is not configured, or its file is stale throughout.
  poll_enabled-Resumed :
      (a : AnthropicAgent)
      → (c.has_statusline ≡ false) ⊎ ((n : ℕ) → w.statusline_fresh n ≡ false)
      → c.api_polling_disabled ≡ false
      → c.has_creds_refresh ≡ true
      → creds.refresh_token ≢ ""
      → a.rate_limit_paused ≡ false
      → a.auth_paused ≡ true
      → 0 < a.auth_retry_at
      → a.auth_retry_at ≤ since
      → Resumed a (poll_enabled w c a)
  unfolding poll_enabled poll_statusline
  poll_enabled-Resumed a (inl line) api has nonempty no_backoff paused pos reached =
      ground (arith, poll_api-Resumed a)
  poll_enabled-Resumed a (inr stale) api has nonempty no_backoff paused pos reached =
      ground (arith, stale a.calls, poll_api-Resumed a, poll_api-Resumed (called a))

-- A paused agent whose next attempt is due resumes in one poll by itself, with no new stored
-- credentials: if its polling is not switched off, it has no status line or one that is stale
-- throughout the poll, it polls the API, has credentials with a refresh token, and is in no back-off
-- of the OAuth endpoint, and if refreshing is allowed, Claude Code does not run, and the refresh,
-- the fetch and the insert succeed, then after the poll it is not paused, its rejections and its
-- schedule are cleared, and one more snapshot is stored.
pub poll-Resumed :
    (w : World) (c : Config) (a : AnthropicAgent) (creds : AnthropicCredentials) (new : OauthTokens)
    (quotas : List AnthropicQuota)
    → IsHealthy w a.auth_retry_at creds new quotas
    → (c.has_polling_check ≡ false) ⊎ ((n : ℕ) → w.polling_check n ≡ true)
    → (c.has_statusline ≡ false) ⊎ ((n : ℕ) → w.statusline_fresh n ≡ false)
    → c.api_polling_disabled ≡ false
    → c.has_creds_refresh ≡ true
    → creds.refresh_token ≢ ""
    → a.auth_paused ≡ true
    → 0 < a.auth_retry_at
    → a.rate_limit_paused ≡ false
    → Resumed a (poll w c a)
unfolding poll
poll-Resumed w c a creds new quotas h (inl unchecked) line api has nonempty paused pos no_backoff =
    ground (arith, poll_enabled-Resumed w c a.auth_retry_at creds new quotas h a line)
poll-Resumed w c a creds new quotas h (inr on) line api has nonempty paused pos no_backoff =
    ground (
      arith,
      on a.calls,
      poll_enabled-Resumed w c a.auth_retry_at creds new quotas h a line,
      poll_enabled-Resumed w c a.auth_retry_at creds new quotas h (called a) line,
    )
