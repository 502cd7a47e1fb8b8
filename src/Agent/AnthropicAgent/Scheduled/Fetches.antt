-- ===== src/Agent/AnthropicAgent/Scheduled/Fetches.antt =====
-- internal/agent/anthropic_agent.go: the fetches of `poll` and the pause.
use loomwatch.Prelude.{
  suc, ◌≤◌, ◌≡◌, ◌⊎◌, inl, refl, String, false, Option, none, some, List, Result, ok, err, arith,
  string_eq, nat_eq,
}
use loomwatch.Tracker.Anthropic.{AnthropicQuota}
use loomwatch.Agent.AnthropicAgent.{
  World, Config, AnthropicAgent, AnthropicCredentials, OauthTokens, OauthError, rate_limited,
  invalid_grant, refresh_failed, FetchError, too_many_requests, unauthorized, forbidden,
  fetch_failed, called, logged, refreshed, fetched,
}
use loomwatch.Agent.AnthropicAgent.Oauth.{refresh_succeeded, try_oauth_recovery}
use loomwatch.Agent.AnthropicAgent.Fetch.{
  Fetched, bypass_failed, retried, bypass_answer, bypass_with, bypass_backoff, bypass,
  pause_repeated, after_recovery, auth_failed, auth_retried, auth_retry, fetch_error, first_answer,
}
use loomwatch.Agent.AnthropicAgent.Scheduled.Refreshes.{IsScheduled, try_oauth_recovery-Recovers}

-- The fetches start from an agent that is not paused, and go on only with one.
abbrev pub Passes : Fetched → Type 0
Passes r = IsScheduled r.1 × ((r.0 ≡ none) ⊎ (r.1.auth_paused ≡ false))

module _ (w : World) (c : Config) where
  bypass_failed-IsScheduled :
      (e : OauthError) (a : AnthropicAgent) → IsScheduled a → IsScheduled (bypass_failed w c e a)
  unfolding bypass_failed
  bypass_failed-IsScheduled (rate_limited n) a h = ground arith
  bypass_failed-IsScheduled invalid_grant a h = ground arith
  bypass_failed-IsScheduled refresh_failed a h = ground arith

  retried-Passes :
      (r : Result FetchError (List AnthropicQuota)) (a : AnthropicAgent)
      → a.auth_paused ≡ false
      → Passes (retried w c (r, a))
  retried-Passes (ok quotas) a h = ground arith
  retried-Passes (err e) a h = ground arith

  bypass_answer-Passes :
      (creds : AnthropicCredentials) (r : Result OauthError OauthTokens) (a : AnthropicAgent)
      → a.auth_paused ≡ false
      → Passes (bypass_answer w c creds (r, a))
  unfolding bypass_answer
  bypass_answer-Passes creds (ok new) a h =
      let a1 = refresh_succeeded w c new creds.access_token a in
      retried-Passes (w.fetch_quotas a1.calls a1.client_token)
        (called (logged (fetched a1.client_token) a1)) h
  bypass_answer-Passes creds (err e) a h = (bypass_failed-IsScheduled e a (inl h), inl refl)

  bypass_with-Passes :
      (creds : Option AnthropicCredentials) (a : AnthropicAgent)
      → a.auth_paused ≡ false
      → Passes (bypass_with w c creds a)
  unfolding bypass_with
  bypass_with-Passes none a h = ground arith
  bypass_with-Passes (some creds) a h = ground (
    arith,
    bypass_answer-Passes creds (w.refresh_token a.calls creds.refresh_token)
        (called (logged (refreshed creds.refresh_token) a)),
  )

  pub bypass-Passes : (a : AnthropicAgent) → a.auth_paused ≡ false → Passes (bypass w c a)
  unfolding bypass
  bypass-Passes a h =
      let a1 = called (called (called (bypass_backoff w c a).1)) in
      ground
        (arith, bypass_with-Passes (w.creds_refresh (suc (suc (bypass_backoff w c a).1.calls))) a1)

  pause_repeated-Passes :
      (token : String) (a : AnthropicAgent)
      → IsScheduled a
      → 3 ≤ a.auth_fail_count
      → Passes (pause_repeated w c token a)
  unfolding pause_repeated
  pause_repeated-Passes token a h k = ground arith

  after_recovery-Passes :
      (token : String) (r : Result FetchError (List AnthropicQuota)) (a : AnthropicAgent)
      → a.auth_paused ≡ false
      → 3 ≤ a.auth_fail_count
      → Passes (after_recovery w c token (r, a))
  unfolding after_recovery
  after_recovery-Passes token (ok quotas) a h k = ground arith
  after_recovery-Passes token (err e) a h k = ground (arith, pause_repeated-Passes token (called a))

  auth_failed-Passes :
      (token : String) (a : AnthropicAgent)
      → a.auth_paused ≡ false
      → Passes (auth_failed w c token a)
  unfolding auth_failed
  auth_failed-Passes token a h =
      let a1 : AnthropicAgent = record a { auth_fail_count = suc a.auth_fail_count } in
      let a2 = (try_oauth_recovery w c a1).1 in
      ground (
        arith,
        try_oauth_recovery-Recovers w c a1,
        after_recovery-Passes token (w.fetch_quotas a2.calls a2.client_token)
            (called (logged (fetched a2.client_token) a2)),
        pause_repeated-Passes token a2,
      )

  auth_retried-Passes :
      (token : String) (r : Result FetchError (List AnthropicQuota)) (a : AnthropicAgent)
      → a.auth_paused ≡ false
      → Passes (auth_retried w c token (r, a))
  unfolding auth_retried
  auth_retried-Passes token (ok quotas) a h = ground arith
  auth_retried-Passes token (err e) a h = ground (arith, auth_failed-Passes token (called a))

  auth_retry-Passes : (a : AnthropicAgent) → a.auth_paused ≡ false → Passes (auth_retry w c a)
  unfolding auth_retry
  auth_retry-Passes a h =
      let token = w.token_refresh a.calls in
      let a1 : AnthropicAgent = record (called a) { client_token = token; last_token = token } in
      ground (
        arith,
        auth_retried-Passes token (w.fetch_quotas a1.calls token)
            (called (logged (fetched token) a1)),
      )

  fetch_error-Passes :
      (e : FetchError) (a : AnthropicAgent) → a.auth_paused ≡ false → Passes (fetch_error w c e a)
  unfolding fetch_error
  fetch_error-Passes too_many_requests a h = bypass-Passes a h
  fetch_error-Passes unauthorized a h = auth_retry-Passes a h
  fetch_error-Passes forbidden a h = auth_retry-Passes a h
  fetch_error-Passes fetch_failed a h = ground arith

  pub first_answer-Passes :
      (r : Result FetchError (List AnthropicQuota)) (a : AnthropicAgent)
      → a.auth_paused ≡ false
      → Passes (first_answer w c (r, a))
  unfolding first_answer
  first_answer-Passes (ok quotas) a h = ground arith
  first_answer-Passes (err e) a h = ground (arith, fetch_error-Passes e (called a))
