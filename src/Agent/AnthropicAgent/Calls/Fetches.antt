-- ===== src/Agent/AnthropicAgent/Calls/Fetches.antt =====
-- internal/agent/anthropic_agent.go: the calls of the two endpoints in the fetches of `poll`, counted.
use loomwatch.Prelude.{
  ℕ, suc, String, Option, none, some, List, Result, ok, err, arith, string_eq, nat_eq,
}
use loomwatch.Tracker.Anthropic.{AnthropicQuota}
use loomwatch.Agent.AnthropicAgent.{
  World, Config, AnthropicAgent, AnthropicCredentials, OauthTokens, OauthError, rate_limited,
  invalid_grant, refresh_failed, FetchError, too_many_requests, unauthorized, forbidden,
  fetch_failed, called, logged, fetched, refreshed,
}
use loomwatch.Agent.AnthropicAgent.Oauth.{refresh_succeeded, try_oauth_recovery}
use loomwatch.Agent.AnthropicAgent.Fetch.{
  bypass_failed, retried, bypass_answer, bypass_with, bypass_backoff, bypass_guarded, bypass,
  pause_repeated, after_recovery, auth_failed, auth_retried, auth_retry, fetch_error, first_answer,
  fetch_quotas,
}
use loomwatch.Agent.AnthropicAgent.Calls.Refreshes.{Spends, Allows, try_oauth_recovery-Spends}

module _ (w : World) (c : Config) (u : ℕ) (allows : Allows w u) where
  bypass_failed-Spends :
      (e : OauthError) (a : AnthropicAgent) → Spends 0 0 a (bypass_failed w c e a)
  unfolding bypass_failed
  bypass_failed-Spends (rate_limited n) a = ground arith
  bypass_failed-Spends invalid_grant a = ground arith
  bypass_failed-Spends refresh_failed a = ground arith

  retried-Spends :
      (r : Result FetchError (List AnthropicQuota)) (a : AnthropicAgent)
      → Spends 0 0 a (retried w c (r, a)).1
  retried-Spends (ok quotas) a = ground arith
  retried-Spends (err e) a = ground arith

  bypass_answer-Spends :
      (creds : AnthropicCredentials) (r : Result OauthError OauthTokens) (a : AnthropicAgent)
      → Spends 0 1 a (bypass_answer w c creds (r, a)).1
  unfolding bypass_answer
  bypass_answer-Spends creds (ok new) a =
      let a1 = refresh_succeeded w c new creds.access_token a in
      ground (
        arith,
        retried-Spends (w.fetch_quotas a1.calls a1.client_token)
            (called (logged (fetched a1.client_token) a1)),
      )
  bypass_answer-Spends creds (err e) a = ground (arith, bypass_failed-Spends e a)

  bypass_with-Spends :
      (creds : Option AnthropicCredentials) (a : AnthropicAgent)
      → Spends 1 1 a (bypass_with w c creds a).1
  unfolding bypass_with
  bypass_with-Spends none a = ground arith
  bypass_with-Spends (some creds) a =
      let a1 = called (logged (refreshed creds.refresh_token) a) in
      ground (arith, bypass_answer-Spends creds (w.refresh_token a.calls creds.refresh_token) a1)

  bypass_guarded-Spends : (a : AnthropicAgent) → Spends u 1 a (bypass_guarded w c a).1
  unfolding bypass_guarded
  bypass_guarded-Spends a = ground (
    arith,
    allows a.calls (suc a.calls),
    bypass_with-Spends (w.creds_refresh (suc (suc a.calls))) (called (called (called a))),
  )

  bypass-Spends : (a : AnthropicAgent) → Spends u 1 a (bypass w c a).1
  unfolding bypass
  bypass-Spends a = ground (arith, bypass_guarded-Spends (bypass_backoff w c a).1)

  pause_repeated-Spends :
      (token : String) (a : AnthropicAgent) → Spends 0 0 a (pause_repeated w c token a).1
  unfolding pause_repeated
  pause_repeated-Spends token a = ground arith

  after_recovery-Spends :
      (token : String) (r : Result FetchError (List AnthropicQuota)) (a : AnthropicAgent)
      → Spends 0 0 a (after_recovery w c token (r, a)).1
  unfolding after_recovery
  after_recovery-Spends token (ok quotas) a = ground arith
  after_recovery-Spends token (err e) a = ground (arith, pause_repeated-Spends token (called a))

  auth_failed-Spends :
      (token : String) (a : AnthropicAgent) → Spends u 1 a (auth_failed w c token a).1
  unfolding auth_failed
  auth_failed-Spends token a =
      let a1 : AnthropicAgent = record a { auth_fail_count = suc a.auth_fail_count } in
      let a2 = (try_oauth_recovery w c a1).1 in
      ground (
        arith,
        try_oauth_recovery-Spends w c u allows a1,
        after_recovery-Spends token (w.fetch_quotas a2.calls a2.client_token)
            (called (logged (fetched a2.client_token) a2)),
        pause_repeated-Spends token a2,
      )

  auth_retried-Spends :
      (token : String) (r : Result FetchError (List AnthropicQuota)) (a : AnthropicAgent)
      → Spends u 1 a (auth_retried w c token (r, a)).1
  unfolding auth_retried
  auth_retried-Spends token (ok quotas) a = ground arith
  auth_retried-Spends token (err e) a = ground (arith, auth_failed-Spends token (called a))

  auth_retry-Spends : (a : AnthropicAgent) → Spends u 2 a (auth_retry w c a).1
  unfolding auth_retry
  auth_retry-Spends a =
      let token = w.token_refresh a.calls in
      let a1 : AnthropicAgent = record (called a) { client_token = token; last_token = token } in
      ground (
        arith,
        auth_retried-Spends token (w.fetch_quotas a1.calls token)
            (called (logged (fetched token) a1)),
      )

  fetch_error-Spends : (e : FetchError) (a : AnthropicAgent) → Spends u 2 a (fetch_error w c e a).1
  unfolding fetch_error
  fetch_error-Spends too_many_requests a = ground (arith, bypass-Spends a)
  fetch_error-Spends unauthorized a = auth_retry-Spends a
  fetch_error-Spends forbidden a = auth_retry-Spends a
  fetch_error-Spends fetch_failed a = ground arith

  first_answer-Spends :
      (r : Result FetchError (List AnthropicQuota)) (a : AnthropicAgent)
      → Spends u 2 a (first_answer w c (r, a)).1
  unfolding first_answer
  first_answer-Spends (ok quotas) a = ground arith
  first_answer-Spends (err e) a = ground (arith, fetch_error-Spends e (called a))

  -- The first fetch with all that follows it.
  pub fetch-Spends : (a : AnthropicAgent) → Spends u 3 a (first_answer w c (fetch_quotas w c a)).1
  fetch-Spends a = ground (
    arith,
    first_answer-Spends (w.fetch_quotas a.calls a.client_token)
        (called (logged (fetched a.client_token) a)),
  )
