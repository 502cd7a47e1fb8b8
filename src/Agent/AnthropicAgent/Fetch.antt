-- ===== src/Agent/AnthropicAgent/Fetch.antt =====
-- internal/agent/anthropic_agent.go: the fetch of `poll` with its two recoveries, a refreshed token
-- after a 429 and a re-read of the credentials after a 401 or 403. `none` is a return of `poll`.
use loomwatch.Prelude.{
  suc, ◌+◌, ◌-◌, String, Bool, true, false, not, Option, none, some, List, Result, ok, err, ◌==◌,
  string_eq, nat_eq, ltb, leb, if◌then◌else◌,
}
use loomwatch.Tracker.Anthropic.{AnthropicQuota}
use loomwatch.Agent.AnthropicAgent.{
  World, Config, AnthropicAgent, AnthropicCredentials, OauthTokens, OauthError, rate_limited,
  invalid_grant, refresh_failed, FetchError, too_many_requests, unauthorized, forbidden,
  fetch_failed, fetched, called, logged, max_auth_failures, max_rate_limit_failures,
  rate_limit_backoff, auto_refresh_tokens_enabled,
}
use loomwatch.Agent.AnthropicAgent.Oauth.{
  pause_auth, note_rate_limited, note_invalid_grant, refresh_succeeded, refresh_anthropic_token,
  send_auth_error_notification, try_oauth_recovery,
}

-- What the endpoint answered, with the agent after the call.
abbrev pub Answer : Type 0
Answer = Result FetchError (List AnthropicQuota) × AnthropicAgent

-- The quotas that `poll` goes on with, if it goes on.
abbrev pub Fetched : Type 0
Fetched = Option (List AnthropicQuota) × AnthropicAgent

-- `isAuthError`
abbrev pub is_auth_error : FetchError → Bool
is_auth_error unauthorized = true
is_auth_error forbidden = true
is_auth_error too_many_requests = false
is_auth_error fetch_failed = false

-- `if rateLimitFailCount > 0 { rateLimitFailCount-- }`
abbrev pub decayed : AnthropicAgent → AnthropicAgent
decayed a = record a { rate_limit_fail_count = a.rate_limit_fail_count - 1 }

module _ (w : World) (c : Config) where
  -- A call of `client.FetchQuotas`
  abbrev pub fetch_quotas : AnthropicAgent → Answer
  fetch_quotas a =
      (w.fetch_quotas a.calls a.client_token, called (logged (fetched a.client_token) a))

  -- The back-off of the 429 branch: whether it goes on, with a lower count after a back-off.
  unfoldable pub bypass_backoff : AnthropicAgent → Bool × AnthropicAgent
  bypass_backoff a =
      if a.rate_limit_paused
      then if ltb (w.now a.calls) a.rate_limit_resume_at
        then (false, called a)
        else (true, record (decayed (called a)) { rate_limit_paused = false })
      else (true, a)

  -- A refresh that failed in the 429 branch for no known reason.
  unfoldable pub note_transient : AnthropicAgent → AnthropicAgent
  note_transient a =
      let count = suc a.rate_limit_fail_count in
      if leb max_rate_limit_failures count
      then record a {
        rate_limit_fail_count = count;
        rate_limit_paused = true;
        rate_limit_resume_at = w.now a.calls + rate_limit_backoff count;
        calls = suc a.calls;
      }
      else record a { rate_limit_fail_count = count }

  -- The error branches of the refresh in the 429 branch.
  unfoldable pub bypass_failed : OauthError → AnthropicAgent → AnthropicAgent
  unfolding note_rate_limited note_invalid_grant note_transient
  bypass_failed (rate_limited retry_after) a = note_rate_limited w c retry_after a
  bypass_failed invalid_grant a =
      send_auth_error_notification w c "OAuth refresh token expired" (note_invalid_grant w c a)
  bypass_failed refresh_failed a = note_transient a

  -- The retry of the 429 branch: any error ends the poll.
  abbrev pub retried : Answer → Fetched
  retried (ok quotas, a) = (some quotas, a)
  retried (err _, a) = (none, a)

  -- The 429 branch from the answer to the refresh on.
  unfoldable pub bypass_answer :
      AnthropicCredentials → Result OauthError OauthTokens × AnthropicAgent → Fetched
  unfolding bypass_failed refresh_succeeded
  bypass_answer creds (err e, a) = (none, bypass_failed e a)
  bypass_answer creds (ok new, a) =
      retried (fetch_quotas (refresh_succeeded w c new creds.access_token a))

  -- The 429 branch from the credentials on.
  unfoldable pub bypass_with : Option AnthropicCredentials → AnthropicAgent → Fetched
  unfolding bypass_answer
  bypass_with none a = (none, a)
  bypass_with (some creds) a =
      if creds.refresh_token == ""
      then (none, a)
      else bypass_answer creds (refresh_anthropic_token w c creds.refresh_token a)

  -- The guards of the 429 branch that follow its back-off.
  unfoldable pub bypass_guarded : AnthropicAgent → Fetched
  unfolding bypass_with
  bypass_guarded a =
      if not (auto_refresh_tokens_enabled (w.auto_refresh_setting a.calls))
      then (none, called a)
      else if w.claude_code_running (suc a.calls)
      then (none, called (called a))
      else if c.has_creds_refresh
      then bypass_with (w.creds_refresh (suc (suc a.calls))) (called (called (called a)))
      else (none, called (called a))

  -- The 429 branch
  unfoldable pub bypass : AnthropicAgent → Fetched
  unfolding bypass_backoff bypass_guarded
  bypass a =
      let (goes_on, a1) = bypass_backoff a in if goes_on then bypass_guarded a1 else (none, a1)

  -- The pause after repeated rejections, unless the refresh has paused the agent already.
  unfoldable pub pause_repeated : String → AnthropicAgent → Fetched
  unfolding pause_auth
  pause_repeated token a = if a.auth_paused then (none, a) else (
    none,
    send_auth_error_notification w c "Anthropic polling paused" (pause_auth w c token a),
  )

  -- The fetch after an OAuth recovery.
  unfoldable pub after_recovery : String → Answer → Fetched
  unfolding pause_repeated
  after_recovery token (ok quotas, a) =
      (some quotas, record a { auth_fail_count = 0; last_failed_token = "" })
  after_recovery token (err _, a) =
      if w.cancelled a.calls then (none, called a) else pause_repeated token (called a)

  -- A rejected retry is counted; at the limit one recovery is tried, and the agent pauses.
  unfoldable pub auth_failed : String → AnthropicAgent → Fetched
  unfolding try_oauth_recovery after_recovery pause_repeated
  auth_failed token a =
      let a1 : AnthropicAgent = record a { auth_fail_count = suc a.auth_fail_count } in
      if leb max_auth_failures a1.auth_fail_count
      then (let (got, a2) = try_oauth_recovery w c a1 in
          if got then after_recovery token (fetch_quotas a2) else pause_repeated token a2)
      else (none, a1)

  -- The retry of the 401/403 branch, with the token read again.
  unfoldable pub auth_retried : String → Answer → Fetched
  unfolding auth_failed
  auth_retried token (ok quotas, a) = (some quotas, record a { auth_fail_count = 0 })
  auth_retried token (err e, a) =
      if w.cancelled a.calls
      then (none, called a)
      else if is_auth_error e
      then auth_failed token (called a)
      else (none, called a)

  -- The 401/403 branch
  unfoldable pub auth_retry : AnthropicAgent → Fetched
  unfolding auth_retried
  auth_retry a =
      if c.has_token_refresh
      then (let token = w.token_refresh a.calls in
          let a1 : AnthropicAgent = record (called a) { last_token = "" } in
          if token == ""
          then (none, a1)
          else auth_retried token
              (fetch_quotas (record a1 { client_token = token; last_token = token })))
      else (none, a)

  -- The branches on the first error.
  unfoldable pub fetch_error : FetchError → AnthropicAgent → Fetched
  unfolding bypass auth_retry
  fetch_error too_many_requests a = bypass a
  fetch_error unauthorized a = auth_retry a
  fetch_error forbidden a = auth_retry a
  fetch_error fetch_failed a = (none, a)

  -- The first fetch: a success lowers the count of the back-off.
  unfoldable pub first_answer : Answer → Fetched
  unfolding fetch_error
  first_answer (ok quotas, a) = (some quotas, decayed a)
  first_answer (err e, a) =
      if w.cancelled a.calls then (none, called a) else fetch_error e (called a)
