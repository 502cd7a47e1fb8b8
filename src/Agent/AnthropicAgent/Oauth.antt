-- ===== src/Agent/AnthropicAgent/Oauth.antt =====
-- internal/agent/anthropic_agent.go: refreshing the OAuth token, before it expires and to recover
-- from rejected tokens, and the pause that ends it.
use loomwatch.Prelude.{
  ℕ, suc, ◌+◌, String, Bool, true, false, not, ◌&&◌, Option, none, some, Result, ok, err, ◌==◌,
  string_eq, nat_eq, ltb, if◌then◌else◌,
}
use loomwatch.Agent.AnthropicAgent.{
  World, Config, AnthropicAgent, AnthropicCredentials, OauthTokens, OauthError, rate_limited,
  invalid_grant, refresh_failed, refreshed, auth_error, called, logged, max_auth_failures,
  auth_paused_retry_interval, rate_limit_backoff, auth_retry_backoff, auto_refresh_tokens_enabled,
}

module _ (w : World) (c : Config) where
  -- `sendAuthErrorNotification`
  abbrev pub send_auth_error_notification : String → AnthropicAgent → AnthropicAgent
  send_auth_error_notification title a = if c.has_notifier then logged (auth_error title) a else a

  -- `pauseAuth`
  unfoldable pub pause_auth : String → AnthropicAgent → AnthropicAgent
  pause_auth failed a =
      if a.auth_retry_at == 0
      then record a {
        auth_paused = true;
        last_failed_token = failed;
        auth_retry_at = w.now a.calls + auth_paused_retry_interval;
        calls = suc a.calls;
      }
      else record a { auth_paused = true; last_failed_token = failed }

  -- `resumeAuth`
  abbrev pub resume_auth : AnthropicAgent → AnthropicAgent
  resume_auth a = record a {
    auth_paused = false;
    auth_fail_count = 0;
    last_failed_token = "";
    auth_retry_at = 0;
    auth_retry_count = 0;
  }

  -- `applyRefreshedTokens`
  unfoldable pub apply_refreshed_tokens : OauthTokens → String → AnthropicAgent → AnthropicAgent
  apply_refreshed_tokens new superseded a = record a {
    superseded_token = if w.write_credentials a.calls then "" else superseded;
    client_token = new.access_token;
    last_token = new.access_token;
    calls = suc a.calls;
  }

  -- The back-off after a 429 of the OAuth endpoint: its `Retry-After`, if it sent one.
  unfoldable pub note_rate_limited : ℕ → AnthropicAgent → AnthropicAgent
  note_rate_limited retry_after a =
      let count = suc a.rate_limit_fail_count in
      let backoff = if retry_after == 0 then rate_limit_backoff count else retry_after in
      record a {
        rate_limit_fail_count = count;
        rate_limit_paused = true;
        rate_limit_resume_at = w.now a.calls + backoff;
        calls = suc a.calls;
      }

  -- The pause after `invalid_grant`.
  unfoldable pub note_invalid_grant : AnthropicAgent → AnthropicAgent
  unfolding pause_auth
  note_invalid_grant a = pause_auth a.last_token (record a { auth_fail_count = max_auth_failures })

  -- `noteOAuthRefreshFailure`
  unfoldable pub note_oauth_refresh_failure : OauthError → AnthropicAgent → AnthropicAgent
  unfolding note_rate_limited note_invalid_grant
  note_oauth_refresh_failure (rate_limited retry_after) a = note_rate_limited retry_after a
  note_oauth_refresh_failure invalid_grant a =
      send_auth_error_notification "OAuth refresh token expired" (note_invalid_grant a)
  note_oauth_refresh_failure refresh_failed a = a

  -- A call of `RefreshAnthropicToken`, which uses up the refresh token.
  abbrev pub refresh_anthropic_token :
      String → AnthropicAgent → Result OauthError OauthTokens × AnthropicAgent
  refresh_anthropic_token token a =
      (w.refresh_token a.calls token, called (logged (refreshed token) a))

  -- The end of the back-off and the new tokens, after a refresh that succeeded.
  unfoldable pub refresh_succeeded : OauthTokens → String → AnthropicAgent → AnthropicAgent
  unfolding apply_refreshed_tokens
  refresh_succeeded new superseded a =
      apply_refreshed_tokens new superseded (record a {
        rate_limit_fail_count = 0;
        rate_limit_paused = false;
        rate_limit_resume_at = 0;
      })

  -- `a.rateLimitPaused && time.Now().Before(a.rateLimitResumeAt)`
  abbrev pub in_backoff : AnthropicAgent → Bool × AnthropicAgent
  in_backoff a =
      if a.rate_limit_paused
      then (ltb (w.now a.calls) a.rate_limit_resume_at, called a)
      else (false, a)

  -- The guards of a refresh: allowed by the settings, no Claude Code running, no back-off.
  unfoldable pub refresh_guards : AnthropicAgent → Bool × AnthropicAgent
  refresh_guards a =
      if not (auto_refresh_tokens_enabled (w.auto_refresh_setting a.calls))
      then (false, called a)
      else if w.claude_code_running (suc a.calls)
      then (false, called (called a))
      else (let (waits, a') = in_backoff (called (called a)) in (not waits, a'))

  -- The refresh of `tryOAuthRecovery`, with what the endpoint answered.
  unfoldable pub recovered :
      AnthropicCredentials → Result OauthError OauthTokens × AnthropicAgent → Bool × AnthropicAgent
  unfolding note_oauth_refresh_failure refresh_succeeded
  recovered creds (err e, a) = (false, note_oauth_refresh_failure e a)
  recovered creds (ok new, a) = (true, refresh_succeeded new creds.access_token a)

  -- `tryOAuthRecovery`, from the credentials on.
  unfoldable pub recover_with : Option AnthropicCredentials → AnthropicAgent → Bool × AnthropicAgent
  unfolding recovered
  recover_with none a = (false, a)
  recover_with (some creds) a =
      if creds.refresh_token == ""
      then (false, a)
      else recovered creds (refresh_anthropic_token creds.refresh_token a)

  -- `tryOAuthRecovery`
  unfoldable pub try_oauth_recovery : AnthropicAgent → Bool × AnthropicAgent
  unfolding refresh_guards recover_with
  try_oauth_recovery a =
      if not c.has_creds_refresh
      then (false, a)
      else (let (allowed, a1) = refresh_guards a in
          if allowed then recover_with (w.creds_refresh a1.calls) (called a1) else (false, a1))

  -- The end of `tryPausedAuthRecovery`: the schedule outlives the pause.
  abbrev pub lift_pause : AnthropicAgent → AnthropicAgent
  lift_pause a = record (resume_auth a) {
    auth_retry_at = a.auth_retry_at;
    auth_retry_count = a.auth_retry_count;
  }

  -- `tryPausedAuthRecovery`
  unfoldable pub try_paused_auth_recovery : AnthropicAgent → Bool × AnthropicAgent
  unfolding try_oauth_recovery
  try_paused_auth_recovery a =
      let now = w.now a.calls in
      if a.auth_retry_at == 0
      then (false, called a)
      else if ltb now a.auth_retry_at
      then (false, called a)
      else (let count = suc a.auth_retry_count in
          let (got, a1) = try_oauth_recovery (record a {
            auth_retry_count = count;
            auth_retry_at = now + auth_retry_backoff count;
            calls = suc a.calls;
          }) in
          if got then (true, lift_pause a1) else (false, a1))

  -- The error branches of `proactiveRefresh`.
  unfoldable pub proactive_failed : OauthError → AnthropicAgent → AnthropicAgent
  unfolding note_rate_limited note_invalid_grant
  proactive_failed (rate_limited retry_after) a = note_rate_limited retry_after a
  proactive_failed invalid_grant a = note_invalid_grant a
  proactive_failed refresh_failed a = a

  -- `proactiveRefresh`, from the answer of the endpoint on.
  unfoldable pub proactive_answer :
      AnthropicCredentials → Result OauthError OauthTokens × AnthropicAgent → AnthropicAgent
  unfolding proactive_failed refresh_succeeded
  proactive_answer creds (err e, a) = proactive_failed e a
  proactive_answer creds (ok new, a) =
      let a1 = refresh_succeeded new creds.access_token a in
      if a1.auth_paused then resume_auth a1 else a1

  -- The rest of the guards of `proactiveRefresh`, which follow the one of superseded credentials.
  abbrev pub running_guards : AnthropicAgent → Bool × AnthropicAgent
  running_guards a =
      if w.claude_code_running a.calls
      then (false, called a)
      else (let (waits, a') = in_backoff (called a) in (not waits, a'))

  -- `proactiveRefresh`
  unfoldable pub proactive_refresh : AnthropicCredentials → AnthropicAgent → AnthropicAgent
  unfolding proactive_answer
  proactive_refresh creds a =
      if not (auto_refresh_tokens_enabled (w.auto_refresh_setting a.calls))
      then called a
      else if not (creds.access_token == "") && creds.access_token == a.superseded_token
      then called a
      else (let (allowed, a1) = running_guards (called a) in
          if allowed
          then proactive_answer creds (refresh_anthropic_token creds.refresh_token a1)
          else a1)
