-- ===== src/Agent/AnthropicAgent/Poll.antt =====
-- internal/agent/anthropic_agent.go: `poll`, and what happens with a response.
use loomwatch.Prelude.{
  ℕ, zero, suc, ◌%◌, String, Bool, true, false, not, ◌&&◌, Option, none, some, List, [], ◌∷◌, ◌==◌,
  string_eq, nat_eq, ltb, if◌then◌else◌,
}
use loomwatch.Tracker.Anthropic.{AnthropicQuota, AnthropicSnapshot}
use loomwatch.Agent.AnthropicAgent.{
  World, Config, AnthropicAgent, AnthropicCredentials, is_expiring_soon, token_refresh_threshold,
  stored, processed, checked, reported, called, logged,
}
use loomwatch.Agent.AnthropicAgent.Statusline.{
  StatuslineRateLimits, is_valid_statusline_data, statusline_to_snapshot,
}
use loomwatch.Agent.AnthropicAgent.Oauth.{resume_auth, proactive_refresh, try_paused_auth_recovery}
use loomwatch.Agent.AnthropicAgent.Fetch.{decayed, fetch_quotas, first_answer, Fetched}

-- `quotaMap[name]` after the loop over the quotas, in which a later quota overwrites.
abbrev quota_value : String → List AnthropicQuota → ℕ → ℕ
quota_value name [] found = found
quota_value name (q ∷ qs) found =
    quota_value name qs (if q.name == name then q.utilization else found)

-- The values that the session manager gets, in the order of its columns.
unfoldable pub session_values : List AnthropicQuota → List ℕ
session_values qs =
    quota_value "five_hour" qs 0
    ∷ quota_value "seven_day" qs 0
    ∷ quota_value "seven_day_sonnet" qs 0
    ∷ []

-- The loop over the quotas that calls `notifier.Check`.
unfoldable pub check_quotas : List AnthropicQuota → AnthropicAgent → AnthropicAgent
check_quotas [] a = a
check_quotas (q ∷ qs) a = check_quotas qs (logged (checked q) a)

module _ (w : World) (c : Config) where
  -- What follows `processResponse`, once the snapshot is stored.
  unfoldable pub process_stored : AnthropicSnapshot → AnthropicAgent → AnthropicAgent
  unfolding check_quotas
  process_stored snapshot a =
      let a1 = if c.has_tracker then logged (processed snapshot) a else a in
      let a2 = if c.has_notifier then check_quotas snapshot.quotas a1 else a1 in
      if c.has_session_manager then logged (reported (session_values snapshot.quotas)) a2 else a2

  -- `processResponse`, with the quotas of the response.
  unfoldable pub process_response : List AnthropicQuota → AnthropicAgent → AnthropicAgent
  unfolding process_stored
  process_response quotas a =
      let a1 : AnthropicAgent = record (called (called a)) {
        auth_fail_count = 0;
        auth_retry_count = 0;
        auth_retry_at = 0;
      } in
      let snapshot : AnthropicSnapshot = record { captured_at = w.now a.calls; quotas = quotas } in
      if w.insert_snapshot (suc a.calls)
      then process_stored snapshot (logged (stored snapshot) a1)
      else a1

  -- The status line branch, with data that passed the check; true goes on to the API.
  unfoldable pub statusline_poll : StatuslineRateLimits → AnthropicAgent → Bool × AnthropicAgent
  statusline_poll rl a =
      let snapshot = statusline_to_snapshot rl (w.now a.calls) in
      if w.insert_snapshot (suc a.calls)
      then (let a1 = logged (stored snapshot) (called (called a)) in
          let a2 = if c.has_tracker then logged (processed snapshot) a1 else a1 in
          let count = suc a.poll_cycle_count in
          (
            ltb 0 c.api_poll_cycle_interval && count % c.api_poll_cycle_interval == 0,
            record (decayed a2) { poll_cycle_count = count },
          ))
      else (false, called (called a))

  -- The status line branch, with what was read; `none` is an error.
  unfoldable pub statusline_read :
      Option (Option StatuslineRateLimits) → AnthropicAgent → Bool × AnthropicAgent
  unfolding statusline_poll
  statusline_read none a = (true, a)
  statusline_read (some none) a = (true, a)
  statusline_read (some (some rl)) a =
      if not (is_valid_statusline_data (some rl)) then (true, a) else statusline_poll rl a

  -- The status line branch
  unfoldable pub poll_statusline : AnthropicAgent → Bool × AnthropicAgent
  unfolding statusline_read
  poll_statusline a =
      if c.has_statusline
      then if w.statusline_fresh a.calls
        then statusline_read (w.read_statusline (suc a.calls)) (called (called a))
        else (true, called a)
      else (true, a)

  -- The proactive refresh of `poll`, with what `credsRefresh` returned.
  unfoldable pub refresh_expiring : Option AnthropicCredentials → AnthropicAgent → AnthropicAgent
  unfolding proactive_refresh
  refresh_expiring none a = a
  refresh_expiring (some creds) a =
      if is_expiring_soon token_refresh_threshold creds && not (creds.refresh_token == "")
      then proactive_refresh w c creds a
      else a

  -- A new token from the stored credentials: installed, and an end of pause and back-off.
  unfoldable pub install_token : String → AnthropicAgent → AnthropicAgent
  install_token token a =
      let a1 : AnthropicAgent = record a { client_token = token; last_token = token } in
      let a2 : AnthropicAgent =
        if a1.auth_paused && not (token == a1.last_failed_token) then resume_auth w c a1 else a1 in
      if a2.rate_limit_paused
      then record a2 {
        rate_limit_paused = false;
        rate_limit_fail_count = 0;
        rate_limit_resume_at = 0;
      }
      else a2

  -- The token that the re-read goes on with: not one that a refresh has superseded.
  abbrev pub current_token : String → AnthropicAgent → String
  current_token token a =
      if not (token == "") && token == a.superseded_token then a.last_token else token

  -- The re-read of the stored credentials before a poll.
  unfoldable pub reread_token : AnthropicAgent → AnthropicAgent
  unfolding install_token
  reread_token a =
      if c.has_token_refresh
      then (let token = current_token (w.token_refresh a.calls) a in
          if not (token == "") && not (token == a.last_token)
          then install_token token (called a)
          else called a)
      else a

  -- `poll` from the fetch on.
  abbrev pub respond : Fetched → AnthropicAgent
  respond (none, a) = a
  respond (some quotas, a) = process_response quotas a

  -- The API path of `poll` from the pause on.
  unfoldable pub poll_unless_paused : AnthropicAgent → AnthropicAgent
  poll_unless_paused a =
      if a.auth_paused
      then (let (got, a1) = try_paused_auth_recovery w c a in
          if got then respond (first_answer w c (fetch_quotas w c a1)) else a1)
      else respond (first_answer w c (fetch_quotas w c a))

  -- The proactive refresh, which a pause suspends.
  unfoldable pub refresh_first : AnthropicAgent → AnthropicAgent
  unfolding refresh_expiring
  refresh_first a =
      if c.has_creds_refresh && not a.auth_paused
      then refresh_expiring (w.creds_refresh a.calls) (called a)
      else a

  -- The API path of `poll`
  unfoldable pub poll_api : AnthropicAgent → AnthropicAgent
  poll_api a =
      if c.api_polling_disabled then a else poll_unless_paused (reread_token (refresh_first a))

  -- `poll` once the provider is known to be polled.
  unfoldable pub poll_enabled : AnthropicAgent → AnthropicAgent
  poll_enabled a = let (goes_on, a1) = poll_statusline a in if goes_on then poll_api a1 else a1

  -- `poll`
  unfoldable pub poll : AnthropicAgent → AnthropicAgent
  poll a =
      if c.has_polling_check
      then if w.polling_check a.calls then poll_enabled (called a) else called a
      else poll_enabled a

  -- The polls of `Run`: one at the start and one for each tick.
  unfoldable pub polls : ℕ → AnthropicAgent → AnthropicAgent
  polls zero a = a
  polls (suc n) a = polls n (poll a)
