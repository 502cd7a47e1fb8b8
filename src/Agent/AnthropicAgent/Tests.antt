-- ===== src/Agent/AnthropicAgent/Tests.antt =====
-- Witnesses of the theorems on the Anthropic agent.
use loomwatch.Prelude.{
  ◌+◌, ◌*◌, ◌^◌, ◌≤◌, ◌<◌, ◌≡◌, inr, refl, true, false, none, some, [], ◌∷◌, ok, err, arith, min,
  string_eq,
}
use loomwatch.Tracker.Clock.{minute, hour}
use loomwatch.Tracker.Anthropic.{AnthropicQuota}
use loomwatch.Agent.AnthropicAgent.{
  World, Config, AnthropicAgent, AnthropicCredentials, OauthTokens, unauthorized,
  new_anthropic_agent, rate_limit_backoff, auth_retry_backoff, auto_refresh_tokens_enabled,
  is_expiring_soon,
}
use loomwatch.Agent.AnthropicAgent.Oauth.{try_paused_auth_recovery}
use loomwatch.Agent.AnthropicAgent.Fetch.{first_answer}
use loomwatch.Agent.AnthropicAgent.Poll.{
  poll_statusline, refresh_first, reread_token, process_response, poll_unless_paused, poll_api,
  poll_enabled, poll, polls,
}
use loomwatch.Agent.AnthropicAgent.Backoff.{backoff-eq-min}
use loomwatch.Agent.AnthropicAgent.Scheduled.{polls-IsScheduled}
use loomwatch.Agent.AnthropicAgent.Calls.{poll_spends, poll_spares}
use loomwatch.Agent.AnthropicAgent.Calls.Refreshes.{refreshes, fetches}
use loomwatch.Agent.AnthropicAgent.Recovery.{IsHealthy, Resumed, poll-Resumed}

abbrev both_sides : Config
both_sides = record {
  has_polling_check = false;
  has_token_refresh = true;
  has_creds_refresh = true;
  has_statusline = false;
  api_poll_cycle_interval = 10;
  api_polling_disabled = false;
  has_tracker = true;
  has_notifier = true;
  has_session_manager = true;
}

abbrev stored_creds : AnthropicCredentials
stored_creds = record {
  access_token = "old";
  refresh_token = "r1";
  expires_at = 5 * hour;
  expires_in = 2 * hour;
}

abbrev rotated : OauthTokens
rotated = record { access_token = "new"; refresh_token = "r2" }

abbrev five_hour_quota : AnthropicQuota
five_hour_quota = record { name = "five_hour"; utilization = 12_000; resets_at = none }

-- The stored token is rejected, and Claude Code runs, so that nothing refreshes it.
abbrev rejecting : World
rejecting = record {
  now = λ n. 3 * hour;
  polling_check = λ n. true;
  auto_refresh_setting = λ n. none;
  claude_code_running = λ n. true;
  creds_refresh = λ n. some stored_creds;
  token_refresh = λ n. "old";
  write_credentials = λ n. true;
  refresh_token = λ n t. ok rotated;
  fetch_quotas = λ n t. err unauthorized;
  cancelled = λ n. false;
  insert_snapshot = λ n. true;
  statusline_fresh = λ n. false;
  read_statusline = λ n. none;
}

-- Later, with Claude Code gone and an endpoint that answers.
abbrev recovering : World
recovering = record {
  now = λ n. 4 * hour;
  polling_check = λ n. true;
  auto_refresh_setting = λ n. none;
  claude_code_running = λ n. false;
  creds_refresh = λ n. some stored_creds;
  token_refresh = λ n. "old";
  write_credentials = λ n. true;
  refresh_token = λ n t. ok rotated;
  fetch_quotas = λ n t. ok (five_hour_quota ∷ []);
  cancelled = λ n. false;
  insert_snapshot = λ n. true;
  statusline_fresh = λ n. false;
  read_statusline = λ n. none;
}

abbrev third : AnthropicAgent
third = polls rejecting both_sides 3 (new_anthropic_agent "old")

backoff-eq-min_example :
    (rate_limit_backoff 4 ≡ min ((5 * minute) * 2 ^ 3) (6 * hour))
    × (auth_retry_backoff 4 ≡ min ((15 * minute) * 2 ^ 3) (6 * hour))
backoff-eq-min_example = backoff-eq-min 4 (omega arith)

-- Three rejected polls pause the agent.
third_paused : third.auth_paused ≡ true
unfolding polls poll poll_enabled poll_statusline poll_api refresh_first reread_token
    poll_unless_paused process_response try_paused_auth_recovery first_answer new_anthropic_agent
    is_expiring_soon auto_refresh_tokens_enabled
third_paused = refl

polls-IsScheduled_example : (0 < third.auth_retry_at) × (3 ≤ third.auth_fail_count)
polls-IsScheduled_example = polls-IsScheduled rejecting both_sides 3 "old" third_paused

-- An agent that three rejected polls have paused.
abbrev waiting : AnthropicAgent
waiting = record {
  client_token = "old";
  last_token = "old";
  auth_fail_count = 3;
  auth_paused = true;
  last_failed_token = "old";
  auth_retry_at = 3 * hour + 15 * minute;
  auth_retry_count = 0;
  superseded_token = "";
  rate_limit_fail_count = 0;
  rate_limit_paused = false;
  rate_limit_resume_at = 0;
  poll_cycle_count = 0;
  calls = 30;
  log = [];
}

poll_spends_example :
    (fetches (poll recovering both_sides waiting) ≤ fetches waiting + 3)
    × (refreshes (poll recovering both_sides waiting) ≤ refreshes waiting + 3)
poll_spends_example = poll_spends recovering both_sides waiting

poll_spares_example : refreshes (poll rejecting both_sides waiting) ≤ refreshes waiting
poll_spares_example = poll_spares rejecting both_sides waiting (inr (λ n. refl))

healthy : IsHealthy recovering (3 * hour + 15 * minute) stored_creds rotated (five_hour_quota ∷ [])
unfolding auto_refresh_tokens_enabled
healthy = record {
  due = λ n. omega arith;
  enabled = λ n. refl;
  not_running = λ n. refl;
  has_creds = λ n. refl;
  refreshes = λ n. refl;
  fetches = λ n token. refl;
  inserts = λ n. refl;
}

-- An agent as it is set up: with a polling check, and with a status line whose file is stale.
abbrev set_up : Config
set_up = record both_sides { has_polling_check = true; has_statusline = true }

poll-Resumed_example : Resumed waiting (poll recovering set_up waiting)
poll-Resumed_example =
    poll-Resumed recovering set_up waiting stored_creds rotated (five_hour_quota ∷ []) healthy
      (inr (λ n. refl)) (inr (λ n. refl)) refl refl (ground (arith, string_eq.matches_iff "r1" ""))
      refl (omega arith) refl
