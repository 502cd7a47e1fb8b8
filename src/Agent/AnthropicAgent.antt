-- ===== src/Agent/AnthropicAgent.antt =====
-- internal/agent/anthropic_agent.go: the polling agent of Anthropic, with its recovery from
-- rejected tokens and its back-off from a rate-limited OAuth endpoint. What the agent asks of its
-- surroundings (the clock, the stored credentials, the processes, both endpoints, the database) is
-- a `World`: an answer for the n-th call that the agent makes, so that answers may change from one
-- call to the next. What it does to its surroundings is kept in a log. Durations and times are in
-- nanoseconds, 0 is the zero time.
pub mod Statusline
pub mod Oauth
pub mod Fetch
pub mod Poll
pub mod Backoff
pub mod Scheduled
pub mod Calls
pub mod Recovery
mod Tests
use loomwatch.Prelude.{
  ℕ, zero, suc, ◌+◌, ◌-◌, ◌*◌, ◌^◌, String, Bool, true, false, not, ◌||◌, Option, none, some, List,
  [], ◌∷◌, Result, ok, err, ◌==◌, string_eq, nat_eq, ltb, if◌then◌else◌, trim_space, to_lower,
}
use loomwatch.Tracker.Clock.{minute, hour}
use loomwatch.Tracker.Anthropic.{AnthropicQuota, AnthropicSnapshot}
use loomwatch.Agent.AnthropicAgent.Statusline.{StatuslineRateLimits}

-- What `FetchQuotas` may return, as `poll` tells errors apart.
pub data FetchError : Type 0 where
  too_many_requests unauthorized forbidden fetch_failed : FetchError

-- What `RefreshAnthropicToken` may return; `rate_limited` has the value of `RetryAfter`.
pub data OauthError : Type 0 where
  rate_limited : ℕ → OauthError
  invalid_grant refresh_failed : OauthError

pub record OauthTokens : Type 0 where
  pub access_token : String
  pub refresh_token : String

-- `type AnthropicCredentials struct`, less what the agent does not read. `expires_in` is 0 for a
-- token that has expired.
pub record AnthropicCredentials : Type 0 where
  pub access_token : String
  pub refresh_token : String
  pub expires_at : ℕ
  pub expires_in : ℕ

-- `IsExpiringSoon`
unfoldable pub is_expiring_soon : ℕ → AnthropicCredentials → Bool
is_expiring_soon threshold c = if c.expires_at == 0 then false else ltb c.expires_in threshold

-- The answer to the n-th call of the agent, for each kind of call.
pub record World : Type 0 where
  pub now : ℕ → ℕ
  pub polling_check : ℕ → Bool
  pub auto_refresh_setting : ℕ → Option String
  pub claude_code_running : ℕ → Bool
  pub creds_refresh : ℕ → Option AnthropicCredentials
  pub token_refresh : ℕ → String
  pub write_credentials : ℕ → Bool
  pub refresh_token : ℕ → String → Result OauthError OauthTokens
  pub fetch_quotas : ℕ → String → Result FetchError (List AnthropicQuota)
  pub cancelled : ℕ → Bool
  pub insert_snapshot : ℕ → Bool
  pub statusline_fresh : ℕ → Bool
  pub read_statusline : ℕ → Option (Option StatuslineRateLimits)

-- What the agent was given when it was set up.
pub record Config : Type 0 where
  pub has_polling_check : Bool
  pub has_token_refresh : Bool
  pub has_creds_refresh : Bool
  pub has_statusline : Bool
  pub api_poll_cycle_interval : ℕ
  pub api_polling_disabled : Bool
  pub has_tracker : Bool
  pub has_notifier : Bool
  pub has_session_manager : Bool

-- What the agent does to its surroundings.
pub data Event : Type 0 where
  fetched : String → Event
  refreshed : String → Event
  auth_error : String → Event
  stored : AnthropicSnapshot → Event
  processed : AnthropicSnapshot → Event
  checked : AnthropicQuota → Event
  reported : List ℕ → Event

-- `type AnthropicAgent struct`, the fields that change, with the token that is set on the client,
-- the number of calls made and the log, newest first.
pub record AnthropicAgent : Type 0 where
  pub client_token : String
  pub last_token : String
  pub auth_fail_count : ℕ
  pub auth_paused : Bool
  pub last_failed_token : String
  pub auth_retry_at : ℕ
  pub auth_retry_count : ℕ
  pub superseded_token : String
  pub rate_limit_fail_count : ℕ
  pub rate_limit_paused : Bool
  pub rate_limit_resume_at : ℕ
  pub poll_cycle_count : ℕ
  pub calls : ℕ
  pub log : List Event

-- A call of the surroundings.
abbrev pub called : AnthropicAgent → AnthropicAgent
called a = record a { calls = suc a.calls }

abbrev pub logged : Event → AnthropicAgent → AnthropicAgent
logged e a = record a { log = e ∷ a.log }

-- `NewAnthropicAgent`, with the token of the client.
unfoldable pub new_anthropic_agent : String → AnthropicAgent
new_anthropic_agent token = record {
  client_token = token;
  last_token = "";
  auth_fail_count = 0;
  auth_paused = false;
  last_failed_token = "";
  auth_retry_at = 0;
  auth_retry_count = 0;
  superseded_token = "";
  rate_limit_fail_count = 0;
  rate_limit_paused = false;
  rate_limit_resume_at = 0;
  poll_cycle_count = 0;
  calls = 0;
  log = [];
}

abbrev pub max_auth_failures : ℕ
max_auth_failures = 3

abbrev pub max_rate_limit_failures : ℕ
max_rate_limit_failures = 5

abbrev pub rate_limit_base_backoff : ℕ
rate_limit_base_backoff = 5 * minute

abbrev pub rate_limit_max_backoff : ℕ
rate_limit_max_backoff = 6 * hour

abbrev pub token_refresh_threshold : ℕ
token_refresh_threshold = 1 * hour

abbrev pub auth_paused_retry_interval : ℕ
auth_paused_retry_interval = 15 * minute

abbrev pub auth_paused_retry_max_interval : ℕ
auth_paused_retry_max_interval = 6 * hour

-- `if shift > 10 { shift = 10 }`
abbrev pub capped_shift : ℕ → ℕ
capped_shift shift = if ltb 10 shift then 10 else shift

-- What `rateLimitBackoff` and `authRetryBackoff` compute, of their base and their maximum.
abbrev pub backoff_of : ℕ → ℕ → ℕ → ℕ
backoff_of base most n =
    if n == 0
    then base
    else (let backoff = base * 2 ^ capped_shift (n - 1) in
        if ltb most backoff then most else backoff)

-- `rateLimitBackoff`
unfoldable pub rate_limit_backoff : ℕ → ℕ
rate_limit_backoff n = backoff_of rate_limit_base_backoff rate_limit_max_backoff n

-- `authRetryBackoff`
unfoldable pub auth_retry_backoff : ℕ → ℕ
auth_retry_backoff n = backoff_of auth_paused_retry_interval auth_paused_retry_max_interval n

-- The switch of `AutoRefreshTokensEnabled`.
abbrev is_off : String → Bool
is_off v = v == "0" || v == "false" || v == "no" || v == "off"

-- `AutoRefreshTokensEnabled`, of what `GetSetting` returns; `none` is an error.
unfoldable pub auto_refresh_tokens_enabled : Option String → Bool
auto_refresh_tokens_enabled none = true
auto_refresh_tokens_enabled (some val) =
    if val == "" then true else not (is_off (to_lower (trim_space val)))
