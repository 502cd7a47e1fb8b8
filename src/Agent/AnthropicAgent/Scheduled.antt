-- ===== src/Agent/AnthropicAgent/Scheduled.antt =====
-- internal/agent/anthropic_agent.go: a paused agent always has its next recovery scheduled.
pub mod Refreshes
pub mod Fetches
use loomwatch.Prelude.{
  ℕ, zero, suc, ◌≡◌, ◌⊎◌, ◌≤◌, ◌<◌, inl, inr, refl, String, Bool, true, false, Option, none, some,
  List, [], ◌∷◌, arith, string_eq, nat_eq, if_both,
}
use loomwatch.Tracker.Anthropic.{AnthropicQuota, AnthropicSnapshot}
use loomwatch.Agent.AnthropicAgent.{
  World, Config, AnthropicAgent, AnthropicCredentials, new_anthropic_agent, called, logged, fetched,
  stored, processed,
}
use loomwatch.Agent.AnthropicAgent.Oauth.{proactive_refresh, try_paused_auth_recovery}
use loomwatch.Agent.AnthropicAgent.Fetch.{Fetched, fetch_quotas, first_answer}
use loomwatch.Agent.AnthropicAgent.Poll.{
  check_quotas, process_stored, process_response, statusline_poll, statusline_read, poll_statusline,
  refresh_expiring, refresh_first, install_token, reread_token, respond, poll_unless_paused,
  poll_api, poll_enabled, poll, polls,
}
use loomwatch.Agent.AnthropicAgent.Statusline.{StatuslineRateLimits}
use loomwatch.Agent.AnthropicAgent.Scheduled.Refreshes.{
  IsScheduled, try_paused_auth_recovery-Resumes, proactive_refresh-IsScheduled,
}
use loomwatch.Agent.AnthropicAgent.Scheduled.Fetches.{Passes, first_answer-Passes}

check_quotas-paused :
    (qs : List AnthropicQuota) (a : AnthropicAgent)
    → (check_quotas qs a).auth_paused ≡ a.auth_paused
unfolding check_quotas
check_quotas-paused [] a = refl
check_quotas-paused (q ∷ qs) a = check_quotas-paused qs _

module _ (w : World) (c : Config) where
  process_stored-paused :
      (s : AnthropicSnapshot) (a : AnthropicAgent)
      → (process_stored w c s a).auth_paused ≡ a.auth_paused
  unfolding process_stored
  process_stored-paused s a =
      ground (
        arith,
        check_quotas-paused s.quotas a,
        check_quotas-paused s.quotas (logged (processed s) a),
      )

  respond-IsScheduled : (r : Fetched) → Passes r → IsScheduled (respond w c r)
  unfolding process_response
  respond-IsScheduled (none, a) h = h.0
  respond-IsScheduled (some quotas, a) h =
      let snapshot : AnthropicSnapshot = record { captured_at = w.now a.calls; quotas = quotas } in
      let a1 : AnthropicAgent = record (called (called a)) {
        auth_fail_count = 0;
        auth_retry_count = 0;
        auth_retry_at = 0;
      } in
      ground (arith, process_stored-paused snapshot (logged (stored snapshot) a1))

  refresh_expiring-IsScheduled :
      (creds : Option AnthropicCredentials) (a : AnthropicAgent)
      → IsScheduled a
      → IsScheduled (refresh_expiring w c creds a)
  unfolding refresh_expiring
  refresh_expiring-IsScheduled none a h = h
  refresh_expiring-IsScheduled (some creds) a h =
      ground (arith, proactive_refresh-IsScheduled w c creds a)

  refresh_first-IsScheduled :
      (a : AnthropicAgent) → IsScheduled a → IsScheduled (refresh_first w c a)
  unfolding refresh_first
  refresh_first-IsScheduled a h =
      ground (arith, refresh_expiring-IsScheduled (w.creds_refresh a.calls) (called a))

  reread_token-IsScheduled : (a : AnthropicAgent) → IsScheduled a → IsScheduled (reread_token w c a)
  unfolding reread_token
  reread_token-IsScheduled a h = ground arith

  poll_unless_paused-IsScheduled :
      (a : AnthropicAgent) → IsScheduled a → IsScheduled (poll_unless_paused w c a)
  unfolding poll_unless_paused
  poll_unless_paused-IsScheduled a h =
      let a1 = (try_paused_auth_recovery w c a).1 in
      ground (
        arith,
        try_paused_auth_recovery-Resumes w c a,
        respond-IsScheduled (first_answer w c (fetch_quotas w c a)),
        first_answer-Passes w c (w.fetch_quotas a.calls a.client_token)
            (called (logged (fetched a.client_token) a)),
        respond-IsScheduled (first_answer w c (fetch_quotas w c a1)),
        first_answer-Passes w c (w.fetch_quotas a1.calls a1.client_token)
            (called (logged (fetched a1.client_token) a1)),
      )

  statusline_read-paused :
      (r : Option (Option StatuslineRateLimits)) (a : AnthropicAgent)
      → ((statusline_read w c r a).1.auth_paused ≡ a.auth_paused)
        × ((statusline_read w c r a).1.auth_retry_at ≡ a.auth_retry_at)
        × ((statusline_read w c r a).1.auth_fail_count ≡ a.auth_fail_count)
  unfolding statusline_read
  statusline_read-paused none a = (refl, refl, refl)
  statusline_read-paused (some none) a = (refl, refl, refl)
  statusline_read-paused (some (some rl)) a = (ground arith, ground arith, ground arith)

  poll_statusline-IsScheduled :
      (a : AnthropicAgent) → IsScheduled a → IsScheduled (poll_statusline w c a).1
  unfolding poll_statusline
  poll_statusline-IsScheduled a h =
      ground (arith, statusline_read-paused (w.read_statusline (suc a.calls)) (called (called a)))

  poll_api-IsScheduled : (a : AnthropicAgent) → IsScheduled a → IsScheduled (poll_api w c a)
  unfolding poll_api
  poll_api-IsScheduled a h = if_both IsScheduled c.api_polling_disabled a _ h (
      poll_unless_paused-IsScheduled (reread_token w c (refresh_first w c a))
        (reread_token-IsScheduled (refresh_first w c a) (refresh_first-IsScheduled a h)))

  poll_enabled-IsScheduled : (a : AnthropicAgent) → IsScheduled a → IsScheduled (poll_enabled w c a)
  unfolding poll_enabled
  poll_enabled-IsScheduled a h =
      let h1 = poll_statusline-IsScheduled a h in
      let a1 = (poll_statusline w c a).1 in
      if_both IsScheduled (poll_statusline w c a).0 (poll_api w c a1) a1
        (poll_api-IsScheduled a1 h1) h1

  pub poll-IsScheduled : (a : AnthropicAgent) → IsScheduled a → IsScheduled (poll w c a)
  unfolding poll
  poll-IsScheduled a h =
      if_both IsScheduled c.has_polling_check _ (poll_enabled w c a)
        (if_both IsScheduled (w.polling_check a.calls) (poll_enabled w c (called a)) (called a)
          (poll_enabled-IsScheduled (called a) h) h)
        (poll_enabled-IsScheduled a h)

  pub polls_keeps_schedule :
      (n : ℕ) (a : AnthropicAgent) → IsScheduled a → IsScheduled (polls w c n a)
  unfolding polls
  polls_keeps_schedule zero a h = h
  polls_keeps_schedule (suc n) a h = polls_keeps_schedule n (poll w c a) (poll-IsScheduled a h)

-- After any number of polls of a new agent, whatever the clock, the stored credentials, the two
-- endpoints and the database answer: a paused agent has counted at least three rejections and has
-- a time, not the zero time, at which it will try to recover by itself.
pub polls-IsScheduled :
    (w : World) (c : Config) (n : ℕ) (token : String)
    → (polls w c n (new_anthropic_agent token)).auth_paused ≡ true
    → (0 < (polls w c n (new_anthropic_agent token)).auth_retry_at)
      × (3 ≤ (polls w c n (new_anthropic_agent token)).auth_fail_count)
polls-IsScheduled w c n token paused =
    let start : IsScheduled (new_anthropic_agent token) = unfold new_anthropic_agent in inl refl in
    ground (arith, polls_keeps_schedule w c n (new_anthropic_agent token) start)
