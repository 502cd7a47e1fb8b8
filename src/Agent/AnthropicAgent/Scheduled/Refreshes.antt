-- ===== src/Agent/AnthropicAgent/Scheduled/Refreshes.antt =====
-- internal/agent/anthropic_agent.go: the refreshes and the pause.
use loomwatch.Prelude.{
  suc, ◌+◌, ◌≤◌, ◌<◌, ◌≡◌, ◌⊎◌, inl, refl, Bool, false, Option, none, some, Result, ok, err, arith,
  string_eq, nat_eq,
}
use loomwatch.Agent.AnthropicAgent.{
  World, Config, AnthropicAgent, AnthropicCredentials, OauthTokens, OauthError, rate_limited,
  invalid_grant, refresh_failed, auth_retry_backoff, called, logged, refreshed,
}
use loomwatch.Agent.AnthropicAgent.Oauth.{
  note_oauth_refresh_failure, refresh_guards, recovered, recover_with, try_oauth_recovery,
  try_paused_auth_recovery, proactive_failed, proactive_answer, proactive_refresh, running_guards,
}
use loomwatch.Agent.AnthropicAgent.Backoff.{auth_retry_backoff_pos}

-- A paused agent has counted enough rejections, and has a time at which it will try again.
abbrev pub IsScheduled : AnthropicAgent → Type 0
IsScheduled a = (a.auth_paused ≡ false) ⊎ ((0 < a.auth_retry_at) × (3 ≤ a.auth_fail_count))

-- What a recovery leaves of the pause: the schedule, and the pause itself if it succeeded.
abbrev pub Recovers : AnthropicAgent → Bool × AnthropicAgent → Type 0
Recovers a r =
    IsScheduled r.1
    × ((a.auth_fail_count < 3) ⊎ (3 ≤ r.1.auth_fail_count))
    × ((r.0 ≡ false)
        ⊎ ((r.1.auth_paused ≡ a.auth_paused)
            × (r.1.auth_retry_at ≡ a.auth_retry_at)
            × (r.1.auth_fail_count ≡ a.auth_fail_count)))

-- The end of the pause, or a schedule for the next attempt.
abbrev pub Resumes : Bool × AnthropicAgent → Type 0
Resumes r = IsScheduled r.1 × ((r.0 ≡ false) ⊎ (r.1.auth_paused ≡ false))

module _ (w : World) (c : Config) where
  pub note_oauth_refresh_failure-IsScheduled :
      (e : OauthError) (a : AnthropicAgent)
      → IsScheduled a
      → IsScheduled (note_oauth_refresh_failure w c e a)
        × ((a.auth_fail_count < 3) ⊎ (3 ≤ (note_oauth_refresh_failure w c e a).auth_fail_count))
  unfolding note_oauth_refresh_failure
  note_oauth_refresh_failure-IsScheduled (rate_limited n) a h = ground arith
  note_oauth_refresh_failure-IsScheduled invalid_grant a h = ground arith
  note_oauth_refresh_failure-IsScheduled refresh_failed a h = ground arith

  -- The guards change no state of the pause.
  pub refresh_guards-same :
      (a : AnthropicAgent)
      → ((refresh_guards w c a).1.auth_paused ≡ a.auth_paused)
        × ((refresh_guards w c a).1.auth_retry_at ≡ a.auth_retry_at)
        × ((refresh_guards w c a).1.auth_fail_count ≡ a.auth_fail_count)
  unfolding refresh_guards
  refresh_guards-same a = (ground arith, ground arith, ground arith)

  recovered-Recovers :
      (creds : AnthropicCredentials) (r : Result OauthError OauthTokens) (a : AnthropicAgent)
      → IsScheduled a
      → Recovers a (recovered w c creds (r, a))
  unfolding recovered
  recovered-Recovers creds (ok new) a h = ground arith
  recovered-Recovers creds (err e) a h = (
    (note_oauth_refresh_failure-IsScheduled e a h).0,
    (note_oauth_refresh_failure-IsScheduled e a h).1,
    inl refl,
  )

  recover_with-Recovers :
      (creds : Option AnthropicCredentials) (a : AnthropicAgent)
      → IsScheduled a
      → Recovers a (recover_with w c creds a)
  unfolding recover_with
  recover_with-Recovers none a h = ground arith
  recover_with-Recovers (some creds) a h = ground (
    arith,
    recovered-Recovers creds (w.refresh_token a.calls creds.refresh_token)
        (called (logged (refreshed creds.refresh_token) a)),
  )

  pub try_oauth_recovery-Recovers :
      (a : AnthropicAgent) → IsScheduled a → Recovers a (try_oauth_recovery w c a)
  unfolding try_oauth_recovery
  try_oauth_recovery-Recovers a h = ground (
    arith,
    refresh_guards-same a,
    recover_with-Recovers (w.creds_refresh (refresh_guards w c a).1.calls)
        (called (refresh_guards w c a).1),
  )

  pub try_paused_auth_recovery-Resumes :
      (a : AnthropicAgent) → IsScheduled a → Resumes (try_paused_auth_recovery w c a)
  unfolding try_paused_auth_recovery
  try_paused_auth_recovery-Resumes a h =
      let count = suc a.auth_retry_count in
      let a1 : AnthropicAgent = record a {
        auth_retry_count = count;
        auth_retry_at = w.now a.calls + auth_retry_backoff count;
        calls = suc a.calls;
      } in
      ground (arith, auth_retry_backoff_pos count, try_oauth_recovery-Recovers a1)

  proactive_failed-IsScheduled :
      (e : OauthError) (a : AnthropicAgent) → IsScheduled a → IsScheduled (proactive_failed w c e a)
  unfolding proactive_failed
  proactive_failed-IsScheduled (rate_limited n) a h = ground arith
  proactive_failed-IsScheduled invalid_grant a h = ground arith
  proactive_failed-IsScheduled refresh_failed a h = h

  proactive_answer-IsScheduled :
      (creds : AnthropicCredentials) (r : Result OauthError OauthTokens) (a : AnthropicAgent)
      → IsScheduled a
      → IsScheduled (proactive_answer w c creds (r, a))
  unfolding proactive_answer
  proactive_answer-IsScheduled creds (ok new) a h = ground arith
  proactive_answer-IsScheduled creds (err e) a h = proactive_failed-IsScheduled e a h

  pub proactive_refresh-IsScheduled :
      (creds : AnthropicCredentials) (a : AnthropicAgent)
      → IsScheduled a
      → IsScheduled (proactive_refresh w c creds a)
  unfolding proactive_refresh
  proactive_refresh-IsScheduled creds a h =
      let a1 = (running_guards w c (called a)).1 in
      ground (
        arith,
        proactive_answer-IsScheduled creds (w.refresh_token a1.calls creds.refresh_token)
            (called (logged (refreshed creds.refresh_token) a1)),
      )
