-- ===== src/Agent/AnthropicAgent/Backoff.antt =====
-- internal/agent/anthropic_agent.go: the delays of `rateLimitBackoff` and `authRetryBackoff`.
use native.Mathlib.Nat.{pow-le-pow_right, one-le-pow}
use loomwatch.Prelude.{ℕ, ◌-◌, ◌*◌, ◌^◌, ◌≤◌, ◌≡◌, min, arith}
use loomwatch.Tracker.Clock.{minute, hour}
use loomwatch.Agent.AnthropicAgent.{rate_limit_backoff, auth_retry_backoff}

-- Past ten doublings the delay is at its maximum.
doublings : (n : ℕ) → 10 ≤ n → 2 ^ 10 ≤ 2 ^ n
doublings n h = pow-le-pow_right (omega arith) h

-- For n failures, n not 0, the delays are min(base * 2^(n-1), max), as the comments of the code
-- say, with a base of 5 minutes for the OAuth endpoint and of 15 minutes for a paused agent and a
-- maximum of 6 hours for both: the cap of the shift changes no delay.
pub backoff-eq-min :
    (n : ℕ)
    → 1 ≤ n
    → (rate_limit_backoff n ≡ min ((5 * minute) * 2 ^ (n - 1)) (6 * hour))
      × (auth_retry_backoff n ≡ min ((15 * minute) * 2 ^ (n - 1)) (6 * hour))
unfolding rate_limit_backoff auth_retry_backoff
backoff-eq-min n h = (ground (arith, doublings (n - 1)), ground (arith, doublings (n - 1)))

-- A delay is never 0.
pub auth_retry_backoff_pos : (n : ℕ) → 1 ≤ auth_retry_backoff n
unfolding auth_retry_backoff
auth_retry_backoff_pos n = ground (arith, one-le-pow (n - 1) 2, doublings (n - 1))

-- A delay is never shorter than its base nor longer than six hours, and grows with the failures.
pub rate_limit_backoff_bounds :
    (n : ℕ) → (5 * minute ≤ rate_limit_backoff n) × (rate_limit_backoff n ≤ 6 * hour)
unfolding rate_limit_backoff
rate_limit_backoff_bounds n =
    (ground (arith, one-le-pow (n - 1) 2), ground (arith, one-le-pow (n - 1) 2))
