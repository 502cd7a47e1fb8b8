-- ===== src/Web/RateLimiter/Tests.antt =====
-- The rate limiter on concrete requests, and its theorems there.
use loomwatch.Prelude.{ℕ, ◌-◌, ◌≡◌, min, String, List, [], ◌∷◌, arith, string_eq}
use loomwatch.Prelude.Dict.{lookup}
use loomwatch.Web.RateLimiter.{RateLimiter, new_rate_limiter, or_zero}
use loomwatch.Web.RateLimiter.Bursts.{asked, allowed, allow_all-burst}

abbrev limiter : RateLimiter
limiter = record (new_rate_limiter 2 60) {
  attempts = ("10.0.0.1", 1) ∷ [];
  last_attempt = ("10.0.0.1", 100) ∷ [];
}

abbrev requests : List (String × ℕ)
requests = ("10.0.0.1", 110) ∷ ("10.0.0.2", 115) ∷ ("10.0.0.1", 120) ∷ ("10.0.0.1", 150) ∷ []

allow_all-burst_example :
    allowed "10.0.0.1" requests limiter
    ≡ min
        (asked "10.0.0.1" requests)
        (limiter.max_attempts - or_zero (lookup "10.0.0.1" limiter.attempts))
allow_all-burst_example = allow_all-burst "10.0.0.1" 100 requests limiter (omega arith) (
  omega arith,
  omega arith,
  (omega arith, omega arith, (omega arith, omega arith, (omega arith, omega arith, tt))),
)
