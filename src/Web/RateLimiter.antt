-- ===== src/Web/RateLimiter.antt =====
-- `RateLimiter` of internal/web/security.go. The time is an argument where the code reads the
-- clock, and is never before a recorded one.
pub mod Bursts
mod Tests
use loomwatch.Prelude.{
  ℕ, suc, ◌+◌, ◌-◌, ◌≡◌, String, Bool, true, false, not, ◌&&◌, Option, none, some, List, [], ◌∷◌,
  ◌==◌, string_eq, ltb, leb, if◌then◌else◌,
}
use loomwatch.Prelude.Dict.{Dict, lookup, insert}

-- `type RateLimiter struct`
pub record RateLimiter : Type 0 where
  pub attempts : Dict String ℕ
  pub last_attempt : Dict String ℕ
  pub max_attempts : ℕ
  pub window : ℕ

-- `NewRateLimiter`
abbrev pub new_rate_limiter : ℕ → ℕ → RateLimiter
new_rate_limiter max window = record {
  attempts = [];
  last_attempt = [];
  max_attempts = max;
  window = window;
}

-- `m[ip]`, 0 if there is none.
abbrev pub or_zero : Option ℕ → ℕ
or_zero none = 0
or_zero (some n) = n

-- `exists && now.Sub(lastTime) > rl.window`
abbrev pub has_passed : ℕ → ℕ → Option ℕ → Bool
has_passed now window none = false
has_passed now window (some last) = ltb window (now - last)

-- `Allow`
unfoldable pub allow : String → ℕ → RateLimiter → RateLimiter × Bool
allow ip now rl =
    let attempts =
      if has_passed now rl.window (lookup ip rl.last_attempt)
      then insert ip 0 rl.attempts
      else rl.attempts in
    let count = or_zero (lookup ip attempts) in
    if leb rl.max_attempts count then (record rl { attempts = attempts }, false) else (
      record rl {
        attempts = insert ip (suc count) attempts;
        last_attempt = insert ip now rl.last_attempt;
      },
      true,
    )

abbrev remaining_at : ℕ → RateLimiter → ℕ → Option ℕ → ℕ × ℕ
remaining_at now rl count none = (rl.max_attempts, 0)
remaining_at now rl count (some last) =
    if ltb rl.window (now - last)
    then (rl.max_attempts, 0)
    else (rl.max_attempts - count, rl.window - (now - last))

-- `GetRemaining`; the subtraction of counts stops at 0, as the code's does.
unfoldable pub get_remaining : String → ℕ → RateLimiter → ℕ × ℕ
get_remaining ip now rl =
    remaining_at now rl (or_zero (lookup ip rl.attempts)) (lookup ip rl.last_attempt)
