-- ===== src/Web/LoginLimiter.antt =====
-- `LoginRateLimiter` of internal/web/middleware.go. Times are Unix times in nanoseconds, passed in
-- where the code reads the clock. `failures` is an int32 kept as its bit pattern. The map is an
-- association list, whose order stands for the order in which Go's `range` happens to go.
pub mod Blocks
pub mod Failures
pub mod Capacity
mod Tests
use loomwatch.Prelude.{
  ℕ, ◌+◌, ◌-◌, ◌*◌, ◌%◌, ◌^◌, ◌≡◌, String, Bool, true, false, not, ◌&&◌, ◌||◌, Option, none, some,
  List, [], ◌∷◌, ◌==◌, nat_eq, string_eq, ltb, leb, if◌then◌else◌, length, is_some,
}
use loomwatch.Prelude.Dict.{Dict, lookup, insert, erase}

abbrev pub max_failed_attempts : ℕ
max_failed_attempts = 5

-- Five minutes.
abbrev pub block_duration : ℕ
block_duration = 300_000_000_000

abbrev pub max_tracked_ips : ℕ
max_tracked_ips = 1000

-- `type loginAttempt struct`; `blocked_at` is 0 for an IP that is not blocked.
pub record LoginAttempt : Type 0 where
  pub failures : ℕ
  pub last_fail : ℕ
  pub blocked_at : ℕ

-- `type LoginRateLimiter struct`
pub record LoginRateLimiter : Type 0 where
  pub attempts : Dict String LoginAttempt
  pub max_ips : ℕ

-- `NewLoginRateLimiter`, for an argument that is not negative.
pub new : ℕ → LoginRateLimiter
new max_ips = record { attempts = []; max_ips = if max_ips == 0 then max_tracked_ips else max_ips }

-- `blockedAt > 0 && time.Duration(now-blockedAt) < blockDuration`
abbrev pub is_pinned : ℕ → LoginAttempt → Bool
is_pinned now entry = ltb 0 entry.blocked_at && ltb now (entry.blocked_at + block_duration)

-- The loop of `evictOldestEntry`: `oldestIP` and `oldestTime`, `none` for -1.
pub oldest : ℕ → Dict String LoginAttempt → String × Option ℕ → String × Option ℕ
oldest now [] found = found
oldest now ((ip, entry) ∷ rest) (oldest_ip, oldest_time) =
    let older : Bool = elim oldest_time [ none ↦ true | some t ↦ ltb entry.last_fail t ] in
    oldest now rest (
      if not (is_pinned now entry) && older
      then (ip, some entry.last_fail)
      else (oldest_ip, oldest_time))

-- `evictOldestEntry`
unfoldable pub evict_oldest_entry : ℕ → Dict String LoginAttempt → Dict String LoginAttempt
evict_oldest_entry now attempts =
    let ip = (oldest now attempts ("", none)).0 in if ip == "" then attempts else erase ip attempts

abbrev pub no_attempt : LoginAttempt
no_attempt = record { failures = 0; last_fail = 0; blocked_at = 0 }

-- The part of `RecordFailure` under the lock: the attempts with an entry for the IP.
unfoldable pub with_entry : String → ℕ → LoginRateLimiter → Dict String LoginAttempt
with_entry ip now l =
    if is_some (lookup ip l.attempts)
    then l.attempts
    else insert ip no_attempt (
        if leb l.max_ips (length l.attempts) then evict_oldest_entry now l.attempts else l.attempts)

-- `failures >= maxFailedAttempts`, for an int32.
abbrev pub reaches_limit : ℕ → Bool
reaches_limit failures = leb max_failed_attempts failures && ltb failures (2 ^ 31)

-- The part on the entry: the count, the time, and the block if there is none yet.
abbrev pub count_failure : ℕ → LoginAttempt → LoginAttempt
count_failure now entry =
    let failures = (entry.failures + 1) % 2 ^ 32 in
    record entry {
      failures = failures;
      last_fail = now;
      blocked_at =
          if reaches_limit failures && entry.blocked_at == 0 then now else entry.blocked_at;
    }

abbrev pub entry_of : String → Dict String LoginAttempt → LoginAttempt
entry_of ip attempts = elim (lookup ip attempts) [ none ↦ no_attempt | some entry ↦ entry ]

-- `RecordFailure`
unfoldable pub record_failure : String → ℕ → LoginRateLimiter → LoginRateLimiter × Bool
record_failure ip now l =
    let attempts = with_entry ip now l in
    let entry = count_failure now (entry_of ip attempts) in
    (record l { attempts = insert ip entry attempts }, reaches_limit entry.failures)

-- `IsBlocked`, which clears a block that has run out.
unfoldable pub is_blocked : String → ℕ → LoginRateLimiter → LoginRateLimiter × Bool
is_blocked ip now l = elim (lookup ip l.attempts) [
  | none ↦ (l, false)
  | some entry ↦
      if entry.blocked_at == 0
      then (l, false)
      else if leb (entry.blocked_at + block_duration) now
      then (
        record l {
          attempts = insert ip (record entry { failures = 0; blocked_at = 0 }) l.attempts;
        },
        false,
      )
      else (l, true)
]

-- `Clear`
unfoldable pub clear : String → LoginRateLimiter → LoginRateLimiter
clear ip l = record l { attempts = erase ip l.attempts }

-- The loop of `EvictStaleEntries`.
pub fresh_entries : ℕ → ℕ → Dict String LoginAttempt → Dict String LoginAttempt
fresh_entries max_age now [] = []
fresh_entries max_age now ((ip, entry) ∷ rest) =
    let kept = fresh_entries max_age now rest in
    if is_pinned now entry
    then (ip, entry) ∷ kept
    else if max_age == 0 || ltb entry.last_fail (now - max_age)
    then kept
    else (ip, entry) ∷ kept

-- `EvictStaleEntries`, for an age that is not negative.
unfoldable pub evict_stale_entries : ℕ → ℕ → LoginRateLimiter → LoginRateLimiter
evict_stale_entries max_age now l = record l { attempts = fresh_entries max_age now l.attempts }
