-- ===== src/Tracker/Clock.antt =====
-- Times and durations of Go's `time`, as the trackers use them. A time is the number of
-- nanoseconds since the zero time, so that `Truncate`, which counts from the zero time, is a
-- division and `IsZero` is a test against 0.
use loomwatch.Prelude.{
  ℕ, suc, ◌+◌, ◌-◌, ◌*◌, ◌/◌, ◌^◌, ◌<◌, ◌≡◌, Bool, ltb, leb, min, if◌then◌else◌, ◌==◌, nat_eq,
  arith,
}
use loomwatch.Prelude.Int.{ℤ, pos, negsuc, ltb_ℤ}

abbrev pub minute : ℕ
minute = 60_000_000_000

abbrev pub hour : ℕ
hour = 3_600_000_000_000

-- `a.After(b)`
abbrev pub after : ℕ → ℕ → Bool
after a b = ltb b a

-- `t.Truncate(d)`
abbrev pub truncate : ℕ → ℕ → ℕ
truncate t d = (t / d) * d

-- The largest `time.Duration`, an int64 of nanoseconds. The smallest is `negsuc max_duration`.
abbrev pub max_duration : ℕ
max_duration = 2 ^ 63 - 1

-- `a.Sub(b)`, which saturates.
pub time_sub : ℕ → ℕ → ℤ
time_sub a b =
    if leb b a then pos (min (a - b) max_duration) else negsuc (min (b - a - 1) max_duration)

-- `-d`, which wraps at the smallest duration.
abbrev pub negate : ℤ → ℤ
negate (pos n) = if n == 0 then pos 0 else negsuc (n - 1)
negate (negsuc n) = if n == max_duration then negsuc n else pos (suc n)

-- `if diff < 0 { diff = -diff }`
abbrev pub magnitude : ℤ → ℤ
magnitude d = if ltb_ℤ d (pos 0) then negate d else d

-- The trackers' test for a moved reset time: `diff := a.Sub(b)`, made positive, is over a limit.
unfoldable pub shifted_beyond : ℕ → ℕ → ℕ → Bool
unfolding time_sub
shifted_beyond limit a b = ltb_ℤ (pos limit) (magnitude (time_sub a b))

-- For times less than 2^63 ns (292 years) apart, it compares their distance with the limit.
pub shifted_beyond_lem :
    (limit a b : ℕ)
    → a < b + 2 ^ 63
    → b < a + 2 ^ 63
    → shifted_beyond limit a b ≡ ltb limit ((a - b) + (b - a))
unfolding shifted_beyond
shifted_beyond_lem limit a b p q = ground arith
