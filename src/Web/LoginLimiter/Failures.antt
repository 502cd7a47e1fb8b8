-- ===== src/Web/LoginLimiter/Failures.antt =====
-- How many failures block an IP, and from when.
use loomwatch.Prelude.{
  ℕ, zero, suc, ◌+◌, ◌%◌, ◌^◌, ◌<◌, ◌≡◌, refl, String, ◌&&◌, none, some, List, [], ◌∷◌, arith, ◌==◌,
  nat_eq, string_eq, if◌then◌else◌, length,
}
use loomwatch.Prelude.Dict.{Dict, lookup, lookup-insert}
use loomwatch.Web.LoginLimiter.{
  LoginAttempt, LoginRateLimiter, entry_of, count_failure, no_attempt, reaches_limit,
  evict_oldest_entry, with_entry, record_failure,
}
use loomwatch.Web.LoginLimiter.Blocks.{blocked_since}

-- How many failures of an IP are on record.
abbrev pub failures_of : String → Dict String LoginAttempt → ℕ
failures_of ip m = elim (lookup ip m) [ none ↦ 0 | some entry ↦ entry.failures ]

-- Failures of one IP at the given times.
unfoldable pub fail_all : String → List ℕ → LoginRateLimiter → LoginRateLimiter
fail_all ip [] l = l
fail_all ip (now ∷ rest) l = fail_all ip rest (record_failure ip now l).0

-- The time at a position of the list, 0 past its end.
abbrev pub time_at : List ℕ → ℕ → ℕ
time_at [] n = 0
time_at (t ∷ ts) zero = t
time_at (t ∷ ts) (suc n) = time_at ts n

abbrev pub AllPositive : List ℕ → Type 0
AllPositive [] = Unit
AllPositive (t ∷ ts) = (0 < t) × AllPositive ts

module _ (ip : String) (now : ℕ) (l : LoginRateLimiter) where
  entry_of-with_entry : entry_of ip (with_entry ip now l) ≡ entry_of ip l.attempts
  unfolding with_entry
  entry_of-with_entry = ground (
    arith,
    string_eq.matches_iff ip ip,
    lookup-insert ip ip no_attempt l.attempts,
    lookup-insert ip ip no_attempt (evict_oldest_entry now l.attempts),
  )

  -- One failure: the count goes up by one, and the block begins now if the count reaches the
  -- limit and there is no block.
  pub record_failure_lem :
      let f = failures_of ip l.attempts in
      let b = blocked_since ip l.attempts in
      let (l', reached) = record_failure ip now l in
      (failures_of ip l'.attempts ≡ (f + 1) % 2 ^ 32)
      × (reached ≡ reaches_limit ((f + 1) % 2 ^ 32))
      × (blocked_since ip l'.attempts
          ≡ (if reaches_limit ((f + 1) % 2 ^ 32) && b == 0 then now else b))
  unfolding record_failure
  record_failure_lem =
      let m = with_entry ip now l in
      ground (
        arith,
        entry_of-with_entry,
        string_eq.matches_iff ip ip,
        lookup-insert ip ip (count_failure now (entry_of ip m)) m,
      )

fail_all_blocked :
    (ip : String) (times : List ℕ) (l : LoginRateLimiter)
    → failures_of ip l.attempts + length times < 2 ^ 31
    → 0 < blocked_since ip l.attempts
    → blocked_since ip (fail_all ip times l).attempts ≡ blocked_since ip l.attempts
unfolding fail_all
fail_all_blocked ip [] l few blocked = refl
fail_all_blocked ip (now ∷ rest) l few blocked =
    let l' = (record_failure ip now l).0 in
    ground (arith, record_failure_lem ip now l, fail_all_blocked ip rest l')

fail_all_free :
    (ip : String) (times : List ℕ) (l : LoginRateLimiter) (left : ℕ)
    → failures_of ip l.attempts + length times < 2 ^ 31
    → failures_of ip l.attempts + left ≡ 4
    → blocked_since ip l.attempts ≡ 0
    → AllPositive times
    → blocked_since ip (fail_all ip times l).attempts ≡ time_at times left
unfolding fail_all
fail_all_free ip [] l left few counted free positive = free
fail_all_free ip (now ∷ rest) l zero few counted free positive =
    let l' = (record_failure ip now l).0 in
    ground (arith, record_failure_lem ip now l, fail_all_blocked ip rest l')
fail_all_free ip (now ∷ rest) l (suc left) few counted free positive =
    let l' = (record_failure ip now l).0 in
    ground (arith, record_failure_lem ip now l, fail_all_free ip rest l' left)

-- From no entry, failures of one IP at positive times, fewer than 2^31 of them, however far apart
-- and with no other call between them, block it exactly from the time of the fifth; four or fewer
-- do not block it.
pub fail_all_blocks :
    (ip : String) (times : List ℕ) (l : LoginRateLimiter)
    → lookup ip l.attempts ≡ none
    → length times < 2 ^ 31
    → AllPositive times
    → blocked_since ip (fail_all ip times l).attempts ≡ time_at times 4
fail_all_blocks ip times l absent few positive =
    let counted : failures_of ip l.attempts ≡ 0 = ground arith in
    let free : blocked_since ip l.attempts ≡ 0 = ground arith in
    fail_all_free ip times l 4 (omega (arith, counted)) (omega (arith, counted)) free positive
