-- ===== src/Web/LoginLimiter/Tests.antt =====
-- The login limiter on concrete calls, and its theorems there.
use loomwatch.Prelude.{
  ℕ, ◌≤◌, ◌≡◌, refl, String, true, List, [], ◌∷◌, arith, ◌⊎◌, string_eq, length,
}
use loomwatch.Prelude.Dict.{Dict}
use loomwatch.Web.LoginLimiter.{LoginAttempt, LoginRateLimiter, record_failure, is_blocked}
use loomwatch.Web.LoginLimiter.Blocks.{
  Call, records, clears, evicts, run, blocked_since, run_keeps_block,
}
use loomwatch.Web.LoginLimiter.Failures.{fail_all, fail_all_blocks}
use loomwatch.Web.LoginLimiter.Capacity.{AllBlocked, record_failure-capacity}

abbrev failed : ℕ → ℕ → ℕ → LoginAttempt
failed n last since = record { failures = n; last_fail = last; blocked_at = since }

-- One IP is blocked since 100, the other failed once.
abbrev limiter : LoginRateLimiter
limiter = record {
  attempts = ("10.0.0.1", failed 5 100 100) ∷ ("10.0.0.2", failed 1 90 0) ∷ [];
  max_ips = 2;
}

abbrev flood : List (ℕ × Call)
flood =
    (110, records "10.0.0.3")
    ∷ (120, records "10.0.0.4")
    ∷ (130, evicts 0)
    ∷ (140, records "10.0.0.1")
    ∷ (150, clears "10.0.0.2")
    ∷ []

run_keeps_block_example : (is_blocked "10.0.0.1" 200 (run flood limiter)).1 ≡ true
run_keeps_block_example =
    run_keeps_block "10.0.0.1" 100 200 flood limiter (refl, (refl, tt)) (omega arith) refl
      (omega arith, (omega arith, (omega arith, (omega arith, (refl, tt))))) (omega arith)

fail_all_blocks_example :
    blocked_since "10.0.0.9"
      (fail_all "10.0.0.9" (10 ∷ 11 ∷ 12 ∷ 13 ∷ 14 ∷ 15 ∷ []) limiter).attempts
    ≡ 14
fail_all_blocks_example =
    fail_all_blocks "10.0.0.9" (10 ∷ 11 ∷ 12 ∷ 13 ∷ 14 ∷ 15 ∷ []) limiter refl (omega arith)
      (omega arith)

record_failure-capacity_example :
    AllBlocked 110 limiter.attempts
    ⊎ (length (record_failure "10.0.0.3" 110 limiter).0.attempts ≤ 2)
unfolding record_failure
record_failure-capacity_example = record_failure-capacity "10.0.0.3" 110 limiter refl (omega arith)

abbrev others : Dict String LoginAttempt
others = ("10.0.0.2", failed 1 90 0) ∷ []
