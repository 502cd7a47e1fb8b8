-- ===== src/Web/RateLimiter/Bursts.antt =====
-- How many requests the rate limiter lets through.
use loomwatch.Prelude.{
  ℕ, suc, ◌+◌, ◌-◌, ◌≤◌, ◌≡◌, refl, min, String, false, ◌&&◌, Option, none, some, List, [], ◌∷◌,
  arith, ◌==◌, string_eq, ltb, if◌then◌else◌, inl, inr, Bool-cases,
}
use loomwatch.Prelude.Dict.{lookup, insert, lookup-insert}
use loomwatch.Web.RateLimiter.{RateLimiter, or_zero, has_passed, allow, get_remaining}

unfoldable pub allow_all : List (String × ℕ) → RateLimiter → RateLimiter
allow_all [] rl = rl
allow_all ((ip, now) ∷ cs) rl = allow_all cs (allow ip now rl).0

-- How many requests of an address there are, and how many of them are allowed.
abbrev pub asked : String → List (String × ℕ) → ℕ
asked ip [] = 0
asked ip ((j, now) ∷ cs) = (if j == ip then 1 else 0) + asked ip cs

abbrev pub allowed : String → List (String × ℕ) → RateLimiter → ℕ
allowed ip [] rl = 0
allowed ip ((j, now) ∷ cs) rl =
    (if j == ip && (allow j now rl).1 then 1 else 0) + allowed ip cs (allow j now rl).0

-- All requests lie between two times.
abbrev pub AllBetween : ℕ → ℕ → List (String × ℕ) → Type 0
AllBetween start end [] = Unit
AllBetween start end ((j, now) ∷ cs) = (start ≤ now) × (now ≤ end) × AllBetween start end cs

-- The address was last let through no earlier than a time, if ever.
abbrev pub NotBefore : ℕ → Option ℕ → Type 0
NotBefore start none = Unit
NotBefore start (some last) = start ≤ last

count_of : String → RateLimiter → ℕ
count_of ip rl = or_zero (lookup ip rl.attempts)

in_window :
    (start now window : ℕ) (last : Option ℕ)
    → now ≤ start + window
    → NotBefore start last
    → has_passed now window last ≡ false
in_window start now window none to before = refl
in_window start now window (some last) to before = ground arith

-- A request in the window is allowed while the count is below the maximum, and counts then.
allow-own :
    (ip : String) (start now : ℕ) (rl : RateLimiter)
    → now ≤ start + rl.window
    → NotBefore start (lookup ip rl.last_attempt)
    → ((allow ip now rl).1 ≡ ltb (count_of ip rl) rl.max_attempts)
      × (count_of ip (allow ip now rl).0
          ≡ (if ltb (count_of ip rl) rl.max_attempts then suc (count_of ip rl) else count_of ip rl))
unfolding allow count_of
allow-own ip start now rl to before =
    let unexpired = in_window start now rl.window (lookup ip rl.last_attempt) to before in
    let count = or_zero (lookup ip rl.attempts) in
    let inserted = lookup-insert ip ip (suc count) rl.attempts in
    rw unexpired (ground (arith, inserted, string_eq.matches_iff ip ip))

-- Another address' request.
allow-other :
    (ip j : String) (now : ℕ) (rl : RateLimiter)
    → (j == ip) ≡ false
    → (count_of ip (allow j now rl).0 ≡ count_of ip rl)
      × (lookup ip (allow j now rl).0.last_attempt ≡ lookup ip rl.last_attempt)
unfolding allow count_of
allow-other ip j now rl other =
    let zeroed = lookup-insert j ip 0 rl.attempts in
    let passed = has_passed now rl.window (lookup j rl.last_attempt) in
    let first = if passed then insert j 0 rl.attempts else rl.attempts in
    let counted = lookup-insert j ip (suc (or_zero (lookup j first))) first in
    let timed = lookup-insert j ip now rl.last_attempt in ground (arith, zeroed, counted, timed)

allow-NotBefore :
    (ip j : String) (start now : ℕ) (rl : RateLimiter)
    → start ≤ now
    → NotBefore start (lookup ip rl.last_attempt)
    → NotBefore start (lookup ip (allow j now rl).0.last_attempt)
unfolding allow
allow-NotBefore ip j start now rl from before =
    ground (arith, lookup-insert j ip now rl.last_attempt)

allow-settings :
    (j : String) (now : ℕ) (rl : RateLimiter)
    → ((allow j now rl).0.max_attempts ≡ rl.max_attempts) × ((allow j now rl).0.window ≡ rl.window)
unfolding allow
allow-settings j now rl = ground arith

-- Within one window after a time before which the address was not let through, whatever other
-- addresses ask in between: of its requests, exactly the first ones are allowed, until its count
-- reaches the maximum.
pub allow_all-burst :
    (ip : String) (start : ℕ) (cs : List (String × ℕ)) (rl : RateLimiter)
    → NotBefore start (lookup ip rl.last_attempt)
    → AllBetween start (start + rl.window) cs
    → allowed ip cs rl ≡ min (asked ip cs) (rl.max_attempts - or_zero (lookup ip rl.attempts))
unfolding count_of
allow_all-burst ip start [] rl before between = ground arith
allow_all-burst ip start ((j, now) ∷ cs) rl before between =
    let rl' = (allow j now rl).0 in
    let settings = allow-settings j now rl in
    let between' : AllBetween start (start + rl'.window) cs = rw settings.1 between.2 in
    let before' = allow-NotBefore ip j start now rl between.0 before in
    let rest = allow_all-burst ip start cs rl' before' between' in
    elim (Bool-cases (j == ip)) [
      | inr other ↦ ground (arith, allow-other ip j now rl other, rest, settings)
      | inl same ↦
          let at : j ≡ ip = ground (arith, string_eq.matches_iff j ip) in
          let own : ((allow j now rl).1 ≡ ltb (count_of ip rl) rl.max_attempts)
              × (count_of ip rl' ≡ (
                  if ltb (count_of ip rl) rl.max_attempts
                  then suc (count_of ip rl)
                  else count_of ip rl)) =
            rw at (allow-own ip start now rl between.1 before) in
          ground (arith, own, rest, settings)
    ]

-- What `GetRemaining` says before a request tells whether `Allow` lets it through, for an address
-- whose count is 0 as long as it has no last attempt.
pub allow-get_remaining :
    (ip : String) (now : ℕ) (rl : RateLimiter)
    → (lookup ip rl.last_attempt ≡ none → or_zero (lookup ip rl.attempts) ≡ 0)
    → (allow ip now rl).1 ≡ ltb 0 (get_remaining ip now rl).0
unfolding allow get_remaining
allow-get_remaining ip now rl paired =
    ground (arith, lookup-insert ip ip 0 rl.attempts, string_eq.matches_iff ip ip, paired)
