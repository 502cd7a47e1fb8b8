-- ===== src/Web/LoginLimiter/Blocks.antt =====
-- A block lasts: while it has not run out, no call but `Clear` for its IP lifts it.
use loomwatch.Prelude.{
  ℕ, ◌+◌, ◌≤◌, ◌<◌, ◌≡◌, refl, String, true, false, Option, none, some, List, [], ◌∷◌, arith, ◌==◌,
  nat_eq, string_eq,
}
use loomwatch.Prelude.Dict.{
  Dict, lookup, IsMap, lookup-insert, lookup-erase, insert-IsMap, erase-IsMap,
}
use loomwatch.Web.LoginLimiter.{
  LoginAttempt, LoginRateLimiter, block_duration, is_pinned, entry_of, count_failure, oldest,
  evict_oldest_entry, with_entry, no_attempt, record_failure, is_blocked, clear, fresh_entries,
  evict_stale_entries,
}

-- When the block of an IP began, 0 if it has none.
abbrev pub blocked_since : String → Dict String LoginAttempt → ℕ
blocked_since j m = elim (lookup j m) [ none ↦ 0 | some entry ↦ entry.blocked_at ]

-- Every entry of the IP is pinned.
abbrev pub Pinned : String → ℕ → Dict String LoginAttempt → Type 0
Pinned j now [] = Unit
Pinned j now ((ip, entry) ∷ m) = ((ip == j) ≡ true → is_pinned now entry ≡ true) × Pinned j now m

pub absent-Pinned :
    (j : String) (now : ℕ) (m : Dict String LoginAttempt) → lookup j m ≡ none → Pinned j now m
absent-Pinned j now [] h = tt
absent-Pinned j now ((ip, entry) ∷ m) h = ground (arith, absent-Pinned j now m)

blocked-Pinned :
    (j : String) (now : ℕ) (m : Dict String LoginAttempt)
    → IsMap m
    → 0 < blocked_since j m
    → now < blocked_since j m + block_duration
    → Pinned j now m
blocked-Pinned j now [] h p q = tt
blocked-Pinned j now ((ip, entry) ∷ m) h p q =
    ground (arith, string_eq.matches_iff ip j, absent-Pinned j now m, blocked-Pinned j now m h.1)

-- The eviction never picks a pinned IP.
pub oldest-ne :
    (j : String) (now : ℕ) (m : Dict String LoginAttempt) (ip : String) (time : Option ℕ)
    → Pinned j now m
    → (ip == j) ≡ false
    → ((oldest now m (ip, time)).0 == j) ≡ false
unfolding oldest
oldest-ne j now [] ip time p h = h
oldest-ne j now ((i, entry) ∷ m) ip time p h =
    ground (arith, oldest-ne j now m i (some entry.last_fail) p.1, oldest-ne j now m ip time p.1)

lookup-evict_oldest_entry :
    (j : String) (now : ℕ) (m : Dict String LoginAttempt)
    → Pinned j now m
    → lookup j (evict_oldest_entry now m) ≡ lookup j m
unfolding evict_oldest_entry
lookup-evict_oldest_entry j now m p =
    let ip = (oldest now m ("", none)).0 in
    ground (
      arith,
      string_eq.matches_iff "" j,
      string_eq.matches_iff ip j,
      string_eq.matches_iff ip "",
      lookup-erase ip j m,
      oldest-ne j now m "" none p,
    )

evict_oldest_entry-IsMap :
    (now : ℕ) (m : Dict String LoginAttempt) → IsMap m → IsMap (evict_oldest_entry now m)
unfolding evict_oldest_entry
evict_oldest_entry-IsMap now m h = ground (arith, erase-IsMap (oldest now m ("", none)).0 m h)

lookup-fresh_entries-none :
    (j : String) (max_age now : ℕ) (m : Dict String LoginAttempt)
    → lookup j m ≡ none
    → lookup j (fresh_entries max_age now m) ≡ none
unfolding fresh_entries
lookup-fresh_entries-none j max_age now [] h = refl
lookup-fresh_entries-none j max_age now ((ip, entry) ∷ m) h =
    ground (arith, lookup-fresh_entries-none j max_age now m)

fresh_entries-IsMap :
    (max_age now : ℕ) (m : Dict String LoginAttempt) → IsMap m → IsMap (fresh_entries max_age now m)
unfolding fresh_entries
fresh_entries-IsMap max_age now [] h = tt
fresh_entries-IsMap max_age now ((ip, entry) ∷ m) h =
    ground
      (arith, fresh_entries-IsMap max_age now m h.1, lookup-fresh_entries-none ip max_age now m h.0)

lookup-fresh_entries :
    (j : String) (max_age now : ℕ) (m : Dict String LoginAttempt)
    → Pinned j now m
    → lookup j (fresh_entries max_age now m) ≡ lookup j m
unfolding fresh_entries
lookup-fresh_entries j max_age now [] p = refl
lookup-fresh_entries j max_age now ((ip, entry) ∷ m) p =
    ground (arith, lookup-fresh_entries j max_age now m p.1)

-- What a client of the limiter calls, and when.
pub data Call : Type 0 where
  records checks clears : String → Call
  evicts : ℕ → Call

abbrev pub step : ℕ × Call → LoginRateLimiter → LoginRateLimiter
step (now, records ip) l = (record_failure ip now l).0
step (now, checks ip) l = (is_blocked ip now l).0
step (now, clears ip) l = clear ip l
step (now, evicts max_age) l = evict_stale_entries max_age now l

unfoldable pub run : List (ℕ × Call) → LoginRateLimiter → LoginRateLimiter
run [] l = l
run (c ∷ cs) l = run cs (step c l)

-- A call before `limit` that does not clear the IP.
abbrev pub Spares : String → ℕ → ℕ × Call → Type 0
Spares j limit (now, clears ip) = (ip == j) ≡ false
Spares j limit (now, _) = now < limit

abbrev pub AllSpare : String → ℕ → List (ℕ × Call) → Type 0
AllSpare j limit [] = Unit
AllSpare j limit (c ∷ cs) = Spares j limit c × AllSpare j limit cs

module _ (j : String) (since : ℕ) (positive : 0 < since) where
  -- The IP is blocked since the given time, and the entries are a map.
  pub record IsHeld (l : LoginRateLimiter) : Type 0 where
    pub keys : IsMap l.attempts
    pub held : blocked_since j l.attempts ≡ since

  with_entry-IsHeld :
      (ip : String) (now : ℕ) (l : LoginRateLimiter)
      → now < since + block_duration
      → IsHeld l
      → IsMap (with_entry ip now l) × (blocked_since j (with_entry ip now l) ≡ since)
  unfolding with_entry
  with_entry-IsHeld ip now l early h =
      let pinned = blocked-Pinned j now l.attempts h.keys (rw h.held positive) (rw h.held early) in
      let room = evict_oldest_entry now l.attempts in
      ground (
        arith,
        h,
        string_eq.matches_iff ip j,
        evict_oldest_entry-IsMap now l.attempts h.keys,
        insert-IsMap ip no_attempt l.attempts h.keys,
        insert-IsMap ip no_attempt room,
        lookup-evict_oldest_entry j now l.attempts pinned,
        lookup-insert ip j no_attempt l.attempts,
        lookup-insert ip j no_attempt room,
      )

  record_failure-IsHeld :
      (ip : String) (now : ℕ) (l : LoginRateLimiter)
      → now < since + block_duration
      → IsHeld l
      → IsHeld (record_failure ip now l).0
  unfolding record_failure
  record_failure-IsHeld ip now l early h =
      let m = with_entry ip now l in
      let before = with_entry-IsHeld ip now l early h in
      let entry = count_failure now (entry_of ip m) in
      ground (
        arith,
        before,
        positive,
        string_eq.matches_iff ip j,
        insert-IsMap ip entry m before.0,
        lookup-insert ip j entry m,
      )

  is_blocked-IsHeld :
      (ip : String) (now : ℕ) (l : LoginRateLimiter)
      → now < since + block_duration
      → IsHeld l
      → IsHeld (is_blocked ip now l).0
  unfolding is_blocked
  is_blocked-IsHeld ip now l early h =
      let entry = record (entry_of ip l.attempts) { failures = 0; blocked_at = 0 } in
      ground (
        arith,
        h,
        positive,
        string_eq.matches_iff ip j,
        insert-IsMap ip entry l.attempts h.keys,
        lookup-insert ip j entry l.attempts,
      )

  step-IsHeld :
      (c : ℕ × Call) (l : LoginRateLimiter)
      → Spares j (since + block_duration) c
      → IsHeld l
      → IsHeld (step c l)
  unfolding clear evict_stale_entries
  step-IsHeld (now, records ip) l early h = record_failure-IsHeld ip now l early h
  step-IsHeld (now, checks ip) l early h = is_blocked-IsHeld ip now l early h
  step-IsHeld (now, clears ip) l other h =
      ground (arith, h, erase-IsMap ip l.attempts h.keys, lookup-erase ip j l.attempts)
  step-IsHeld (now, evicts max_age) l early h =
      let pinned = blocked-Pinned j now l.attempts h.keys (rw h.held positive) (rw h.held early) in
      ground (
        arith,
        h,
        fresh_entries-IsMap max_age now l.attempts h.keys,
        lookup-fresh_entries j max_age now l.attempts pinned,
      )

  run-IsHeld :
      (calls : List (ℕ × Call)) (l : LoginRateLimiter)
      → AllSpare j (since + block_duration) calls
      → IsHeld l
      → IsHeld (run calls l)
  unfolding run
  run-IsHeld [] l spare h = h
  run-IsHeld (c ∷ cs) l spare h = run-IsHeld cs (step c l) spare.1 (step-IsHeld c l spare.0 h)

  is_blocked_of_IsHeld :
      (now : ℕ) (l : LoginRateLimiter)
      → now < since + block_duration
      → IsHeld l
      → (is_blocked j now l).1 ≡ true
  unfolding is_blocked
  is_blocked_of_IsHeld now l early h = ground (arith, h, positive)

-- An IP whose block began at a positive time stays blocked for five minutes: whatever failures,
-- checks and evictions of it and of other IPs come before the block runs out, as long as none of
-- them clears it.
pub run_keeps_block :
    (j : String) (since now : ℕ) (calls : List (ℕ × Call)) (l : LoginRateLimiter)
    → IsMap l.attempts
    → 0 < since
    → blocked_since j l.attempts ≡ since
    → AllSpare j (since + block_duration) calls
    → now < since + block_duration
    → (is_blocked j now (run calls l)).1 ≡ true
run_keeps_block j since now calls l keys positive held spare early =
    is_blocked_of_IsHeld j since positive now (run calls l) early
      (run-IsHeld j since positive calls l spare (record { keys = keys; held = held }))

-- An IP that has no block, or whose block has run out, passes the check, which leaves it with no
-- block.
pub is_blocked_expired :
    (ip : String) (now : ℕ) (l : LoginRateLimiter)
    → blocked_since ip l.attempts + block_duration ≤ now
    → let (l', blocked) = is_blocked ip now l in
      (blocked ≡ false) × (blocked_since ip l'.attempts ≡ 0)
unfolding is_blocked
is_blocked_expired ip now l late =
    let entry = record (entry_of ip l.attempts) { failures = 0; blocked_at = 0 } in
    ground (arith, string_eq.matches_iff ip ip, lookup-insert ip ip entry l.attempts)
