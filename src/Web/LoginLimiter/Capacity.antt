-- ===== src/Web/LoginLimiter/Capacity.antt =====
-- How many IPs are tracked.
use loomwatch.Prelude.{
  ℕ, ◌≤◌, ◌<◌, ◌≡◌, refl, String, true, false, Option, none, some, [], ◌∷◌, arith, ◌⊎◌, inl, inr,
  ◌==◌, nat_eq, string_eq, length, is_some, Bool-cases,
}
use loomwatch.Prelude.Dict.{Dict, lookup, lookup-insert, length-insert, length-erase-lt}
use loomwatch.Web.LoginLimiter.Blocks.{absent-Pinned, oldest-ne}
use loomwatch.Web.LoginLimiter.{
  LoginAttempt, LoginRateLimiter, is_pinned, oldest, entry_of, count_failure, no_attempt,
  evict_oldest_entry, with_entry, record_failure,
}

-- Every entry is blocked at the time.
abbrev pub AllBlocked : ℕ → Dict String LoginAttempt → Type 0
AllBlocked now [] = Unit
AllBlocked now ((ip, entry) ∷ m) = (is_pinned now entry ≡ true) × AllBlocked now m

-- What the search for the oldest entry has found is in the map, or it was there before.
oldest-found :
    (now : ℕ) (m : Dict String LoginAttempt) (ip : String) (time : Option ℕ)
    → ((oldest now m (ip, time)).0 ≡ ip) ⊎ (is_some (lookup (oldest now m (ip, time)).0 m) ≡ true)
unfolding oldest
oldest-found now [] ip time = inl refl
oldest-found now ((i, entry) ∷ m) ip time = ground (
  arith,
  string_eq.matches_iff i i,
  oldest-found now m i (some entry.last_fail),
  oldest-found now m ip time,
)

-- Where no entry stands under the empty IP, the search comes back empty only if all are blocked.
oldest-AllBlocked :
    (now : ℕ) (m : Dict String LoginAttempt)
    → lookup "" m ≡ none
    → ((oldest now m ("", none)).0 == "") ≡ true
    → AllBlocked now m
unfolding oldest
oldest-AllBlocked now [] absent h = tt
oldest-AllBlocked now ((i, entry) ∷ m) absent h = ground (
  arith,
  oldest-ne "" now m i (some entry.last_fail) (absent-Pinned "" now m (ground arith)),
  oldest-AllBlocked now m (ground arith),
)

length-evict_oldest_entry :
    (now : ℕ) (m : Dict String LoginAttempt)
    → lookup "" m ≡ none
    → AllBlocked now m ⊎ (length (evict_oldest_entry now m) < length m)
unfolding evict_oldest_entry
length-evict_oldest_entry now m absent =
    let ip = (oldest now m ("", none)).0 in
    elim (Bool-cases (ip == "")) [
      | inl nothing ↦ inl (oldest-AllBlocked now m absent nothing)
      | inr some_ip ↦
          ground
            (arith, string_eq.matches_iff ip "", oldest-found now m "" none, length-erase-lt ip m)
    ]

-- A failure keeps the number of tracked IPs within the limit, where no entry stands under the
-- empty IP, unless every entry is blocked at the time.
pub record_failure-capacity :
    (ip : String) (now : ℕ) (l : LoginRateLimiter)
    → lookup "" l.attempts ≡ none
    → length l.attempts ≤ l.max_ips
    → AllBlocked now l.attempts
      ⊎ (length (record_failure ip now l).0.attempts ≤ (record_failure ip now l).0.max_ips)
unfolding record_failure with_entry
record_failure-capacity ip now l absent within =
    let room = evict_oldest_entry now l.attempts in
    let m = with_entry ip now l in
    ground (
      arith,
      string_eq.matches_iff ip ip,
      length-evict_oldest_entry now l.attempts absent,
      length-insert ip no_attempt l.attempts,
      length-insert ip no_attempt room,
      lookup-insert ip ip no_attempt l.attempts,
      lookup-insert ip ip no_attempt room,
      length-insert ip (count_failure now (entry_of ip m)) m,
    )

-- Every entry failed at the time or later.
abbrev pub AllSince : ℕ → Dict String LoginAttempt → Type 0
AllSince t [] = Unit
AllSince t ((ip, entry) ∷ m) = (t ≤ entry.last_fail) × AllSince t m

oldest-AllSince :
    (now : ℕ) (m : Dict String LoginAttempt) (ip : String) (t : ℕ)
    → AllSince t m
    → oldest now m (ip, some t) ≡ (ip, some t)
unfolding oldest
oldest-AllSince now [] ip t h = refl
oldest-AllSince now ((i, entry) ∷ m) ip t h = ground (arith, oldest-AllSince now m ip t h.1)

oldest-first :
    (now : ℕ) (ip : String) (entry : LoginAttempt) (m : Dict String LoginAttempt)
    → is_pinned now entry ≡ false
    → AllSince entry.last_fail m
    → oldest now ((ip, entry) ∷ m) ("", none) ≡ (ip, some entry.last_fail)
unfolding oldest
oldest-first now ip entry m free first = rw free (oldest-AllSince now m ip entry.last_fail first)

-- An entry under the empty IP that is not blocked and is the oldest is never evicted, nor is
-- another in its place: the map is as it was.
pub evict_empty_ip :
    (now : ℕ) (entry : LoginAttempt) (m : Dict String LoginAttempt)
    → is_pinned now entry ≡ false
    → AllSince entry.last_fail m
    → evict_oldest_entry now (("", entry) ∷ m) ≡ ("", entry) ∷ m
unfolding evict_oldest_entry
evict_empty_ip now entry m free first =
    rw (oldest-first now "" entry m free first, evict_oldest_entry)
