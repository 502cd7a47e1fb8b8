-- ===== src/Tracker/Accounts.antt =====
-- The maps of maps that the Grok and the Kimi tracker keep for each account: `lastValues`,
-- `lastResets` and `hasLast` of internal/tracker/grok_tracker.go and internal/tracker/kimi_tracker.go.
use loomwatch.Prelude.{ℕ, String, Bool, false, Option, none, some, [], nat_eq, string_eq}
use loomwatch.Prelude.Dict.{Dict, lookup, insert}

-- `m[account]`, the empty map for a missing one.
abbrev pub inner : Option (Dict String ℕ) → Dict String ℕ
inner none = []
inner (some m) = m

abbrev pub set_inner : ℕ → String → ℕ → Dict ℕ (Dict String ℕ) → Dict ℕ (Dict String ℕ)
set_inner account quota v m = insert account (insert quota v (inner (lookup account m))) m

abbrev pub set_reset : ℕ → String → Option ℕ → Dict ℕ (Dict String ℕ) → Dict ℕ (Dict String ℕ)
set_reset account quota none m = m
set_reset account quota (some r) m = set_inner account quota r m

abbrev pub is_true : Option Bool → Bool
is_true none = false
is_true (some b) = b

abbrev pub or_zero : Option ℕ → ℕ
or_zero none = 0
or_zero (some v) = v

-- `t.lastValues[account][quota]`
abbrev pub last_value : ℕ → String → Dict ℕ (Dict String ℕ) → ℕ
last_value account quota m = or_zero (lookup quota (inner (lookup account m)))
