-- ===== src/Tracker/Anthropic/Tests.antt =====
-- The Anthropic tracker on concrete snapshots, and its theorems there.
use loomwatch.Prelude.{
  ℕ, ◌+◌, ◌*◌, ◌≤◌, ◌≡◌, refl, String, true, false, Option, none, some, List, [], ◌∷◌, ok, arith,
  inl, ◌==◌, nat_eq, string_eq, get_elem?,
}
use loomwatch.Store.Cycles.{ResetCycle, active_row, actives, ended}
use loomwatch.Store.Cycles.Kept.{KeepsClosed}
use loomwatch.Store.Cycles.Writes.{AtMostOneActive}
use loomwatch.Tracker.Clock.{minute, hour}
use loomwatch.Tracker.Anthropic.{
  AnthropicQuota, AnthropicSnapshot, AnthropicTracker, process_quota, run,
}
use loomwatch.Tracker.Anthropic.Invariant.{run-history}
use loomwatch.Tracker.Anthropic.Recording.{opened}
use loomwatch.Tracker.Anthropic.Resets.{process_quota_moved}

abbrev active : ResetCycle String (Option ℕ)
active = record {
  id = 1;
  quota_type = "five_hour";
  cycle_start = 6 * hour;
  cycle_end = none;
  renews_at = some (11 * hour);
  peak_requests = 40;
  total_delta = 30;
}

abbrev tracker : AnthropicTracker
tracker = record {
  db = record { rows = active ∷ []; next_id = 2; calls = 0; fails = λ _. false };
  last_values = ("five_hour", 40) ∷ [];
  last_resets = [];
  has_last = true;
  on_reset = true;
  notified = [];
}

-- The second statement fails.
abbrev failing : AnthropicTracker
failing = record tracker { db = record tracker.db { fails = λ n. n == 1 } }

abbrev five_hour : ℕ → ℕ → AnthropicQuota
five_hour util resets = record { name = "five_hour"; utilization = util; resets_at = some resets }

abbrev snapshots : List AnthropicSnapshot
snapshots =
    record { captured_at = 10 * hour; quotas = five_hour 42 (11 * hour + minute) ∷ [] }
    ∷ record { captured_at = 12 * hour; quotas = five_hour 3 (16 * hour) ∷ [] }
    ∷ []

one_active : (k : String) → actives k tracker.db.rows ≤ 1
unfolding actives
one_active k = ground arith

run-history_example :
    AtMostOneActive (run snapshots failing).db.rows
    × KeepsClosed failing.db.rows (run snapshots failing).db.rows
run-history_example = run-history snapshots failing one_active

active_found : active_row "five_hour" tracker.db.rows ≡ some active
unfolding active_row
active_found = refl

process_quota_moved_example :
    let quota = five_hour 3 (16 * hour) in
    let (r, t') = process_quota quota (12 * hour) tracker in
    (r ≡ ok tt)
    × (get_elem? t'.db.rows 0 ≡ some (ended (11 * hour) 40 30 active))
    × (active_row "five_hour" t'.db.rows ≡ some (opened 2 (12 * hour) quota))
    × (t'.notified ≡ "five_hour" ∷ [])
process_quota_moved_example =
    process_quota_moved (five_hour 3 (16 * hour)) (12 * hour) tracker active 0 (11 * hour) 40
      active_found refl (λ n. refl) refl refl (inl (omega arith))
