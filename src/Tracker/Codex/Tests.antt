-- ===== src/Tracker/Codex/Tests.antt =====
-- The Codex tracker on concrete snapshots, and its theorems there.
use loomwatch.Prelude.{
  ℕ, ◌*◌, ◌≡◌, refl, true, false, some, List, [], ◌∷◌, ok, arith, string_eq, nat_eq, pair_eq,
}
use loomwatch.Store.Cycles.{actives, active_row, new_cycle}
use loomwatch.Store.Cycles.Kept.{KeepsClosed}
use loomwatch.Store.Cycles.Writes.{AtMostOneActive}
use loomwatch.Tracker.Clock.{minute}
use loomwatch.Tracker.Codex.{
  CodexQuota, CodexSnapshot, CodexCycle, CodexTracker, CodexDb, process_quota, run,
}
use loomwatch.Tracker.Codex.History.{run-codex_history}
use loomwatch.Tracker.Codex.Rolling.{process_quota_rolling}

abbrev cycle : CodexCycle
cycle = record (new_cycle 1 (2, "five_hour") 100 (some (300 * minute))) {
  peak_requests = 40_000;
  total_delta = 15_000;
}

-- The second account has a cycle and a last value of 40 percent.
abbrev tracker : CodexTracker
tracker = record {
  db = record { rows = cycle ∷ []; next_id = 2; calls = 0; fails = λ n. false };
  last_values = ((2, "five_hour"), 40_000) ∷ [];
  last_resets = ((2, "five_hour"), 300 * minute) ∷ [];
  has_last = (2, true) ∷ [];
  on_reset = true;
  notified = [];
}

abbrev report : ℕ → ℕ → CodexQuota
report util reset = record { name = "five_hour"; utilization = util; resets_at = some reset }

-- A tracker that has started anew and remembers the account only by another quota.
abbrev unseen : CodexTracker
unseen = record tracker { last_values = ((2, "seven_day"), 10_000) ∷ [] }

abbrev empty_db : CodexDb
empty_db = record { rows = []; next_id = 1; calls = 0; fails = λ n. false }

abbrev snapshots : List CodexSnapshot
snapshots =
    (record { captured_at = 5; account_id = 0; quotas = report 1_000 (300 * minute) ∷ [] })
    ∷ (record { captured_at = 6; account_id = 2; quotas = report 9_000 (310 * minute) ∷ [] })
    ∷ []

run-codex_history_example :
    AtMostOneActive (run snapshots (record tracker { db = empty_db })).db.rows
    × KeepsClosed [] (run snapshots (record tracker { db = empty_db })).db.rows
unfolding actives
run-codex_history_example =
    run-codex_history snapshots (record tracker { db = empty_db }) (λ k. omega arith)

process_quota_rolling_example :
    ((process_quota 2 (report 41_000 (400 * minute)) 200 tracker).0 ≡ ok tt)
    × (active_row
          (2, "five_hour")
          (process_quota 2 (report 41_000 (400 * minute)) 200 tracker).1.db.rows
        ≡ some (record cycle {
          renews_at = some (400 * minute);
          peak_requests = 41_000;
          total_delta = 16_000;
        }))
    × ((process_quota 2 (report 41_000 (400 * minute)) 200 tracker).1.notified ≡ [])
unfolding active_row
process_quota_rolling_example =
    process_quota_rolling 2 (report 41_000 (400 * minute)) 200 (300 * minute) (400 * minute) 40_000
      tracker cycle refl (λ n. refl) refl (omega arith) refl refl refl (omega arith)
