-- ===== src/Tracker/Grok/Tests.antt =====
-- A witness of the theorem on Grok's cycles, and a test: a usage that grows from 10 to 80 percent and
-- is reset leaves a closed cycle with the first value as its peak and no delta.
use loomwatch.Prelude.{ℕ, ◌≡◌, refl, true, false, Option, none, some, List, [], ◌∷◌, map}
use loomwatch.Store.AccountCycles.{
  AccountCycle, IsUntracked, query_active_grok_reset_cycle, insert_grok_reset_cycle,
  update_grok_reset_cycle_end,
}
use loomwatch.Tracker.Grok.{
  GrokSnapshot, GrokTracker, init_last, reset_detected, roll_over, carry_on, process_found,
  process_quota, process_quotas, process, run,
}
use loomwatch.Tracker.Grok.Totals.{grok_run-IsUntracked}

abbrev fresh : GrokTracker
fresh = record {
  db = record { rows = []; next_id = 1; calls = 0; fails = λ n. false };
  last_values = [];
  last_resets = [];
  has_last = [];
  on_reset = true;
  notified = [];
}

abbrev seen : ℕ → ℕ → GrokSnapshot
seen at util = record {
  account_id = 0;
  captured_at = at;
  quotas = (record { name = "credits"; utilization = util; resets_at = none }) ∷ [];
}

abbrev growing : List GrokSnapshot
growing = seen 1 10_000 ∷ seen 2 60_000 ∷ seen 3 80_000 ∷ seen 4 5_000 ∷ []

abbrev numbers : AccountCycle → Option ℕ × ℕ × ℕ
numbers c = (c.cycle_end, c.peak_utilization, c.total_delta)

first_peak_only :
    map numbers (run growing fresh).db.rows ≡ (some 4, 10_000, 0) ∷ (none, 5_000, 0) ∷ []
unfolding run process process_quotas process_quota process_found roll_over carry_on reset_detected
    init_last query_active_grok_reset_cycle insert_grok_reset_cycle update_grok_reset_cycle_end
first_peak_only = refl

grok_run-IsUntracked_example : IsUntracked (run growing fresh).db.rows
grok_run-IsUntracked_example = grok_run-IsUntracked growing fresh tt
