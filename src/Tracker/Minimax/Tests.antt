-- ===== src/Tracker/Minimax/Tests.antt =====
-- The MiniMax tracker on a change of plan, and its theorems there.
use loomwatch.Prelude.{
  ℕ, ◌*◌, ◌≡◌, refl, String, true, false, none, some, [], ◌∷◌, arith, nat_eq, string_eq, pair_eq,
}
use loomwatch.Store.Cycles.{actives}
use loomwatch.Store.Cycles.Kept.{KeepsClosed}
use loomwatch.Store.Cycles.Writes.{AtMostOneActive}
use loomwatch.Tracker.Clock.{hour}
use loomwatch.Tracker.Minimax.{
  MinimaxSnapshot, MinimaxTracker, MinimaxCycle, MinimaxModelQuota, run, process, active_models,
}
use loomwatch.Tracker.Minimax.History.{run-minimax_history}
use loomwatch.Tracker.Minimax.Stale.{process_closes_stale}

abbrev cycle : ℕ → ℕ → String → MinimaxCycle
cycle i account name = record {
  id = i;
  quota_type = (account, name);
  cycle_start = 6 * hour;
  cycle_end = none;
  renews_at = some (11 * hour);
  peak_requests = 40;
  total_delta = 30;
}

abbrev tracker : MinimaxTracker
tracker = record {
  db = record {
    rows = cycle 1 4 "m1" ∷ cycle 2 4 "m2" ∷ cycle 3 5 "m1" ∷ [];
    next_id = 4;
    calls = 0;
    fails = λ _. false;
  };
  last_used = ((4, "m1"), 40) ∷ [];
  last_reset_at = [];
  has_last_value = ((4, "m1"), true) ∷ [];
  on_reset = true;
  notified = [];
}

abbrev quota : String → ℕ → MinimaxModelQuota
quota name used = record {
  model_name = name;
  total = 2 * used;
  used = used;
  reset_at = some (16 * hour);
}

-- The account has one general quota now; the old model stands there with no allocation.
abbrev changed : MinimaxSnapshot
changed = record { captured_at = 10 * hour; models = quota "m1" 0 ∷ quota "general" 7 ∷ [] }

one_active : AtMostOneActive tracker.db.rows
unfolding actives
one_active k = ground (
  arith,
  string_eq.matches_iff "m1" k.1,
  string_eq.matches_iff "m2" k.1,
  string_eq.matches_iff "m1" "m2",
)

run-minimax_history_example :
    AtMostOneActive (run ((4, changed) ∷ []) tracker).db.rows
    × KeepsClosed tracker.db.rows (run ((4, changed) ∷ []) tracker).db.rows
run-minimax_history_example = run-minimax_history ((4, changed) ∷ []) tracker one_active

some_model : active_models changed.models ≡ "general" ∷ []
unfolding active_models
some_model = refl

process_closes_stale_example : actives (4, "m1") (process changed 4 tracker).1.db.rows ≡ 0
process_closes_stale_example =
    process_closes_stale 4 changed tracker "m1" (λ n. refl) (λ e. ground (arith, some_model))
      (rw some_model refl)
