-- ===== src/Tracker/Zai/Tests.antt =====
-- The Z.ai tracker on concrete snapshots of two accounts, and its theorems there.
use loomwatch.Prelude.{
  ℕ, ◌*◌, ◌≡◌, refl, String, true, false, none, some, List, [], ◌∷◌, arith, inr, ◌||◌, nat_eq,
  string_eq, pair_eq, get_elem?, Option, ◌==◌,
}
use loomwatch.Store.Cycles.{
  actives, ended, create_cycle, close_cycle, update_cycle, query_active_cycle, active_row,
  insert_row, close_rows, update_rows,
}
use loomwatch.Store.Cycles.Kept.{KeepsClosed}
use loomwatch.Store.Cycles.Writes.{AtMostOneActive}
use loomwatch.Tracker.Clock.{hour}
use loomwatch.Tracker.Zai.{
  ZaiSnapshot, ZaiTracker, ZaiCycle, run, process, process_tokens_quota, process_time_quota,
  tokens_found, time_found, start_tokens, roll_tokens, same_tokens, final_tokens, start_time,
  roll_time, same_time, update_stats, grown, tokens_reset, time_reset, cycle_end_time,
  resolve_zai_account, create_zai_cycle, close_zai_cycle, update_zai_cycle, query_active_zai_cycle,
}
use loomwatch.Tracker.Zai.History.{run-zai_history}
use loomwatch.Tracker.Zai.Isolation.{SameAccount, IsFree, run_other_accounts}

abbrev cycle : ℕ → ℕ → ZaiCycle
cycle i account = record {
  id = i;
  quota_type = (account, "tokens");
  cycle_start = 6 * hour;
  cycle_end = none;
  renews_at = some (11 * hour);
  peak_requests = 40;
  total_delta = 30;
}

abbrev tracker : ZaiTracker
tracker = record {
  db = record { rows = cycle 1 3 ∷ cycle 2 7 ∷ []; next_id = 3; calls = 0; fails = λ _. false };
  last_tokens_value = (0, 40_000) ∷ (7, 38_000) ∷ [];
  last_time_value = (7, 5_000) ∷ [];
  has_last_values = (0, true) ∷ (7, true) ∷ [];
  on_reset = true;
  notified = [];
}

-- An account before and after the reset of its tokens.
abbrev feed : ℕ → List (ℕ × ZaiSnapshot)
feed account =
    (
      account,
      record {
        captured_at = 10 * hour;
        time_current_value = 2_000;
        tokens_current_value = 45_000;
        tokens_next_reset_time = some (11 * hour);
      },
    )
    ∷ (
      account,
      record {
        captured_at = 12 * hour;
        time_current_value = 3_000;
        tokens_current_value = 1_500;
        tokens_next_reset_time = some (16 * hour);
      },
    )
    ∷ []

-- The default account is 3 throughout.
abbrev third : ℕ → Option ℕ
third n = some 3

one_active : AtMostOneActive tracker.db.rows
unfolding actives
one_active k =
    ground (arith, (pair_eq {A = ℕ} {B = String}).matches_iff (3, "tokens") (7, "tokens"))

run-zai_history_example :
    AtMostOneActive (run third (feed 3) tracker).db.rows
    × KeepsClosed tracker.db.rows (run third (feed 3) tracker).db.rows
run-zai_history_example =
    run-zai_history third (feed 3) tracker (omega arith, (omega arith, tt)) one_active

others : IsFree third 7 (feed 0)
others = (
  (λ e. ground arith, inr (λ n e. ground arith)),
  ((λ e. ground arith, inr (λ n e. ground arith)), tt),
)

run_other_accounts_example : SameAccount 7 tracker (run third (feed 0) tracker)
run_other_accounts_example = run_other_accounts third 7 (feed 0) tracker (omega arith) others

-- The cycle of the default account ended at its reset time, with the use of the first snapshot.
first_ended :
    get_elem? (run third (feed 0) tracker).db.rows 0 ≡ some (ended (11 * hour) 45 35 (cycle 1 3))
unfolding run process process_tokens_quota query_active_zai_cycle query_active_cycle tokens_found
    active_row resolve_zai_account tokens_reset same_tokens update_stats update_zai_cycle
    update_cycle process_time_quota time_found update_rows grown cycle_end_time roll_tokens
    close_zai_cycle close_cycle close_rows create_zai_cycle create_cycle insert_row start_tokens
    start_time same_time roll_time time_reset final_tokens
first_ended = refl

notified_once : (run third (feed 0) tracker).notified ≡ "tokens" ∷ []
unfolding run process process_tokens_quota query_active_zai_cycle query_active_cycle tokens_found
    active_row resolve_zai_account tokens_reset same_tokens update_stats update_zai_cycle
    update_cycle process_time_quota time_found update_rows grown cycle_end_time roll_tokens
    close_zai_cycle close_cycle close_rows create_zai_cycle create_cycle insert_row start_tokens
    start_time same_time roll_time time_reset final_tokens
notified_once = refl

-- A lookup that fails between the query and the insert files a cycle under 0; a second one files
-- another there, beside it.
abbrev unreliable : ZaiTracker
unreliable = record tracker {
  db = record { rows = []; next_id = 1; calls = 0; fails = λ n. n == 2 || n == 14 };
}

two_active : actives (0, "tokens") (run third (feed 0) unreliable).db.rows ≡ 2
unfolding actives run process process_tokens_quota query_active_zai_cycle query_active_cycle
    tokens_found active_row resolve_zai_account tokens_reset same_tokens update_stats
    update_zai_cycle update_cycle process_time_quota time_found update_rows grown cycle_end_time
    roll_tokens close_zai_cycle close_cycle close_rows create_zai_cycle create_cycle insert_row
    start_tokens start_time same_time roll_time time_reset final_tokens
two_active = refl
