-- ===== src/Tracker/Synthetic/Tests.antt =====
-- The Synthetic tracker on concrete snapshots, and its theorems there.
use loomwatch.Prelude.{
  ℕ, ◌+◌, ◌*◌, ◌≡◌, refl, String, Bool, true, false, none, some, List, [], ◌∷◌, ok, err, arith, inl,
  ◌==◌, nat_eq, string_eq, is_some, get_elem?, ◌≤◌,
}
use loomwatch.Store.Cycles.{
  ResetCycle, Db, query_active_cycle, update_cycle, active_row, actives, ended, updated,
}
use loomwatch.Store.Cycles.Writes.{AtMostOneActive}
use loomwatch.Tracker.Clock.{minute, hour}
use loomwatch.Tracker.Synthetic.{
  QuotaInfo, Snapshot, Slot, Tracker, update_failed, reset_detected, same_cycle, process_found,
  process_quota, run,
}
use loomwatch.Tracker.Synthetic.History.{run-AtMostOneActive}
use loomwatch.Tracker.Synthetic.Accounting.{
  active_peak, opened, process_quota-records, process_quota-err,
}
use loomwatch.Tracker.Synthetic.Reset.{process_quota_reset}
use loomwatch.Tracker.Synthetic.Deltas.{run_quota, run_quota_deltas}

abbrev info : ℕ → ℕ → QuotaInfo
info requests renews_at = record { limit = 100; requests = requests; renews_at = renews_at }

-- The first cycle is completed, the second is active and renews at ten o'clock.
abbrev active : ResetCycle String ℕ
active = record {
  id = 2;
  quota_type = "search";
  cycle_start = 9 * hour;
  cycle_end = none;
  renews_at = 10 * hour;
  peak_requests = 40;
  total_delta = 30;
}

abbrev old : ResetCycle String ℕ
old = record active {
  id = 1;
  cycle_start = 8 * hour;
  cycle_end = some (9 * hour);
  renews_at = 9 * hour;
}

abbrev db : (ℕ → Bool) → Db String ℕ
db fails = record { rows = old ∷ active ∷ []; next_id = 3; calls = 0; fails = fails }

abbrev slot : Slot
slot = record { db = db (λ _. false); last_requests = 35; notified = [] }

-- The second statement fails.
abbrev failing_slot : Slot
failing_slot = record slot { db = db (λ n. n == 1) }

abbrev tracker : Tracker
tracker = record {
  db = db (λ n. n == 1);
  last_sub_requests = 0;
  last_search_requests = 35;
  last_tool_requests = 0;
  has_last_values = true;
  on_reset = true;
  notified = [];
}

abbrev snapshots : List Snapshot
snapshots =
    record {
      captured_at = 9 * hour + minute;
      sub = info 1 (24 * hour);
      search = info 38 (10 * hour);
      tool_call = info 5 (24 * hour);
    }
    ∷ record {
      captured_at = 10 * hour + 3 * minute;
      sub = info 2 (24 * hour);
      search = info 4 (11 * hour);
      tool_call = info 5 (24 * hour);
    }
    ∷ []

one_active : (k : String) → actives k tracker.db.rows ≤ 1
unfolding actives
one_active k = ground arith

run-AtMostOneActive_example : AtMostOneActive (run snapshots tracker).db.rows
run-AtMostOneActive_example = run-AtMostOneActive snapshots tracker one_active

later_ok :
    (process_quota "search" (9 * hour + minute) (info 38 (10 * hour)) true true slot).0 ≡ ok tt
unfolding process_quota process_found same_cycle reset_detected query_active_cycle active_row
    update_cycle
later_ok = refl

fails_update :
    (process_quota "search" (9 * hour + minute) (info 38 (10 * hour)) true true failing_slot).0
    ≡ err update_failed
unfolding process_quota process_found same_cycle reset_detected query_active_cycle active_row
    update_cycle
fails_update = refl

active_found : active_row "search" slot.db.rows ≡ some active
unfolding active_row
active_found = refl

abbrev later : Slot
later = (process_quota "search" (9 * hour + minute) (info 38 (10 * hour)) true true slot).1

process_quota-records_example :
    (later.last_requests ≡ 38)
    × (is_some (active_row "search" later.db.rows) ≡ true)
    × (38 ≤ active_peak "search" later.db.rows)
process_quota-records_example =
    process_quota-records "search" (9 * hour + minute) (info 38 (10 * hour)) true true slot later_ok

process_quota-err_example :
    let s' =
      (process_quota "search" (9 * hour + minute) (info 38 (10 * hour)) true true failing_slot).1 in
    (s'.last_requests ≡ 35) × (s'.notified ≡ [])
process_quota-err_example =
    process_quota-err "search" (9 * hour + minute) (info 38 (10 * hour)) true true failing_slot
      update_failed fails_update

-- A poll after ten o'clock and the grace period.
abbrev reset_at : ℕ
reset_at = 10 * hour + 3 * minute

process_quota_reset_example :
    let (r, s') = process_quota "search" reset_at (info 4 (11 * hour)) true true slot in
    (r ≡ ok tt)
    × (get_elem? s'.db.rows 1 ≡ some (ended (10 * hour) 40 30 active))
    × (active_row "search" s'.db.rows ≡ some (opened 3 "search" reset_at (info 4 (11 * hour))))
    × (s'.notified ≡ "search" ∷ [])
process_quota_reset_example =
    process_quota_reset "search" reset_at (info 4 (11 * hour)) true true slot 1 active active_found
      refl (λ n. refl) (inl (omega arith))

abbrev reports : List (ℕ × QuotaInfo)
reports =
    (9 * hour + minute, info 38 (10 * hour))
    ∷ (9 * hour + 2 * minute, info 37 (10 * hour + 5 * minute))
    ∷ (9 * hour + 3 * minute, info 45 (10 * hour + 6 * minute))
    ∷ []

run_quota_deltas_example :
    active_row "search" (run_quota "search" true reports slot).db.rows ≡ some (updated 45 41 active)
run_quota_deltas_example =
    run_quota_deltas "search" true reports slot active active_found (λ n. refl) (omega arith)
