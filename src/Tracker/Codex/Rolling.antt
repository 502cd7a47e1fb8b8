-- ===== src/Tracker/Codex/Rolling.antt =====
-- Rolling reset times: when a moved reset time continues a Codex cycle, and when it ends one.
use loomwatch.Prelude.{
  ℕ, suc, ◌+◌, ◌-◌, ◌*◌, max, ◌^◌, ◌≤◌, ◌<◌, ◌≡◌, refl, ◌∙◌, ap, true, false, none, some, ◌∷◌, ok,
  arith, string_eq, nat_eq, pair_eq, if◌then◌else◌,
}
use loomwatch.Store.Cycles.{new_cycle, updated, active_row}
use loomwatch.Tracker.Clock.{minute, shifted_beyond, shifted_beyond_lem}
use loomwatch.Tracker.Synthetic.{add_positive}
use loomwatch.Tracker.Codex.{
  CodexQuota, CodexTracker, CodexCycle, memory_of, or_default, material_drop, drops, time_passed,
  reset_moved, reset_found, grown, process_quota,
}
use loomwatch.Tracker.Codex.Branches.{
  continues, roll_over_lem, rolls, same_cycle_lem, with_reset, with_usage,
}

-- The delta grows by the increase, if there is one, and the peak is the higher of the two.
grown_lem :
    (last util : ℕ) (c : CodexCycle)
    → grown last util c ≡ (record c {
      peak_requests = max c.peak_requests util;
      total_delta = c.total_delta + (util - last);
    })
unfolding add_positive
grown_lem last util c = ground arith

-- In a cycle whose reset time has not passed by more than two minutes, after an earlier value of
-- the quota, while no statement fails: a report that is no more than two points below that value and
-- has a reset time continues the cycle, however far that time has moved; the cycle takes the new
-- reset time, its delta grows by the increase, if there is one, its peak rises to the reported use
-- where that is higher, and no reset is reported.
pub process_quota_rolling :
    (account : ℕ) (quota : CodexQuota) (captured_at old new last : ℕ) (t : CodexTracker)
    (c : CodexCycle)
    → active_row (or_default account, quota.name) t.db.rows ≡ some c
    → ((n : ℕ) → t.db.fails n ≡ false)
    → c.renews_at ≡ some old
    → captured_at ≤ old + 2 * minute
    → quota.resets_at ≡ some new
    → (memory_of t account quota.name).has_last ≡ true
    → (memory_of t account quota.name).value ≡ some last
    → last ≤ quota.utilization + material_drop
    → ((process_quota account quota captured_at t).0 ≡ ok tt)
      × (active_row
            (or_default account, quota.name)
            (process_quota account quota captured_at t).1.db.rows
          ≡ some (record c {
            renews_at = some new;
            peak_requests = max c.peak_requests quota.utilization;
            total_delta = c.total_delta + (quota.utilization - last);
          }))
      × ((process_quota account quota captured_at t).1.notified ≡ t.notified)
unfolding reset_found time_passed drops
process_quota_rolling account quota captured_at old new last t c found fine stored early reported
      has known near =
    let m = memory_of t account quota.name in
    let t' : CodexTracker = record t { db = record t.db { calls = suc t.db.calls } } in
    let kept : reset_found captured_at quota m c.renews_at ≡ false = ground arith in
    let same = same_cycle_lem account quota t' c m found fine in
    let branch = continues account quota t captured_at c (fine t.db.calls) found kept in
    let told : with_reset quota.resets_at c ≡ (record c { renews_at = some new }) =
      ap (λ r. with_reset r c) reported in
    let c' : CodexCycle = record c { renews_at = some new } in
    let cycle : with_usage m quota.utilization (with_reset quota.resets_at c) ≡ (record c' {
      peak_requests = max c.peak_requests quota.utilization;
      total_delta = c.total_delta + (quota.utilization - last);
    }) =
      ap (with_usage m quota.utilization) told
      ∙ rw (has, known) refl
      ∙ grown_lem last quota.utilization c' in
    rw branch (same.0, same.1 ∙ ap some cycle, same.2)

-- In the same cycle, for a quota that has no value yet in an account that has had a snapshot: the
-- report only sets the reset time, and a use above the peak is not written to the cycle.
pub process_quota_unseen :
    (account : ℕ) (quota : CodexQuota) (captured_at old new : ℕ) (t : CodexTracker) (c : CodexCycle)
    → active_row (or_default account, quota.name) t.db.rows ≡ some c
    → ((n : ℕ) → t.db.fails n ≡ false)
    → c.renews_at ≡ some old
    → captured_at ≤ old + 2 * minute
    → quota.resets_at ≡ some new
    → (memory_of t account quota.name).has_last ≡ true
    → (memory_of t account quota.name).value ≡ none
    → c.peak_requests < quota.utilization
    → active_row
        (or_default account, quota.name)
        (process_quota account quota captured_at t).1.db.rows
      ≡ some (record c { renews_at = some new })
unfolding reset_found time_passed drops
process_quota_unseen account quota captured_at old new t c found fine stored early reported has
      unknown higher =
    let m = memory_of t account quota.name in
    let t' : CodexTracker = record t { db = record t.db { calls = suc t.db.calls } } in
    let kept : reset_found captured_at quota m c.renews_at ≡ false = ground arith in
    let same = same_cycle_lem account quota t' c m found fine in
    let branch = continues account quota t captured_at c (fine t.db.calls) found kept in
    let told : with_reset quota.resets_at c ≡ (record c { renews_at = some new }) =
      ap (λ r. with_reset r c) reported in
    let cycle : with_usage m quota.utilization (with_reset quota.resets_at c)
        ≡ (record c { renews_at = some new }) =
      ap (with_usage m quota.utilization) told ∙ rw (has, unknown) refl in
    rw branch (same.1 ∙ ap some cycle)

-- A report that is more than two points below the last value and whose reset time is more than an
-- hour from the last one known, while no statement fails: it starts a new active cycle that holds
-- the reported use, and reports the reset once if a callback is registered.
pub process_quota_dropped :
    (account : ℕ) (quota : CodexQuota) (captured_at old new last known_reset : ℕ) (t : CodexTracker)
    (c : CodexCycle)
    → active_row (or_default account, quota.name) t.db.rows ≡ some c
    → ((n : ℕ) → t.db.fails n ≡ false)
    → c.renews_at ≡ some old
    → quota.resets_at ≡ some new
    → (memory_of t account quota.name).has_last ≡ true
    → (memory_of t account quota.name).value ≡ some last
    → (memory_of t account quota.name).reset ≡ some known_reset
    → quota.utilization + material_drop < last
    → known_reset + 60 * minute < new
    → new < known_reset + 2 ^ 63
    → ((process_quota account quota captured_at t).0 ≡ ok tt)
      × (active_row
            (or_default account, quota.name)
            (process_quota account quota captured_at t).1.db.rows
          ≡ some (
              updated quota.utilization 0 (
                new_cycle t.db.next_id
                  (or_default account, quota.name)
                  captured_at
                  quota.resets_at)))
      × ((process_quota account quota captured_at t).1.notified
          ≡ (if t.on_reset then quota.name ∷ t.notified else t.notified))
unfolding reset_found time_passed drops reset_moved
process_quota_dropped account quota captured_at old new last known_reset t c found fine stored
      reported has known remembered dropped moved near =
    let m = memory_of t account quota.name in
    let t' : CodexTracker = record t { db = record t.db { calls = suc t.db.calls } } in
    let shifted : shifted_beyond (60 * minute) new known_reset ≡ true =
      ground (arith, shifted_beyond_lem (60 * minute) new known_reset) in
    let ended : reset_found captured_at quota m c.renews_at ≡ true =
      rw (stored, reported, remembered, shifted) (ground arith) in
    rw (rolls account quota t captured_at c (fine t.db.calls) found ended)
      (roll_over_lem account quota t' c m captured_at fine)
