-- ===== src/Tracker/Anthropic.antt =====
-- internal/tracker/anthropic_tracker.go: reset cycle detection for Anthropic's quotas, whose
-- names and number the API decides. Utilizations (float64 in the code) are numbers of a fixed
-- unit; rounding is not modelled. `lastResets` holds the time that the code formats as text.
pub mod Invariant
pub mod Recording
pub mod Resets
mod Tests
use loomwatch.Prelude.{
  ℕ, ◌+◌, ◌*◌, ◌≡◌, String, Bool, true, false, ◌||◌, Option, none, some, List, [], ◌∷◌, Result, ok,
  err, Action, pure, ◌>>=◌, ◌>>◌, string_eq, ltb, if◌then◌else◌,
}
use loomwatch.Prelude.Dict.{Dict, lookup, insert}
use loomwatch.Store.Cycles.{
  ResetCycle, Db, DbError, create_cycle, close_cycle, update_cycle, query_active_cycle,
}
use loomwatch.Tracker.Clock.{minute, after, shifted_beyond}
use loomwatch.Tracker.Synthetic.{
  Error, query_failed, create_failed, initial_peak_failed, close_failed, new_cycle_failed,
  update_failed, add_positive, cycle_end_time,
}

-- `api.AnthropicQuota`
pub record AnthropicQuota : Type 0 where
  pub name : String
  pub utilization : ℕ
  pub resets_at : Option ℕ

-- `api.AnthropicSnapshot`
pub record AnthropicSnapshot : Type 0 where
  pub captured_at : ℕ
  pub quotas : List AnthropicQuota

-- `type AnthropicTracker struct`. `notified` lists the calls of `onReset`, newest first.
pub record AnthropicTracker : Type 0 where
  pub db : Db String (Option ℕ)
  pub last_values : Dict String ℕ
  pub last_resets : Dict String ℕ
  pub has_last : Bool
  pub on_reset : Bool
  pub notified : List String

abbrev pub call :
    {A : Type 0} → Error → Action DbError (Db String (Option ℕ)) A → Action Error AnthropicTracker A
call e m t =
    let (r, db') = m t.db in (elim r [ ok a ↦ ok a | err _ ↦ err e ], record t { db = db' })

-- The code's last lines on every branch: `lastValues` and, if there is a reset time, `lastResets`.
abbrev remember : AnthropicQuota → Action Error AnthropicTracker (Unit {0})
remember quota t = (
  ok tt,
  record t {
    last_values = insert quota.name quota.utilization t.last_values;
    last_resets = elim quota.resets_at [
      | none ↦ t.last_resets
      | some r ↦ insert quota.name r t.last_resets
    ];
  },
)

abbrev notify_reset : String → Action Error AnthropicTracker (Unit {0})
notify_reset name t =
    (ok tt, record t { notified = if t.on_reset then name ∷ t.notified else t.notified })

-- `if t.hasLast { if lastUtil, ok := t.lastValues[quotaName]; ok { … } }`
abbrev pub last_util : AnthropicTracker → String → Option ℕ
last_util t name = if t.has_last then lookup name t.last_values else none

-- Method 1: the stored reset time passed more than two minutes ago.
unfoldable pub time_based : ℕ → Option ℕ → Bool
time_based captured_at none = false
time_based captured_at (some old) = after captured_at (old + 2 * minute)

-- Method 2: the reset time moved by more than ten minutes, or there was none before.
unfoldable pub api_based : Option ℕ → Option ℕ → Bool
api_based (some new) (some old) = shifted_beyond (10 * minute) new old
api_based (some new) none = true
api_based none old = false

unfoldable pub end_time : ℕ → Option ℕ → ℕ
unfolding cycle_end_time
end_time captured_at none = captured_at
end_time captured_at (some old) = cycle_end_time captured_at old

abbrev pub higher_of : ℕ → ℕ → ℕ
higher_of peak util = if ltb peak util then util else peak

-- What a known last value adds to the cycle's delta and peak.
abbrev pub gained : Option ℕ → ℕ → ResetCycle String (Option ℕ) → ResetCycle String (Option ℕ)
gained none util cycle = cycle
gained (some last) util cycle = record cycle {
  total_delta = add_positive cycle.total_delta last util;
  peak_requests = higher_of cycle.peak_requests util;
}

unfoldable pub start_first : AnthropicQuota → ℕ → Action Error AnthropicTracker (Unit {0})
start_first quota captured_at = do
  call create_failed (create_cycle quota.name captured_at quota.resets_at)
  call initial_peak_failed (update_cycle quota.name quota.utilization 0)
  remember quota

unfoldable pub roll_over :
    AnthropicQuota
    → ℕ
    → Option ℕ
    → ResetCycle String (Option ℕ)
    → Action Error AnthropicTracker (Unit {0})
unfolding add_positive
roll_over quota captured_at last cycle = do
  let final = gained last quota.utilization cycle
  call close_failed (
      close_cycle quota.name (end_time captured_at cycle.renews_at) final.peak_requests
        final.total_delta)
  call new_cycle_failed (create_cycle quota.name captured_at quota.resets_at)
  call initial_peak_failed (update_cycle quota.name quota.utilization 0)
  remember quota
  notify_reset quota.name

-- The statement for a snapshot of the active cycle.
unfoldable pub update_same :
    AnthropicQuota
    → Option ℕ
    → ResetCycle String (Option ℕ)
    → Action Error AnthropicTracker (Unit {0})
unfolding add_positive
update_same quota (some last) cycle = call update_failed (
    update_cycle quota.name (higher_of cycle.peak_requests quota.utilization)
      (add_positive cycle.total_delta last quota.utilization))
update_same quota none cycle =
    if ltb cycle.peak_requests quota.utilization
    then call update_failed (update_cycle quota.name quota.utilization cycle.total_delta)
    else pure tt

unfoldable pub same_cycle :
    AnthropicQuota
    → Option ℕ
    → ResetCycle String (Option ℕ)
    → Action Error AnthropicTracker (Unit {0})
same_cycle quota last cycle = do update_same quota last cycle; remember quota

unfoldable pub process_found :
    AnthropicQuota
    → ℕ
    → Option ℕ
    → Option (ResetCycle String (Option ℕ))
    → Action Error AnthropicTracker (Unit {0})
process_found quota captured_at last none = start_first quota captured_at
process_found quota captured_at last (some cycle) =
    if time_based captured_at cycle.renews_at || api_based quota.resets_at cycle.renews_at
    then roll_over quota captured_at last cycle
    else same_cycle quota last cycle

-- `processQuota`
unfoldable pub process_quota : AnthropicQuota → ℕ → Action Error AnthropicTracker (Unit {0})
process_quota quota captured_at t =
    let m : Action Error AnthropicTracker (Unit {0}) =
      call query_failed (query_active_cycle quota.name)
      >>= process_found quota captured_at (last_util t quota.name) in
    m t

-- The loop of `Process` over the quotas, which stops at the first that fails.
unfoldable pub process_quotas :
    List AnthropicQuota → ℕ → Action (String × Error) AnthropicTracker (Unit {0})
process_quotas [] captured_at t = (ok tt, t)
process_quotas (quota ∷ rest) captured_at t =
    let (r, t') = process_quota quota captured_at t in
    let next = process_quotas rest captured_at t' in
    elim r [ ok _ ↦ next | err e ↦ (err (quota.name, e), t') ]

-- `Process`
unfoldable pub process : AnthropicSnapshot → Action (String × Error) AnthropicTracker (Unit {0})
process snapshot = do
  process_quotas snapshot.quotas snapshot.captured_at
  λ t. (ok tt, record t { has_last = true })

unfoldable pub run : List AnthropicSnapshot → AnthropicTracker → AnthropicTracker
run [] t = t
run (snapshot ∷ rest) t = run rest (process snapshot t).1
