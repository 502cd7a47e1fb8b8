-- ===== src/Tracker/Kimi.antt =====
-- internal/tracker/kimi_tracker.go: the cycles of Kimi's quotas. Utilizations (float64 in the code)
-- are in thousandths of a percent.
pub mod Totals
mod Tests
use loomwatch.Prelude.{
  ℕ, ◌+◌, ◌-◌, ◌*◌, String, Bool, true, false, not, ◌&&◌, ◌||◌, Option, none, some, List, [], ◌∷◌,
  Result, ok, err, Action, pure, ◌>>=◌, ◌>>◌, ◌==◌, nat_eq, string_eq, ltb, if◌then◌else◌, is_some,
}
use loomwatch.Prelude.Dict.{Dict, lookup, insert}
use loomwatch.Tracker.Accounts.{inner, set_inner, set_reset, is_true, last_value}
use loomwatch.Store.Cycles.{DbError}
use loomwatch.Store.AccountCycles.{
  AccountCycle, AccountDb, account_or_default, query_active_kimi_reset_cycle,
  insert_kimi_reset_cycle, update_kimi_reset_cycle_end,
}
use loomwatch.Tracker.Clock.{minute, after}
use loomwatch.Tracker.Synthetic.{
  Error, query_failed, create_failed, close_failed, new_cycle_failed, add_positive,
}

-- `api.KimiQuota`
pub record KimiQuota : Type 0 where
  pub name : String
  pub utilization : ℕ
  pub resets_at : Option ℕ

-- `api.KimiSnapshot`
pub record KimiSnapshot : Type 0 where
  pub account_id : ℕ
  pub captured_at : ℕ
  pub quotas : List KimiQuota

-- `type KimiTracker struct`
pub record KimiTracker : Type 0 where
  pub db : AccountDb
  pub last_values : Dict ℕ (Dict String ℕ)
  pub last_resets : Dict ℕ (Dict String ℕ)
  pub has_last : Dict ℕ Bool
  pub on_reset : Bool
  pub notified : List String

abbrev pub call : {A : Type 0} → Error → Action DbError AccountDb A → Action Error KimiTracker A
call e m t =
    let (r, db') = m t.db in (elim r [ ok a ↦ ok a | err _ ↦ err e ], record t { db = db' })

-- `initLast`
unfoldable pub init_last : ℕ → String → ℕ → Option ℕ → KimiTracker → KimiTracker
init_last account quota val resets t = record t {
  last_values = set_inner account quota val t.last_values;
  last_resets = set_reset account quota resets t.last_resets;
}

-- `setLast`
unfoldable pub set_last : ℕ → String → ℕ → Option ℕ → KimiTracker → KimiTracker
unfolding init_last
set_last account quota val resets t = init_last account quota val resets t

-- `hasLastFor`: the quota itself is not looked up.
unfoldable pub has_last_for : ℕ → KimiTracker → Bool
has_last_for account t =
    if not (is_true (lookup account t.has_last))
    then false
    else is_some (lookup account t.last_values)

-- The cycle that is inserted.
abbrev pub new_kimi_cycle : ℕ → KimiQuota → ℕ → AccountCycle
new_kimi_cycle account q captured_at = record {
  id = 0;
  account_id = account;
  quota_name = q.name;
  cycle_start = captured_at;
  cycle_end = none;
  resets_at = q.resets_at;
  peak_utilization = q.utilization;
  total_delta = 0;
}

abbrev remember : ℕ → KimiQuota → Action Error KimiTracker (Unit {0})
remember account q t = (ok tt, init_last account q.name q.utilization q.resets_at t)

abbrev notify_reset : String → Action Error KimiTracker (Unit {0})
notify_reset name t =
    (ok tt, record t { notified = if t.on_reset then name ∷ t.notified else t.notified })

-- The second test of a reset: the reset time is more than a minute after the last one, and the
-- utilization is below 20 percent or below the last one.
abbrev pub moved : ℕ → KimiQuota → KimiTracker → Option ℕ → Option ℕ → Bool
moved account q t none prev = false
moved account q t (some resets) none = false
moved account q t (some resets) (some prev) =
    after resets (prev + minute)
    && (ltb q.utilization 20_000
        || has_last_for account t && ltb q.utilization (last_value account q.name t.last_values))

-- A drop to less than half of the last value is a reset too.
unfoldable pub reset_detected : ℕ → KimiQuota → KimiTracker → Bool
unfolding has_last_for
reset_detected account q t =
    let last = last_value account q.name t.last_values in
    has_last_for account t && ltb 0 last && ltb (2 * q.utilization) last
    || moved account q t q.resets_at (lookup q.name (inner (lookup account t.last_resets)))

-- What the code adds to the cycle that it has read.
unfoldable pub ongoing : ℕ → KimiQuota → AccountCycle → KimiTracker → AccountCycle
unfolding has_last_for add_positive
ongoing account q cycle t =
    let last = last_value account q.name t.last_values in
    let peak =
      if ltb cycle.peak_utilization q.utilization then q.utilization else cycle.peak_utilization in
    if has_last_for account t
    then record cycle {
      total_delta = add_positive cycle.total_delta last q.utilization;
      peak_utilization = peak;
    }
    else record cycle { peak_utilization = peak }

-- The branch of a reset.
unfoldable pub roll_over : ℕ → KimiQuota → ℕ → AccountCycle → Action Error KimiTracker (Unit {0})
unfolding init_last
roll_over account q captured_at cycle = do
  call close_failed
      (update_kimi_reset_cycle_end cycle.id captured_at cycle.peak_utilization cycle.total_delta)
  call new_cycle_failed (insert_kimi_reset_cycle (new_kimi_cycle account q captured_at))
  remember account q
  notify_reset q.name

-- The branch of an ongoing cycle: the cycle with what was added to it is dropped at the end.
unfoldable pub carry_on : ℕ → KimiQuota → AccountCycle → Action Error KimiTracker (Unit {0})
unfolding set_last ongoing
carry_on account q cycle t =
    let _unused = ongoing account q cycle t in
    (ok tt, set_last account q.name q.utilization q.resets_at t)

unfoldable pub process_found :
    ℕ → KimiQuota → ℕ → Option AccountCycle → Action Error KimiTracker (Unit {0})
process_found account q captured_at none = do
  call create_failed (insert_kimi_reset_cycle (new_kimi_cycle account q captured_at))
  remember account q
process_found account q captured_at (some cycle) = λ t.
    if reset_detected account q t
    then roll_over account q captured_at cycle t
    else carry_on account q cycle t

-- `processQuota`
unfoldable pub process_quota : ℕ → KimiQuota → ℕ → Action Error KimiTracker (Unit {0})
process_quota account q captured_at = do
  cycle ← call query_failed (query_active_kimi_reset_cycle account q.name)
  process_found account q captured_at cycle

-- The loop of `Process`, which stops at the first quota that fails.
unfoldable pub process_quotas :
    ℕ → List KimiQuota → ℕ → Action (String × Error) KimiTracker (Unit {0})
process_quotas account [] captured_at t = (ok tt, t)
process_quotas account (q ∷ rest) captured_at t =
    let (r, t') = process_quota account q captured_at t in
    let next = process_quotas account rest captured_at t' in
    elim r [ ok _ ↦ next | err e ↦ (err (q.name, e), t') ]

-- `Process`
unfoldable pub process : KimiSnapshot → Action (String × Error) KimiTracker (Unit {0})
process snapshot = do
  process_quotas (account_or_default snapshot.account_id) snapshot.quotas snapshot.captured_at
  λ t. (
    ok tt,
    record t { has_last = insert (account_or_default snapshot.account_id) true t.has_last },
  )

unfoldable pub run : List KimiSnapshot → KimiTracker → KimiTracker
run [] t = t
run (snapshot ∷ rest) t = run rest (process snapshot t).1
