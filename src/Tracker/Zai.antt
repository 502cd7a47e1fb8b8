-- ===== src/Tracker/Zai.antt =====
-- internal/tracker/zai_tracker.go: the cycles of Z.ai's two quotas for every subscription, over the
-- cycle table of internal/store/zai_store.go. Values (float64 in the code) are in thousandths;
-- rounding is not modelled. The snapshots of several accounts come one after another: the code
-- shares the tracker between goroutines without a lock.
pub mod History
pub mod Isolation
mod Tests
use loomwatch.Prelude.{
  ℕ, suc, ◌+◌, ◌-◌, ◌*◌, ◌/◌, ◌≡◌, String, Bool, true, false, not, ◌&&◌, ◌||◌, Option, none, some,
  List, [], ◌∷◌, Result, ok, err, Action, pure, ◌>>=◌, ◌>>◌, ◌==◌, nat_eq, string_eq, pair_eq, ltb,
  if◌then◌else◌,
}
use loomwatch.Prelude.Dict.{Dict, lookup, insert}
use loomwatch.Store.Cycles.{
  ResetCycle, Db, DbError, create_cycle, close_cycle, update_cycle, query_active_cycle,
}
use loomwatch.Tracker.Accounts.{is_true, or_zero}
use loomwatch.Tracker.Clock.{minute, after}
use loomwatch.Tracker.Synthetic.{
  Error, query_failed, create_failed, initial_peak_failed, close_failed, new_cycle_failed,
  update_failed,
}

-- The fields of `api.ZaiSnapshot` that the tracker reads.
pub record ZaiSnapshot : Type 0 where
  pub captured_at : ℕ
  pub time_current_value : ℕ
  pub tokens_current_value : ℕ
  pub tokens_next_reset_time : Option ℕ

abbrev pub ZaiCycle : Type 0
ZaiCycle = ResetCycle (ℕ × String) (Option ℕ)

abbrev pub ZaiDb : Type 0
ZaiDb = Db (ℕ × String) (Option ℕ)

-- `type ZaiTracker struct`. `notified` lists the calls of `onReset`, newest first.
pub record ZaiTracker : Type 0 where
  pub db : ZaiDb
  pub last_tokens_value : Dict ℕ ℕ
  pub last_time_value : Dict ℕ ℕ
  pub has_last_values : Dict ℕ Bool
  pub on_reset : Bool
  pub notified : List String

-- `int64(value)`
abbrev pub whole : ℕ → ℕ
whole value = value / 1_000

-- The default account, if the lookup found one.
abbrev or_account : ℕ → Option ℕ → ℕ
or_account account none = account
or_account account (some id) = if ltb 0 id then id else account

abbrev pub call : {A : Type 0} → Error → Action DbError ZaiDb A → Action Error ZaiTracker A
call e m t =
    let (r, db') = m t.db in (elim r [ ok a ↦ ok a | err _ ↦ err e ], record t { db = db' })

abbrev remember_tokens : ℕ → ℕ → Action Error ZaiTracker (Unit {0})
remember_tokens account value t =
    (ok tt, record t { last_tokens_value = insert account value t.last_tokens_value })

abbrev remember_time : ℕ → ℕ → Action Error ZaiTracker (Unit {0})
remember_time account value t =
    (ok tt, record t { last_time_value = insert account value t.last_time_value })

abbrev notify_reset : String → Action Error ZaiTracker (Unit {0})
notify_reset q t =
    (ok tt, record t { notified = if t.on_reset then q ∷ t.notified else t.notified })

abbrev pub has_last : ℕ → ZaiTracker → Bool
has_last account t = is_true (lookup account t.has_last_values)

abbrev higher_peak : ℕ → ZaiCycle → ℕ
higher_peak value cycle =
    if ltb cycle.peak_requests (whole value) then whole value else cycle.peak_requests

-- What a known last value adds to the cycle's delta and peak.
unfoldable pub grown : ℕ → ℕ → ZaiCycle → ZaiCycle
grown last value cycle = record cycle {
  total_delta =
      if ltb last value then cycle.total_delta + whole (value - last) else cycle.total_delta;
  peak_requests = higher_peak value cycle;
}

-- The first detection method: the stored reset time passed more than two minutes ago.
abbrev time_based : ℕ → Option ℕ → Bool
time_based captured_at none = false
time_based captured_at (some old) = after captured_at (old + 2 * minute)

-- The second one: the reset time changed, or there is one now.
abbrev api_based : Option ℕ → Option ℕ → Bool
api_based (some new) (some old) = not (new == old)
api_based (some new) none = true
api_based none old = false

-- `resetDetected` of the tokens.
unfoldable pub tokens_reset : ZaiSnapshot → Option ℕ → Bool
tokens_reset s old = time_based s.captured_at old || api_based s.tokens_next_reset_time old

-- `cycleEndTime`
unfoldable pub cycle_end_time : ℕ → Option ℕ → ℕ
cycle_end_time captured_at none = captured_at
cycle_end_time captured_at (some old) = if after captured_at old then old else captured_at

-- `resetDetected` of the time quota: less than half of the last value.
unfoldable pub time_reset : ℕ → ZaiSnapshot → ZaiTracker → Bool
time_reset account s t =
    let last = or_zero (lookup account t.last_time_value) in
    has_last account t && ltb 0 last && ltb (2 * s.time_current_value) last

-- The cycle that a reset of the tokens ends, with the use since the last snapshot.
unfoldable pub final_tokens : ZaiSnapshot → ℕ → ZaiCycle → ZaiTracker → ZaiCycle
unfolding grown
final_tokens s account cycle t =
    if has_last account t
    then grown (or_zero (lookup account t.last_tokens_value)) s.tokens_current_value cycle
    else cycle

-- The parameter is the row of the default account, `none` for none, at each statement.
module _ (default_account : ℕ → Option ℕ) where
  -- `DefaultZaiAccountID`, `none` for an error and for no row.
  unfoldable pub default_zai_account_id : ZaiDb → Option ℕ × ZaiDb
  default_zai_account_id d = (
    (if d.fails d.calls then none else default_account d.calls),
    record d { calls = suc d.calls },
  )

  -- `resolveZaiAccount`, which looks the default account up at every call without an id.
  unfoldable pub resolve_zai_account : ℕ → ZaiDb → ℕ × ZaiDb
  unfolding default_zai_account_id
  resolve_zai_account account d =
      if ltb 0 account
      then (account, d)
      else (let (found, d') = default_zai_account_id d in (or_account account found, d'))

  unfoldable pub create_zai_cycle : String → ℕ → Option ℕ → ℕ → Action DbError ZaiDb (Unit {0})
  unfolding resolve_zai_account
  create_zai_cycle q start next_reset account d =
      let (id, d') = resolve_zai_account account d in create_cycle (id, q) start next_reset d'

  unfoldable pub close_zai_cycle : String → ℕ → ℕ → ℕ → ℕ → Action DbError ZaiDb (Unit {0})
  unfolding resolve_zai_account
  close_zai_cycle q end peak delta account d =
      let (id, d') = resolve_zai_account account d in close_cycle (id, q) end peak delta d'

  unfoldable pub update_zai_cycle : String → ℕ → ℕ → ℕ → Action DbError ZaiDb (Unit {0})
  unfolding resolve_zai_account
  update_zai_cycle q peak delta account d =
      let (id, d') = resolve_zai_account account d in update_cycle (id, q) peak delta d'

  unfoldable pub query_active_zai_cycle : String → ℕ → Action DbError ZaiDb (Option ZaiCycle)
  unfolding resolve_zai_account
  query_active_zai_cycle q account d =
      let (id, d') = resolve_zai_account account d in query_active_cycle (id, q) d'

  -- The start of a cycle, the first one or the one after a reset.
  abbrev start_cycle : Error → String → ℕ → ℕ → Option ℕ → ℕ → Action Error ZaiTracker (Unit {0})
  start_cycle failed q account captured_at next_reset value = do
    call failed (create_zai_cycle q captured_at next_reset account)
    call initial_peak_failed (update_zai_cycle q (whole value) 0 account)

  -- The update of the active cycle, with the last value of the account.
  unfoldable pub update_stats : String → ℕ → ℕ → ℕ → ZaiCycle → Action Error ZaiTracker (Unit {0})
  unfolding grown
  update_stats q account value last cycle t =
      let final = grown last value cycle in
      let both : Action Error ZaiTracker (Unit {0}) =
        call update_failed (update_zai_cycle q final.peak_requests final.total_delta account) in
      let peak : Action Error ZaiTracker (Unit {0}) =
        call update_failed (update_zai_cycle q (whole value) cycle.total_delta account) in
      if has_last account t
      then both t
      else if ltb cycle.peak_requests (whole value)
      then peak t
      else (ok tt, t)

  unfoldable pub start_tokens : ZaiSnapshot → ℕ → Action Error ZaiTracker (Unit {0})
  start_tokens s account = do
    start_cycle create_failed "tokens" account s.captured_at s.tokens_next_reset_time
        s.tokens_current_value
    remember_tokens account s.tokens_current_value

  unfoldable pub roll_tokens :
      ZaiSnapshot → ℕ → ZaiCycle → ZaiCycle → Action Error ZaiTracker (Unit {0})
  unfolding cycle_end_time
  roll_tokens s account cycle final = do
    call close_failed (
        close_zai_cycle "tokens" (cycle_end_time s.captured_at cycle.renews_at) final.peak_requests
          final.total_delta account)
    start_cycle new_cycle_failed "tokens" account s.captured_at s.tokens_next_reset_time
        s.tokens_current_value
    remember_tokens account s.tokens_current_value
    notify_reset "tokens"

  unfoldable pub same_tokens : ZaiSnapshot → ℕ → ℕ → ZaiCycle → Action Error ZaiTracker (Unit {0})
  same_tokens s account last cycle = do
    update_stats "tokens" account s.tokens_current_value last cycle
    remember_tokens account s.tokens_current_value

  unfoldable pub tokens_found :
      ZaiSnapshot → ℕ → Option ZaiCycle → Action Error ZaiTracker (Unit {0})
  tokens_found s account none = start_tokens s account
  tokens_found s account (some cycle) = λ t.
      if tokens_reset s cycle.renews_at
      then roll_tokens s account cycle (final_tokens s account cycle t) t
      else same_tokens s account (or_zero (lookup account t.last_tokens_value)) cycle t

  -- `processTokensQuota`
  unfoldable pub process_tokens_quota : ZaiSnapshot → ℕ → Action Error ZaiTracker (Unit {0})
  process_tokens_quota s account = do
    cycle ← call query_failed (query_active_zai_cycle "tokens" account)
    tokens_found s account cycle

  unfoldable pub start_time : ZaiSnapshot → ℕ → Action Error ZaiTracker (Unit {0})
  start_time s account = do
    start_cycle create_failed "time" account s.captured_at none s.time_current_value
    remember_time account s.time_current_value

  unfoldable pub roll_time : ZaiSnapshot → ℕ → ZaiCycle → Action Error ZaiTracker (Unit {0})
  roll_time s account cycle = do
    call close_failed
        (close_zai_cycle "time" s.captured_at cycle.peak_requests cycle.total_delta account)
    start_cycle new_cycle_failed "time" account s.captured_at none s.time_current_value
    remember_time account s.time_current_value
    notify_reset "time"

  unfoldable pub same_time : ZaiSnapshot → ℕ → ℕ → ZaiCycle → Action Error ZaiTracker (Unit {0})
  same_time s account last cycle = do
    update_stats "time" account s.time_current_value last cycle
    remember_time account s.time_current_value

  unfoldable pub time_found : ZaiSnapshot → ℕ → Option ZaiCycle → Action Error ZaiTracker (Unit {0})
  time_found s account none = start_time s account
  time_found s account (some cycle) = λ t.
      if time_reset account s t
      then roll_time s account cycle t
      else same_time s account (or_zero (lookup account t.last_time_value)) cycle t

  -- `processTimeQuota`
  unfoldable pub process_time_quota : ZaiSnapshot → ℕ → Action Error ZaiTracker (Unit {0})
  process_time_quota s account = do
    cycle ← call query_failed (query_active_zai_cycle "time" account)
    time_found s account cycle

  -- `fmt.Errorf("zai tracker: …: %w", err)`
  abbrev wrapped :
      String → Action Error ZaiTracker (Unit {0}) → Action (String × Error) ZaiTracker (Unit {0})
  wrapped q m t = let (r, t') = m t in (elim r [ ok a ↦ ok a | err e ↦ err (q, e) ], t')

  -- `Process`
  unfoldable pub process : ZaiSnapshot → ℕ → Action (String × Error) ZaiTracker (Unit {0})
  process s account = do
    wrapped "tokens" (process_tokens_quota s account)
    wrapped "time" (process_time_quota s account)
    λ t. (ok tt, record t { has_last_values = insert account true t.has_last_values })

  -- The snapshots of the accounts' agents, one after another.
  unfoldable pub run : List (ℕ × ZaiSnapshot) → ZaiTracker → ZaiTracker
  run [] t = t
  run ((account, s) ∷ rest) t = run rest (process s account t).1
