-- ===== src/Tracker/Synthetic.antt =====
-- internal/tracker/tracker.go: reset cycle detection for the Synthetic API's three quotas.
-- Request counts (float64 in the code) are numbers of a fixed unit, such as thousandths; rounding
-- is not modelled. `*lastRequests` is passed in and returned, as a field of `Slot`.
pub mod Invariant
pub mod History
pub mod Accounting
pub mod Reset
pub mod Deltas
mod Tests
use loomwatch.Prelude.{
  ℕ, ◌+◌, ◌-◌, ◌*◌, ◌≡◌, String, Bool, true, false, not, ◌||◌, Option, none, some, List, [], ◌∷◌,
  ◌++◌, Result, ok, err, Action, pure, ◌>>=◌, ◌>>◌, ◌==◌, nat_eq, string_eq, ltb, if◌then◌else◌,
}
use loomwatch.Store.Cycles.{
  ResetCycle, Db, DbError, create_cycle, close_cycle, update_cycle, query_active_cycle,
}
use loomwatch.Tracker.Clock.{minute, hour, after, truncate}

-- `api.QuotaInfo`
pub record QuotaInfo : Type 0 where
  pub limit : ℕ
  pub requests : ℕ
  pub renews_at : ℕ

-- `api.Snapshot`
pub record Snapshot : Type 0 where
  pub captured_at : ℕ
  pub sub : QuotaInfo
  pub search : QuotaInfo
  pub tool_call : QuotaInfo

pub data Error : Type 0 where
  query_failed create_failed initial_peak_failed close_failed new_cycle_failed update_failed : Error

-- The state that `processQuota` reads and writes. `notified` lists the calls of `onReset`, newest
-- first.
pub record Slot : Type 0 where
  pub db : Db String ℕ
  pub last_requests : ℕ
  pub notified : List String

-- `if err != nil { return fmt.Errorf(…) }` around a call of the store.
abbrev pub call : {A : Type 0} → Error → Action DbError (Db String ℕ) A → Action Error Slot A
call e m s =
    let (r, db') = m s.db in (elim r [ ok a ↦ ok a | err _ ↦ err e ], record s { db = db' })

abbrev get_last : Action Error Slot ℕ
get_last s = (ok s.last_requests, s)

abbrev set_last : ℕ → Action Error Slot (Unit {0})
set_last n s = (ok tt, record s { last_requests = n })

-- `if t.onReset != nil { t.onReset(quotaType) }`
abbrev notify_reset : Bool → String → Action Error Slot (Unit {0})
notify_reset registered q s =
    (ok tt, record s { notified = if registered then q ∷ s.notified else s.notified })

-- Both detection methods: the stored renewal passed more than two minutes ago, or the renewal
-- moved to another hour.
unfoldable pub reset_detected : ℕ → ℕ → ℕ → Bool
reset_detected captured_at old_renews new_renews =
    after captured_at (old_renews + 2 * minute)
    || not (truncate old_renews hour == truncate new_renews hour)

-- `delta := cur - last; if delta > 0 { total += delta }`
unfoldable pub add_positive : ℕ → ℕ → ℕ → ℕ
add_positive total last cur = if ltb last cur then total + (cur - last) else total

-- `cycleEndTime`
unfoldable pub cycle_end_time : ℕ → ℕ → ℕ
cycle_end_time captured_at renews_at =
    if after captured_at renews_at then renews_at else captured_at

-- The branch for a quota that has no active cycle.
unfoldable pub start_first : String → ℕ → QuotaInfo → Action Error Slot (Unit {0})
start_first q captured_at info = do
  call create_failed (create_cycle q captured_at info.renews_at)
  call initial_peak_failed (update_cycle q info.requests 0)
  set_last info.requests

-- The branch for a detected reset.
unfoldable pub roll_over :
    String → ℕ → QuotaInfo → Bool → Bool → ResetCycle String ℕ → Action Error Slot (Unit {0})
unfolding add_positive cycle_end_time
roll_over q captured_at info has_last registered cycle = do
  last ← get_last
  let total =
      if has_last then add_positive cycle.total_delta last info.requests else cycle.total_delta
  call close_failed
      (close_cycle q (cycle_end_time captured_at cycle.renews_at) cycle.peak_requests total)
  call new_cycle_failed (create_cycle q captured_at info.renews_at)
  call initial_peak_failed (update_cycle q info.requests 0)
  set_last info.requests
  notify_reset registered q

-- The branch for a snapshot of the active cycle.
unfoldable pub same_cycle :
    String → QuotaInfo → Bool → ResetCycle String ℕ → Action Error Slot (Unit {0})
unfolding add_positive
same_cycle q info has_last cycle = do
  last ← get_last
  let higher = ltb cycle.peak_requests info.requests
  let peak = if higher then info.requests else cycle.peak_requests
  let total = add_positive cycle.total_delta last info.requests
  if has_last
      then call update_failed (update_cycle q peak total)
      else if higher
      then call update_failed (update_cycle q peak cycle.total_delta)
      else pure tt
  set_last info.requests

-- `processQuota`, from the active cycle that its query found.
unfoldable pub process_found :
    String
    → ℕ
    → QuotaInfo
    → Bool
    → Bool
    → Option (ResetCycle String ℕ)
    → Action Error Slot (Unit {0})
process_found q captured_at info has_last registered none = start_first q captured_at info
process_found q captured_at info has_last registered (some cycle) =
    if reset_detected captured_at cycle.renews_at info.renews_at
    then roll_over q captured_at info has_last registered cycle
    else same_cycle q info has_last cycle

-- `processQuota`
unfoldable pub process_quota : String → ℕ → QuotaInfo → Bool → Bool → Action Error Slot (Unit {0})
process_quota q captured_at info has_last registered = do
  found ← call query_failed (query_active_cycle q)
  process_found q captured_at info has_last registered found

-- `type Tracker struct`
pub record Tracker : Type 0 where
  pub db : Db String ℕ
  pub last_sub_requests : ℕ
  pub last_search_requests : ℕ
  pub last_tool_requests : ℕ
  pub has_last_values : Bool
  pub on_reset : Bool
  pub notified : List String

-- `&t.lastSubRequests` and the like: a field of the tracker that `processQuota` writes through.
pub record Field : Type 0 where
  pub get : Tracker → ℕ
  pub put : ℕ → Tracker → Tracker

abbrev pub sub_field : Field
sub_field = record {
  get = λ t. t.last_sub_requests;
  put = λ n t. record t { last_sub_requests = n };
}

abbrev pub search_field : Field
search_field = record {
  get = λ t. t.last_search_requests;
  put = λ n t. record t { last_search_requests = n };
}

abbrev pub tool_field : Field
tool_field = record {
  get = λ t. t.last_tool_requests;
  put = λ n t. record t { last_tool_requests = n };
}

-- One call of `processQuota` from `Process`, whose error is wrapped with the quota's name.
unfoldable pub process_field :
    String → ℕ → QuotaInfo → Field → Action (String × Error) Tracker (Unit {0})
process_field q captured_at info f t =
    let slot : Slot = record { db = t.db; last_requests = f.get t; notified = t.notified } in
    let (r, slot') = process_quota q captured_at info t.has_last_values t.on_reset slot in
    (
      elim r [ ok a ↦ ok a | err e ↦ err (q, e) ],
      f.put slot'.last_requests (record t { db = slot'.db; notified = slot'.notified }),
    )

abbrev set_has_last : Action (String × Error) Tracker (Unit {0})
set_has_last t = (ok tt, record t { has_last_values = true })

-- `Process`
unfoldable pub process : Snapshot → Action (String × Error) Tracker (Unit {0})
process snapshot = do
  process_field "subscription" snapshot.captured_at snapshot.sub sub_field
  process_field "search" snapshot.captured_at snapshot.search search_field
  process_field "toolcall" snapshot.captured_at snapshot.tool_call tool_field
  set_has_last

-- The agent hands the tracker one snapshot after another, and goes on when one fails.
unfoldable pub run : List Snapshot → Tracker → Tracker
run [] t = t
run (snapshot ∷ rest) t = run rest (process snapshot t).1
