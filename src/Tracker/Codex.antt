-- ===== src/Tracker/Codex.antt =====
-- internal/tracker/codex_tracker.go: reset cycle detection for the quotas of Codex accounts, over
-- the cycle table of internal/store/codex_store.go. An account is a number that is not negative.
-- Utilizations (float64 percentages in the code) are in thousandths of a percent; rounding is not
-- modelled. The maps by account and then by quota are maps by both.
pub mod History
pub mod Branches
pub mod Rolling
mod Tests
use loomwatch.Prelude.{
  ℕ, ◌+◌, ◌*◌, ◌≡◌, String, Bool, true, false, not, ◌&&◌, ◌||◌, Option, none, some, List, [], ◌∷◌,
  Result, ok, err, Action, pure, ◌>>=◌, ◌>>◌, ◌==◌, nat_eq, string_eq, pair_eq, ltb, if◌then◌else◌,
  is_some,
}
use loomwatch.Prelude.Dict.{Dict, lookup, insert}
use loomwatch.Store.Cycles.{
  ResetCycle, Db, DbError, create_cycle, close_cycle, update_cycle, update_cycle_resets_at,
  query_active_cycle,
}
use loomwatch.Tracker.Clock.{minute, after, shifted_beyond}
use loomwatch.Tracker.Synthetic.{add_positive, cycle_end_time}

-- `api.CodexQuota`; its status is not used.
pub record CodexQuota : Type 0 where
  pub name : String
  pub utilization : ℕ
  pub resets_at : Option ℕ

-- The fields of `api.CodexSnapshot` that the tracker reads.
pub record CodexSnapshot : Type 0 where
  pub captured_at : ℕ
  pub account_id : ℕ
  pub quotas : List CodexQuota

abbrev pub CodexKey : Type 0
CodexKey = ℕ × String

abbrev pub CodexCycle : Type 0
CodexCycle = ResetCycle CodexKey (Option ℕ)

abbrev pub CodexDb : Type 0
CodexDb = Db CodexKey (Option ℕ)

pub data Error : Type 0 where
  query_failed create_failed initial_peak_failed close_failed new_cycle_failed : Error
  update_resets_at_failed update_failed : Error

-- `type CodexTracker struct`. `notified` lists the calls of `onReset`, newest first.
pub record CodexTracker : Type 0 where
  pub db : CodexDb
  pub last_values : Dict CodexKey ℕ
  pub last_resets : Dict CodexKey ℕ
  pub has_last : Dict ℕ Bool
  pub on_reset : Bool
  pub notified : List String

-- `if accountID == 0 { accountID = DefaultCodexAccountID }`
abbrev pub or_default : ℕ → ℕ
or_default account = if account == 0 then 1 else account

-- The store's statements.
unfoldable pub create_codex_cycle : ℕ → String → ℕ → Option ℕ → Action DbError CodexDb (Unit {0})
create_codex_cycle account name start resets_at =
    create_cycle (or_default account, name) start resets_at

unfoldable pub close_codex_cycle : ℕ → String → ℕ → ℕ → ℕ → Action DbError CodexDb (Unit {0})
close_codex_cycle account name end peak delta =
    close_cycle (or_default account, name) end peak delta

unfoldable pub update_codex_cycle : ℕ → String → ℕ → ℕ → Action DbError CodexDb (Unit {0})
update_codex_cycle account name peak delta = update_cycle (or_default account, name) peak delta

unfoldable pub update_codex_cycle_resets_at :
    ℕ → String → Option ℕ → Action DbError CodexDb (Unit {0})
update_codex_cycle_resets_at account name resets_at =
    update_cycle_resets_at (or_default account, name) resets_at

unfoldable pub query_active_codex_cycle : ℕ → String → Action DbError CodexDb (Option CodexCycle)
query_active_codex_cycle account name = query_active_cycle (or_default account, name)

-- `if err != nil { return fmt.Errorf(…) }` around a statement.
abbrev pub call : {A : Type 0} → Error → Action DbError CodexDb A → Action Error CodexTracker A
call e m t =
    let (r, db') = m t.db in (elim r [ ok a ↦ ok a | err _ ↦ err e ], record t { db = db' })

abbrev remember_value : ℕ → CodexQuota → Action Error CodexTracker (Unit {0})
remember_value account quota t =
    (ok tt, record t { last_values = insert (account, quota.name) quota.utilization t.last_values })

abbrev remember_reset : ℕ → CodexQuota → Action Error CodexTracker (Unit {0})
remember_reset account quota t = (
  ok tt,
  record t {
    last_resets = elim quota.resets_at [
      | none ↦ t.last_resets
      | some r ↦ insert (account, quota.name) r t.last_resets
    ];
  },
)

abbrev notify_reset : String → Action Error CodexTracker (Unit {0})
notify_reset name t =
    (ok tt, record t { notified = if t.on_reset then name ∷ t.notified else t.notified })

-- What the tracker remembers of a quota: `hasLast`, `lastValues` and `lastResets`.
pub record Memory : Type 0 where
  pub has_last : Bool
  pub value : Option ℕ
  pub reset : Option ℕ

abbrev pub or_false : Option Bool → Bool
or_false none = false
or_false (some b) = b

abbrev pub memory_of : CodexTracker → ℕ → String → Memory
memory_of t account name = record {
  has_last = or_false (lookup account t.has_last);
  value = lookup (account, name) t.last_values;
  reset = lookup (account, name) t.last_resets;
}

abbrev pub material_drop : ℕ
material_drop = 2_000

-- `if t.hasLast { if lastUtil, ok := …; ok && currentUtil+2 < lastUtil { … } }`
unfoldable pub drops : Memory → ℕ → Bool
drops m util =
    m.has_last && elim m.value [ none ↦ false | some last ↦ ltb (util + material_drop) last ]

unfoldable pub time_passed : ℕ → Option ℕ → Bool
time_passed captured_at none = false
time_passed captured_at (some old) = after captured_at (old + 2 * minute)

-- The reset time moved by more than an hour from the last one known.
unfoldable pub reset_moved : Memory → Option ℕ → Option ℕ → Bool
reset_moved m (some new) (some old) =
    shifted_beyond (60 * minute) new (elim m.reset [ none ↦ old | some last ↦ last ])
reset_moved m (some new) none = false
reset_moved m none old = false

-- `resetDetected`
unfoldable pub reset_found : ℕ → CodexQuota → Memory → Option ℕ → Bool
reset_found captured_at quota m old =
    time_passed captured_at old || reset_moved m quota.resets_at old && drops m quota.utilization

unfoldable pub ends_at : ℕ → Option ℕ → ℕ
unfolding cycle_end_time
ends_at captured_at none = captured_at
ends_at captured_at (some old) = cycle_end_time captured_at old

-- What a known last value adds to the cycle's delta and peak.
abbrev pub grown : ℕ → ℕ → CodexCycle → CodexCycle
grown last util cycle = record cycle {
  total_delta = add_positive cycle.total_delta last util;
  peak_requests = if ltb cycle.peak_requests util then util else cycle.peak_requests;
}

abbrev pub grown_if : Memory → ℕ → CodexCycle → CodexCycle
grown_if m util cycle =
    if m.has_last then elim m.value [ none ↦ cycle | some last ↦ grown last util cycle ] else cycle

unfoldable pub start_first : ℕ → CodexQuota → ℕ → Action Error CodexTracker (Unit {0})
start_first account quota captured_at = do
  call create_failed (create_codex_cycle account quota.name captured_at quota.resets_at)
  call initial_peak_failed (update_codex_cycle account quota.name quota.utilization 0)
  remember_value account quota
  remember_reset account quota

unfoldable pub roll_over :
    ℕ → CodexQuota → ℕ → Memory → CodexCycle → Action Error CodexTracker (Unit {0})
unfolding add_positive
roll_over account quota captured_at m cycle = do
  let final = grown_if m quota.utilization cycle
  call close_failed (
      close_codex_cycle account quota.name (ends_at captured_at cycle.renews_at) final.peak_requests
        final.total_delta)
  call new_cycle_failed (create_codex_cycle account quota.name captured_at quota.resets_at)
  call initial_peak_failed (update_codex_cycle account quota.name quota.utilization 0)
  remember_value account quota
  remember_reset account quota
  notify_reset quota.name

-- `if updateCycleResetAt { … }`: without a reset, it is set whenever there is a new reset time.
unfoldable pub update_resets_at : ℕ → CodexQuota → Action Error CodexTracker (Unit {0})
update_resets_at account quota =
    if is_some quota.resets_at
    then (do
      call update_resets_at_failed (update_codex_cycle_resets_at account quota.name quota.resets_at)
      remember_reset account quota)
    else pure tt

-- The update of the active cycle.
unfoldable pub update_usage :
    ℕ → CodexQuota → Memory → CodexCycle → Action Error CodexTracker (Unit {0})
unfolding add_positive
update_usage account quota m cycle =
    let higher = ltb cycle.peak_requests quota.utilization in
    if m.has_last
    then elim m.value [
      | none ↦ pure tt
      | some last ↦
          let c = grown last quota.utilization cycle in
          call update_failed (update_codex_cycle account quota.name c.peak_requests c.total_delta)
    ]
    else if higher
    then call update_failed
        (update_codex_cycle account quota.name quota.utilization cycle.total_delta)
    else pure tt

unfoldable pub same_cycle :
    ℕ → CodexQuota → Memory → CodexCycle → Action Error CodexTracker (Unit {0})
same_cycle account quota m cycle = do
  update_resets_at account quota
  update_usage account quota m cycle
  remember_value account quota

unfoldable pub process_found :
    ℕ → CodexQuota → ℕ → Memory → Option CodexCycle → Action Error CodexTracker (Unit {0})
process_found account quota captured_at m none = start_first account quota captured_at
process_found account quota captured_at m (some cycle) =
    if reset_found captured_at quota m cycle.renews_at
    then roll_over account quota captured_at m cycle
    else same_cycle account quota m cycle

-- `processQuota`
unfoldable pub process_quota : ℕ → CodexQuota → ℕ → Action Error CodexTracker (Unit {0})
process_quota account quota captured_at t =
    let m : Action Error CodexTracker (Unit {0}) =
      call query_failed (query_active_codex_cycle account quota.name)
      >>= process_found account quota captured_at (memory_of t account quota.name) in
    m t

-- The loop of `Process`, which stops at the first quota that fails.
unfoldable pub process_quotas :
    ℕ → List CodexQuota → ℕ → Action (String × Error) CodexTracker (Unit {0})
process_quotas account [] captured_at t = (ok tt, t)
process_quotas account (quota ∷ rest) captured_at t =
    let (r, t') = process_quota account quota captured_at t in
    let next = process_quotas account rest captured_at t' in
    elim r [ ok _ ↦ next | err e ↦ (err (quota.name, e), t') ]

-- `Process`
unfoldable pub process : CodexSnapshot → Action (String × Error) CodexTracker (Unit {0})
process snapshot = do
  process_quotas (or_default snapshot.account_id) snapshot.quotas snapshot.captured_at
  λ t. (ok tt, record t { has_last = insert (or_default snapshot.account_id) true t.has_last })

unfoldable pub run : List CodexSnapshot → CodexTracker → CodexTracker
run [] t = t
run (snapshot ∷ rest) t = run rest (process snapshot t).1
