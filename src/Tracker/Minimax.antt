-- ===== src/Tracker/Minimax.antt =====
-- internal/tracker/minimax_tracker.go: the cycles of MiniMax's models for every account, over the
-- cycle table of internal/store/minimax_store.go. Counts (ints in the code) are not negative.
pub mod History
pub mod Stale
mod Tests
use loomwatch.Prelude.{
  ℕ, ◌+◌, ◌-◌, ◌*◌, ◌/◌, String, Bool, true, false, not, ◌&&◌, ◌||◌, Option, none, some, List, [],
  ◌∷◌, Result, ok, err, Action, pure, ◌>>=◌, ◌>>◌, ◌==◌, nat_eq, string_eq, pair_eq, ltb,
  if◌then◌else◌, is_some, keep_if, map,
}
use loomwatch.Prelude.Dict.{Dict, lookup, insert}
use loomwatch.Store.Cycles.{
  ResetCycle, Db, DbError, db_error, create_cycle, close_cycle, update_cycle, end_cycle,
  query_active_cycle,
}
use loomwatch.Tracker.Accounts.{is_true}
use loomwatch.Tracker.Clock.{minute, after, shifted_beyond}
use loomwatch.Tracker.Synthetic.{
  Error, query_failed, create_failed, initial_peak_failed, close_failed, new_cycle_failed,
  update_failed, add_positive,
}

-- The fields of `api.MiniMaxModelQuota` that the tracker reads.
pub record MinimaxModelQuota : Type 0 where
  pub model_name : String
  pub total : ℕ
  pub used : ℕ
  pub reset_at : Option ℕ

-- The fields of `api.MiniMaxSnapshot` that the tracker reads.
pub record MinimaxSnapshot : Type 0 where
  pub captured_at : ℕ
  pub models : List MinimaxModelQuota

abbrev pub MinimaxCycle : Type 0
MinimaxCycle = ResetCycle (ℕ × String) (Option ℕ)

abbrev pub MinimaxDb : Type 0
MinimaxDb = Db (ℕ × String) (Option ℕ)

-- `type MiniMaxTracker struct`; the text `trackerKey` is the pair here. `notified` lists the calls
-- of `onReset`, newest first.
pub record MinimaxTracker : Type 0 where
  pub db : MinimaxDb
  pub last_used : Dict (ℕ × String) ℕ
  pub last_reset_at : Dict (ℕ × String) ℕ
  pub has_last_value : Dict (ℕ × String) Bool
  pub on_reset : Bool
  pub notified : List String

-- The store's statements.
unfoldable pub create_minimax_cycle :
    String → ℕ → Option ℕ → ℕ → Action DbError MinimaxDb (Unit {0})
create_minimax_cycle name start reset_at account = create_cycle (account, name) start reset_at

unfoldable pub close_minimax_cycle : String → ℕ → ℕ → ℕ → ℕ → Action DbError MinimaxDb (Unit {0})
close_minimax_cycle name end peak delta account = close_cycle (account, name) end peak delta

unfoldable pub update_minimax_cycle : String → ℕ → ℕ → ℕ → Action DbError MinimaxDb (Unit {0})
update_minimax_cycle name peak delta account = update_cycle (account, name) peak delta

unfoldable pub query_active_minimax_cycle :
    String → ℕ → Action DbError MinimaxDb (Option MinimaxCycle)
query_active_minimax_cycle name account = query_active_cycle (account, name)

abbrev pub contains : String → List String → Bool
contains k [] = false
contains k (s ∷ seen) = k == s || contains k seen

-- The names that the query finds, less the active ones.
unfoldable pub stale_names : ℕ → List String → List MinimaxCycle → List String
stale_names account active rows =
    keep_if (λ name. not (contains name active))
      (map (λ c. c.quota_type.1)
        (keep_if (λ c. c.quota_type.0 == account && not (is_some c.cycle_end)) rows))

-- The loop over the stale names, which stops at the first statement that fails.
unfoldable pub end_all : ℕ → ℕ → List String → Action DbError MinimaxDb (Unit {0})
end_all account end [] = pure tt
end_all account end (name ∷ names) = do end_cycle (account, name) end; end_all account end names

-- `CloseStaleMiniMaxCycles`; the count of closed cycles is only logged.
unfoldable pub close_stale_minimax_cycles :
    ℕ → List String → ℕ → Action DbError MinimaxDb (Unit {0})
unfolding end_all stale_names
close_stale_minimax_cycles account active end d =
    let d' : MinimaxDb = record d { calls = d.calls + 1 } in
    let stale = stale_names account active d.rows in
    let closed = end_all account end stale d' in
    if d.fails d.calls then (err db_error, d') else closed

abbrev pub call : {A : Type 0} → Error → Action DbError MinimaxDb A → Action Error MinimaxTracker A
call e m t =
    let (r, db') = m t.db in (elim r [ ok a ↦ ok a | err _ ↦ err e ], record t { db = db' })

-- `t.lastUsed[key] = model.Used`, and the reset time if there is one.
abbrev remember : ℕ → MinimaxModelQuota → Action Error MinimaxTracker (Unit {0})
remember account q t = (
  ok tt,
  record t {
    last_used = insert (account, q.model_name) q.used t.last_used;
    last_reset_at = elim q.reset_at [
      | none ↦ t.last_reset_at
      | some r ↦ insert (account, q.model_name) r t.last_reset_at
    ];
  },
)

abbrev notify_reset : String → Action Error MinimaxTracker (Unit {0})
notify_reset name t =
    (ok tt, record t { notified = if t.on_reset then name ∷ t.notified else t.notified })

-- What the tracker remembers of a model: `hasLastValue`, `lastUsed` and `lastResetAt`.
pub record Memory : Type 0 where
  pub has_last : Bool
  pub used : Option ℕ
  pub reset : Option ℕ

abbrev pub memory_of : MinimaxTracker → ℕ → String → Memory
memory_of t account name = record {
  has_last = is_true (lookup (account, name) t.has_last_value);
  used = lookup (account, name) t.last_used;
  reset = lookup (account, name) t.last_reset_at;
}

-- The reset time moved by more than ten minutes from the last one known.
unfoldable pub reset_moved : Memory → Option ℕ → Bool
reset_moved m (some new) = elim m.reset [
  | none ↦ false
  | some last ↦ shifted_beyond (10 * minute) new last
]
reset_moved m none = false

-- The use fell below six tenths of the last one, `int(float64(last)*0.6)`.
unfoldable pub dropped : Memory → ℕ → Bool
dropped m used =
    m.has_last && elim m.used [ none ↦ false | some last ↦ ltb 0 last && ltb used (last * 6 / 10) ]

unfoldable pub cycle_end : ℕ → Option ℕ → ℕ
cycle_end captured_at none = captured_at
cycle_end captured_at (some old) = if after captured_at old then old else captured_at

-- The delta and the peak of the ongoing cycle.
unfoldable pub grown : Memory → ℕ → MinimaxCycle → MinimaxCycle
unfolding add_positive
grown m used cycle = record cycle {
  total_delta =
      if m.has_last
      then elim m.used [
        | none ↦ cycle.total_delta
        | some last ↦ add_positive cycle.total_delta last used
      ]
      else cycle.total_delta;
  peak_requests = if ltb cycle.peak_requests used then used else cycle.peak_requests;
}

unfoldable pub start_first : ℕ → MinimaxModelQuota → ℕ → Action Error MinimaxTracker (Unit {0})
start_first account q captured_at = do
  call create_failed (create_minimax_cycle q.model_name captured_at q.reset_at account)
  call initial_peak_failed (update_minimax_cycle q.model_name q.used 0 account)
  remember account q

unfoldable pub roll_over :
    ℕ → MinimaxModelQuota → ℕ → MinimaxCycle → Action Error MinimaxTracker (Unit {0})
unfolding cycle_end
roll_over account q captured_at cycle = do
  call close_failed (
      close_minimax_cycle q.model_name (cycle_end captured_at cycle.renews_at) cycle.peak_requests
        cycle.total_delta account)
  call new_cycle_failed (create_minimax_cycle q.model_name captured_at q.reset_at account)
  call initial_peak_failed (update_minimax_cycle q.model_name q.used 0 account)
  remember account q
  notify_reset q.model_name

unfoldable pub same_cycle :
    ℕ → MinimaxModelQuota → Memory → MinimaxCycle → Action Error MinimaxTracker (Unit {0})
unfolding grown
same_cycle account q m cycle = do
  let final = grown m q.used cycle
  call update_failed
      (update_minimax_cycle q.model_name final.peak_requests final.total_delta account)
  remember account q

unfoldable pub model_found :
    ℕ
    → MinimaxModelQuota
    → ℕ
    → Memory
    → Option MinimaxCycle
    → Action Error MinimaxTracker (Unit {0})
model_found account q captured_at m none = start_first account q captured_at
model_found account q captured_at m (some cycle) =
    if reset_moved m q.reset_at || dropped m q.used
    then roll_over account q captured_at cycle
    else same_cycle account q m cycle

-- `processModel`, of a model that has a name.
unfoldable pub process_named : ℕ → MinimaxModelQuota → ℕ → Action Error MinimaxTracker (Unit {0})
process_named account q captured_at t =
    let m : Action Error MinimaxTracker (Unit {0}) =
      call query_failed (query_active_minimax_cycle q.model_name account)
      >>= model_found account q captured_at (memory_of t account q.model_name) in
    m t

-- `processModel`
unfoldable pub process_model : ℕ → MinimaxModelQuota → ℕ → Action Error MinimaxTracker (Unit {0})
process_model account q captured_at =
    if q.model_name == "" then pure tt else process_named account q captured_at

-- The models that the first loop does not skip.
abbrev pub is_allocated : MinimaxModelQuota → Bool
is_allocated q = not (q.total == 0 && q.used == 0)

-- `activeModels`
unfoldable pub active_models : List MinimaxModelQuota → List String
active_models [] = []
active_models (q ∷ models) =
    if is_allocated q && not (q.model_name == "")
    then q.model_name ∷ active_models models
    else active_models models

-- One turn of the first loop of `Process`.
unfoldable pub process_allocated :
    ℕ → MinimaxModelQuota → ℕ → Action Error MinimaxTracker (Unit {0})
process_allocated account q captured_at =
    if is_allocated q then process_model account q captured_at else pure tt

-- The first loop of `Process`, which stops at the first model that fails.
unfoldable pub process_models :
    ℕ → ℕ → List MinimaxModelQuota → Action (String × Error) MinimaxTracker (Unit {0})
process_models account captured_at [] t = (ok tt, t)
process_models account captured_at (q ∷ models) t =
    let (r, t') = process_allocated account q captured_at t in
    let next = process_models account captured_at models t' in
    elim r [ ok _ ↦ next | err e ↦ (err (q.model_name, e), t') ]

-- The second loop of `Process`.
unfoldable pub mark_seen :
    ℕ → List MinimaxModelQuota → Dict (ℕ × String) Bool → Dict (ℕ × String) Bool
mark_seen account [] m = m
mark_seen account (q ∷ models) m =
    mark_seen account models
      (if q.model_name == "" then m else insert (account, q.model_name) true m)

-- The end of `Process`: an error of the store is only logged.
unfoldable pub close_stale : ℕ → List String → ℕ → Action (String × Error) MinimaxTracker (Unit {0})
close_stale account [] captured_at t = (ok tt, t)
close_stale account (name ∷ names) captured_at t = (
  ok tt,
  record t { db = (close_stale_minimax_cycles account (name ∷ names) captured_at t.db).1 },
)

-- `Process`
unfoldable pub process : MinimaxSnapshot → ℕ → Action (String × Error) MinimaxTracker (Unit {0})
process s account = do
  process_models account s.captured_at s.models
  λ t. (ok tt, record t { has_last_value = mark_seen account s.models t.has_last_value })
  close_stale account (active_models s.models) s.captured_at

-- The snapshots of the accounts' agents, one after another.
unfoldable pub run : List (ℕ × MinimaxSnapshot) → MinimaxTracker → MinimaxTracker
run [] t = t
run ((account, s) ∷ rest) t = run rest (process s account t).1
