-- ===== src/Agent/SessionManager.antt =====
-- internal/agent/session_manager.go: a session of a provider's usage starts when polled values
-- change and ends when they have not changed for longer than the idle timeout. The time and the
-- random id of a poll are arguments.
pub mod Log
pub mod Rows
pub mod Refinement
pub mod Runs
pub mod Idle
mod Tests
use loomwatch.Prelude.{
  ℕ, ◌-◌, ◌≡◌, String, Bool, true, false, not, ◌||◌, Option, none, some, List, [], ◌∷◌, Result, ok,
  err, ◌==◌, nat_eq, string_eq, ltb, if◌then◌else◌, length,
}
use loomwatch.Store.Cycles.{DbError}
use loomwatch.Store.UsageSessions.{
  SessionDb, value_at, create_session, close_session, update_session_max_requests,
  increment_snapshot_count,
}

-- `type SessionManager struct`, with the table it writes.
pub record SessionManager : Type 0 where
  pub db : SessionDb
  pub provider : String
  pub idle_timeout : ℕ
  pub session_id : String
  pub last_activity_time : ℕ
  pub prev_values : List ℕ
  pub has_prev : Bool

-- `NewSessionManager`
unfoldable pub new_session_manager : SessionDb → String → ℕ → SessionManager
new_session_manager db provider idle = record {
  db = db;
  provider = provider;
  idle_timeout = idle;
  session_id = "";
  last_activity_time = 0;
  prev_values = [];
  has_prev = false;
}

-- The loop of `hasChanged`, over lists of one length.
abbrev pub any_differs : List ℕ → List ℕ → Bool
any_differs [] prev = false
any_differs (v ∷ vs) [] = false
any_differs (v ∷ vs) (p ∷ ps) = if not (v == p) then true else any_differs vs ps

-- `hasChanged`
unfoldable pub has_changed : List ℕ → SessionManager → Bool
has_changed values sm =
    if not sm.has_prev
    then false
    else if not (length values == length sm.prev_values)
    then true
    else any_differs values sm.prev_values

-- `incrementAndUpdate`; both statements' errors are only logged.
unfoldable pub increment_and_update : List ℕ → SessionManager → SessionManager
increment_and_update values sm =
    let (_, db1) = increment_snapshot_count sm.session_id sm.db in
    let sub = value_at 0 values in
    let search = value_at 1 values in
    let tool = value_at 2 values in
    let (_, db2) = update_session_max_requests sm.session_id sub search tool db1 in
    record sm { db = db2 }

-- `closeSession`; the statement's error is only logged.
unfoldable pub close_active : ℕ → SessionManager → SessionManager
close_active end sm =
    let (_, db') = close_session sm.session_id end sm.db in record sm { db = db'; session_id = "" }

-- The change branch of `ReportPoll`, once a session is there.
unfoldable pub note_activity : ℕ → List ℕ → SessionManager → SessionManager
note_activity now values sm = increment_and_update values (record sm { last_activity_time = now })

-- The start of a session, from what `CreateSession` returned.
unfoldable pub session_started :
    ℕ → List ℕ → SessionManager → Result DbError (Unit {0}) → SessionManager
session_started now values sm (err _) = record sm { session_id = "" }
session_started now values sm (ok _) = note_activity now values sm

-- The change branch of `ReportPoll`.
unfoldable pub report_change : String → ℕ → List ℕ → List ℕ → SessionManager → SessionManager
report_change id now old_prev values sm =
    if sm.session_id == ""
    then (let (r, db') =
          create_session id now 0 sm.provider
            (value_at 0 old_prev ∷ value_at 1 old_prev ∷ value_at 2 old_prev ∷ []) sm.db in
        session_started now values
          (record sm { db = db'; session_id = id; last_activity_time = now }) r)
    else note_activity now values sm

-- The branch of `ReportPoll` without a change.
unfoldable pub report_same : ℕ → List ℕ → SessionManager → SessionManager
report_same now values sm =
    if not (sm.session_id == "")
    then if ltb sm.idle_timeout (now - sm.last_activity_time)
      then close_active now sm
      else increment_and_update values sm
    else sm

-- `ReportPoll`, with the id that `uuid.New()` returns and the time.
unfoldable pub report_poll : String → ℕ → List ℕ → SessionManager → SessionManager × Bool
report_poll id now values sm =
    let changed = has_changed values sm in
    let old_prev = sm.prev_values in
    let sm' = record sm { prev_values = values } in
    if not sm.has_prev
    then (record sm' { has_prev = true }, false)
    else if changed
    then (report_change id now old_prev values sm', true)
    else (report_same now values sm', false)

-- `Close`
unfoldable pub close : ℕ → SessionManager → SessionManager
close now sm = if sm.session_id == "" then sm else close_active now sm
