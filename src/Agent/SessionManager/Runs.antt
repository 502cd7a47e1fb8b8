-- ===== src/Agent/SessionManager/Runs.antt =====
-- Whole runs of a session manager: the table is the log, the answers say what changed, and a
-- session ends when polls have shown nothing new for longer than the idle timeout.
use loomwatch.Prelude.{
  ℕ, ◌≡◌, ◌≢◌, ◌↔◌, refl, ◌∙◌, ap, String, true, false, Option, none, some, List, [], ◌∷◌, arith,
  ◌==◌, string_eq,
}
use loomwatch.Store.UsageSessions.{Session, SessionDb, has_id}
use loomwatch.Agent.SessionManager.{SessionManager, new_session_manager, report_poll, close}
use loomwatch.Agent.SessionManager.Log.{
  Log, Event, polls, closes, same_values_iff, log_close, log_event, log_run, start_log,
  has_changed_lem,
}
use loomwatch.Agent.SessionManager.Refinement.{as_Logs, not_idle, closed-Logs, poll-Logs}
use loomwatch.Agent.SessionManager.Rows.{Logs, sessions, id_of}

unfoldable pub step : Event → SessionManager → SessionManager
step (polls id now values) sm = (report_poll id now values sm).0
step (closes now) sm = close now sm

unfoldable pub run : List Event → SessionManager → SessionManager
run [] sm = sm
run (v ∷ vs) sm = run vs (step v sm)

-- Each poll brings an id that is not empty and that no session has.
abbrev pub IsNewIn : Event → Log → Type 0
IsNewIn (polls id now values) l =
    ((id == "") ≡ false) × (has_id id (sessions l.past l.current) ≡ false)
IsNewIn (closes now) l = Unit

module _ (provider : String) (idle : ℕ) where
  abbrev pub IdsAreNew : List Event → Log → Type 0
  IdsAreNew [] l = Unit
  IdsAreNew (v ∷ vs) l = IsNewIn v l × IdsAreNew vs (log_event provider idle v l)

  close-Logs :
      (sm : SessionManager) (now : ℕ) (l : Log) (current : Option Session)
      → l.current ≡ current
      → Logs provider idle sm l
      → Logs provider idle (close now sm) (log_close provider idle now l current)
  unfolding close
  close-Logs sm now l none e r =
      let empty = (string_eq.matches_iff sm.session_id "").1 (r.active ∙ ap id_of e) in
      as_Logs provider idle (ground arith) refl r
  close-Logs sm now l (some c) e r =
      let active = not_idle provider idle sm l c r e in
      as_Logs provider idle (ground arith) refl (closed-Logs provider idle sm l c r e now)

  pub run-Logs :
      (events : List Event) (sm : SessionManager) (l : Log)
      → IdsAreNew events l
      → Logs provider idle sm l
      → Logs provider idle (run events sm) (log_run provider idle events l)
  unfolding run step
  run-Logs [] sm l new r = r
  run-Logs (polls id now values ∷ vs) sm l new r =
      run-Logs vs _ _ new.1
        (poll-Logs provider idle sm id now values l l.prev refl new.0.0 new.0.1 r)
  run-Logs (closes now ∷ vs) sm l new r =
      run-Logs vs _ _ new.1 (close-Logs sm now l l.current refl r)

  pub new-Logs :
      (db : SessionDb)
      → ((n : ℕ) → db.fails n ≡ false)
      → Logs provider idle (new_session_manager db provider idle) (start_log db.rows)
  unfolding new_session_manager
  new-Logs db fine = record {
    same_provider = refl;
    same_idle = refl;
    fine = fine;
    table = refl;
    active = refl;
    new = tt;
    at = refl;
    prev = refl;
  }

-- A new manager, after any polls and closings, while no statement fails and the ids are new: the
-- table holds what it held and then, in order, exactly the past sessions and the current session of
-- the log; and the manager's session is the log's current one.
pub run-sessions :
    (provider : String) (idle : ℕ) (events : List Event) (db : SessionDb)
    → ((n : ℕ) → db.fails n ≡ false)
    → IdsAreNew provider idle events (start_log db.rows)
    → ((run events (new_session_manager db provider idle)).db.rows
        ≡ sessions
            (log_run provider idle events (start_log db.rows)).past
            (log_run provider idle events (start_log db.rows)).current)
      × ((run events (new_session_manager db provider idle)).session_id
          ≡ id_of (log_run provider idle events (start_log db.rows)).current)
run-sessions provider idle events db fine new =
    let r = run-Logs provider idle events _ _ new (new-Logs provider idle db fine) in
    (r.table, r.active)

-- Whatever statements fail: a poll says that usage changed exactly if there was a poll before it
-- and its values are not the last ones.
pub report_poll-changed :
    (id : String) (now : ℕ) (values : List ℕ) (sm : SessionManager)
    → ((report_poll id now values sm).1 ≡ true) ↔ ((sm.has_prev ≡ true) × (values ≢ sm.prev_values))
unfolding report_poll
report_poll-changed id now values sm =
    ground (arith, has_changed_lem values sm, same_values_iff values sm.prev_values)
