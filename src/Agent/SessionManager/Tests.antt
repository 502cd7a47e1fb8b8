-- ===== src/Agent/SessionManager/Tests.antt =====
-- The session manager on concrete polls, and its theorems there.
use loomwatch.Prelude.{
  ℕ, ◌≡◌, refl, String, true, false, none, List, [], ◌∷◌, ◌++◌, arith, string_eq,
}
use loomwatch.Store.UsageSessions.{SessionDb, Session, new_session, ended}
use loomwatch.Agent.SessionManager.{SessionManager, new_session_manager}
use loomwatch.Agent.SessionManager.Log.{Event, polls, closes, log_run, start_log}
use loomwatch.Agent.SessionManager.Rows.{Logs, sessions, id_of}
use loomwatch.Agent.SessionManager.Runs.{run, run-sessions}
use loomwatch.Agent.SessionManager.Idle.{quiet, in_session, seen_times, run-idle}

abbrev db : SessionDb
db = record { rows = []; calls = 0; fails = λ n. false }

-- A baseline, two changes, a quiet poll after the timeout, a change and a shutdown.
abbrev day : List Event
day =
    polls "a" 0 (5 ∷ [])
    ∷ polls "b" 10 (6 ∷ [])
    ∷ polls "c" 20 (9 ∷ [])
    ∷ polls "d" 200 (9 ∷ [])
    ∷ polls "e" 210 (1 ∷ [])
    ∷ closes 220
    ∷ []

run-sessions_example :
    ((run day (new_session_manager db "zai" 100)).db.rows
      ≡ sessions
          (log_run "zai" 100 day (start_log [])).past
          (log_run "zai" 100 day (start_log [])).current)
    × ((run day (new_session_manager db "zai" 100)).session_id
        ≡ id_of (log_run "zai" 100 day (start_log [])).current)
unfolding new_session
run-sessions_example =
    run-sessions "zai" 100 day db (λ n. refl)
      ((refl, refl), ((refl, refl), ((refl, refl), ((refl, refl), ((refl, refl), (tt, tt))))))

abbrev session : Session
session = record {
  id = "b";
  provider = "zai";
  started_at = 10;
  ended_at = none;
  poll_interval = 0;
  max_sub_requests = 9;
  max_search_requests = 0;
  max_tool_requests = 0;
  start_sub_requests = 5;
  start_search_requests = 0;
  start_tool_requests = 0;
  snapshot_count = 2;
}

abbrev manager : SessionManager
manager = record {
  db = record db { rows = session ∷ [] };
  provider = "zai";
  idle_timeout = 100;
  session_id = "b";
  last_activity_time = 20;
  prev_values = 9 ∷ [];
  has_prev = true;
}

manager-Logs : Logs "zai" 100 manager (in_session [] session 20 (9 ∷ []))
manager-Logs = record {
  same_provider = refl;
  same_idle = refl;
  fine = λ n. refl;
  table = refl;
  active = refl;
  new = (refl, refl);
  at = refl;
  prev = (refl, refl);
}

abbrev quiet_polls : List (String × ℕ)
quiet_polls = ("x", 50) ∷ ("y", 120) ∷ []

run-idle_example :
    ((run (quiet (9 ∷ []) quiet_polls ++ polls "z" 121 (9 ∷ []) ∷ []) manager).db.rows
      ≡ ended 121 (seen_times 2 (9 ∷ []) session) ∷ [])
    × ((run (quiet (9 ∷ []) quiet_polls ++ polls "z" 121 (9 ∷ []) ∷ []) manager).session_id ≡ "")
run-idle_example =
    run-idle "zai" 100 20 121 manager [] session (9 ∷ []) quiet_polls "z" manager-Logs
      ((refl, refl), ((refl, refl), ((refl, refl), tt))) (omega arith, (omega arith, tt))
      (omega arith)
