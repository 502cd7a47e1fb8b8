-- ===== src/Agent/SessionManager/Idle.antt =====
-- How a session ends: polls with unchanged values keep it for the idle timeout, and the first one
-- after that closes it.
use loomwatch.Prelude.{
  ℕ, zero, suc, ◌+◌, ◌-◌, ◌≤◌, ◌<◌, ◌≡◌, refl, ◌∙◌, ap, String, true, false, none, some, List, [],
  ◌∷◌, ◌++◌, arith, string_eq, ltb, length,
}
use loomwatch.Store.UsageSessions.{Session, ended}
use loomwatch.Agent.SessionManager.{SessionManager}
use loomwatch.Agent.SessionManager.Log.{
  Log, Event, polls, same_values, same_values_iff, seen, log_run, log_event, log_later, log_quiet,
}
use loomwatch.Agent.SessionManager.Rows.{Logs, sessions, id_of}
use loomwatch.Agent.SessionManager.Runs.{run, run-Logs, IdsAreNew}

-- Polls that all show the same values.
abbrev pub quiet : List ℕ → List (String × ℕ) → List Event
quiet values [] = []
quiet values ((id, now) ∷ ps) = polls id now values ∷ quiet values ps

-- No poll is later than a time.
abbrev pub AllUpTo : ℕ → List (String × ℕ) → Type 0
AllUpTo end [] = Unit
AllUpTo end ((id, now) ∷ ps) = (now ≤ end) × AllUpTo end ps

-- A session after a number of polls with the same values.
abbrev pub seen_times : ℕ → List ℕ → Session → Session
seen_times zero values c = c
seen_times (suc n) values c = seen_times n values (seen values c)

-- The log in a session that was last active at a time, after a poll with the values.
abbrev pub in_session : List Session → Session → ℕ → List ℕ → Log
in_session past c at values = record {
  past = past;
  current = some c;
  last_activity = at;
  prev = some values;
}

-- The log after that session has ended.
abbrev pub after_session : List Session → Session → ℕ → ℕ → List ℕ → Log
after_session past c at end values = record {
  past = past ++ ended end c ∷ [];
  current = none;
  last_activity = at;
  prev = some values;
}

module _ (provider : String) (idle at : ℕ) (past : List Session) (values : List ℕ) where
  same : same_values values values ≡ true
  same = (same_values_iff values values).1 refl

  log_run-quiet :
      (ps : List (String × ℕ)) (late : ℕ) (id : String) (c : Session)
      → AllUpTo (at + idle) ps
      → at + idle < late
      → log_run provider idle
          (quiet values ps ++ polls id late values ∷ [])
          (in_session past c at values)
        ≡ after_session past (seen_times (length ps) values c) at late values
  log_run-quiet [] late id c early over = rw same (ground arith)
  log_run-quiet ((i, now) ∷ ps) late id c early over =
      let rest = log_run-quiet ps late id (seen values c) early.1 over in
      let kept : ltb idle (now - at) ≡ false = ground (arith, early.0) in
      rw (log_run, log_event, log_later, same, log_quiet, kept) rest

-- In a session, while no statement fails: polls that show the last values again, none later than
-- the last activity and the idle timeout, each count for the session and leave it open; the first
-- one after that closes it at its own time and is not counted.
pub run-idle :
    (provider : String) (idle at late : ℕ) (sm : SessionManager) (past : List Session) (c : Session)
    (values : List ℕ) (ps : List (String × ℕ)) (id : String)
    → Logs provider idle sm (in_session past c at values)
    → IdsAreNew provider idle
        (quiet values ps ++ polls id late values ∷ [])
        (in_session past c at values)
    → AllUpTo (at + idle) ps
    → at + idle < late
    → ((run (quiet values ps ++ polls id late values ∷ []) sm).db.rows
        ≡ past ++ ended late (seen_times (length ps) values c) ∷ [])
      × ((run (quiet values ps ++ polls id late values ∷ []) sm).session_id ≡ "")
run-idle provider idle at late sm past c values ps id r new early over =
    let r' = run-Logs provider idle _ sm (in_session past c at values) new r in
    let e = log_run-quiet provider idle at past values ps late id c early over in
    (r'.table ∙ ap (λ l. sessions l.past l.current) e, r'.active ∙ ap (λ l. id_of l.current) e)
