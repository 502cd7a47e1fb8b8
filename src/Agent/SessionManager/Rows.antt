-- ===== src/Agent/SessionManager/Rows.antt =====
-- When a session manager and its table stand for a log, and what the statements of a poll do to the
-- current session's row.
use loomwatch.Prelude.{
  ℕ, suc, ◌≡◌, refl, String, Bool, true, false, Option, none, some, List, [], ◌∷◌, ◌++◌, ◌==◌,
  nat_eq, string_eq,
}
use loomwatch.Store.UsageSessions.{
  Session, has_id, value_at, ended, raised, counted, close_session, update_session_max_requests,
  increment_snapshot_count, update_last,
}
use loomwatch.Agent.SessionManager.{SessionManager, increment_and_update, close_active}
use loomwatch.Agent.SessionManager.Log.{Log, seen}

-- The log's sessions, in the table's order.
abbrev pub sessions : List Session → Option Session → List Session
sessions past none = past
sessions past (some c) = past ++ c ∷ []

abbrev pub id_of : Option Session → String
id_of none = ""
id_of (some c) = c.id

-- The current session's id is not empty and no earlier session has it.
abbrev pub CurrentIsNew : List Session → Option Session → Type 0
CurrentIsNew past none = Unit
CurrentIsNew past (some c) = ((c.id == "") ≡ false) × (has_id c.id past ≡ false)

abbrev pub PrevIs : Option (List ℕ) → Bool → List ℕ → Type 0
PrevIs none has values = has ≡ false
PrevIs (some prev) has values = (has ≡ true) × (values ≡ prev)

-- The manager and its table stand for a log.
pub record Logs (provider : String) (idle : ℕ) (sm : SessionManager) (l : Log) : Type 0 where
  pub same_provider : sm.provider ≡ provider
  pub same_idle : sm.idle_timeout ≡ idle
  pub fine : (n : ℕ) → sm.db.fails n ≡ false
  pub table : sm.db.rows ≡ sessions l.past l.current
  pub active : sm.session_id ≡ id_of l.current
  pub new : CurrentIsNew l.past l.current
  pub at : sm.last_activity_time ≡ l.last_activity
  pub prev : PrevIs l.prev sm.has_prev sm.prev_values

-- The same on its parts, so that each branch of a poll is a lemma.
module _ (past : List Session) (c : Session) (sm : SessionManager)
    (fine : (n : ℕ) → sm.db.fails n ≡ false) (table : sm.db.rows ≡ past ++ c ∷ [])
    (active : sm.session_id ≡ c.id) (new : has_id c.id past ≡ false) where
  -- A poll that counts rewrites the current session's row, and it alone.
  pub increment_and_update-rows :
      (values : List ℕ)
      → increment_and_update values sm ≡ (record sm {
        db = record sm.db { rows = past ++ seen values c ∷ []; calls = suc (suc sm.db.calls) };
      })
  unfolding increment_and_update increment_snapshot_count update_session_max_requests
  increment_and_update-rows values =
      let one = update_last c.id counted past c new refl in
      let two =
        update_last c.id (raised (value_at 0 values) (value_at 1 values) (value_at 2 values)) past
          (counted c) new refl in
      rw (fine sm.db.calls, fine (suc sm.db.calls), active, table, one, two) refl

  pub close_active-rows :
      (now : ℕ)
      → close_active now sm ≡ (record sm {
        session_id = "";
        db = record sm.db { rows = past ++ ended now c ∷ []; calls = suc sm.db.calls };
      })
  unfolding close_active close_session
  close_active-rows now =
      let one = update_last c.id (ended now) past c new refl in
      rw (fine sm.db.calls, active, table, one) refl
