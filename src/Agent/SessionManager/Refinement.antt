-- ===== src/Agent/SessionManager/Refinement.antt =====
-- The session manager and its table against the log of Log, while no statement fails and the ids
-- are new.
use loomwatch.Prelude.{
  ℕ, suc, ◌-◌, ◌≡◌, refl, ◌∙◌, ap, subst, inl, inr, Bool-cases, String, true, false, not, Option,
  none, some, List, [], ◌∷◌, ◌++◌, arith, ◌==◌, nat_eq, string_eq, ltb,
}
use loomwatch.Store.UsageSessions.{Session, has_id, value_at, new_session, ended, create_session}
use loomwatch.Agent.SessionManager.{
  SessionManager, has_changed, increment_and_update, close_active, note_activity, session_started,
  report_change, report_same, report_poll,
}
use loomwatch.Agent.SessionManager.Log.{
  Log, same_values, seen, log_change, log_quiet, log_later, has_changed_lem,
}
use loomwatch.Agent.SessionManager.Rows.{
  CurrentIsNew, Logs, PrevIs, close_active-rows, id_of, increment_and_update-rows, sessions,
}

module _ (provider : String) (idle : ℕ) where
  -- Both sides are known to be something else.
  pub as_Logs :
      {sm sm' : SessionManager} {l l' : Log}
      → sm ≡ sm'
      → l ≡ l'
      → Logs provider idle sm' l'
      → Logs provider idle sm l
  as_Logs p q r = rw (p, q) r

  module _ (sm : SessionManager) (l : Log) (c : Session) (r : Logs provider idle sm l) where
    -- The current session is `c`.
    module _ (e : l.current ≡ some c) where
      active_id : sm.session_id ≡ c.id
      active_id = r.active ∙ ap id_of e

      current_table : sm.db.rows ≡ l.past ++ c ∷ []
      current_table = r.table ∙ ap (sessions l.past) e

      current_new : CurrentIsNew l.past (some c)
      current_new = subst (CurrentIsNew l.past) e r.new

      pub not_idle : (sm.session_id == "") ≡ false
      not_idle = rw active_id current_new.0

      -- It is counted, possibly after its last activity was set.
      counted-Logs :
          (at : ℕ) (values : List ℕ)
          → Logs provider idle
              (increment_and_update values (record sm { last_activity_time = at }))
              (record l { current = some (seen values c); last_activity = at })
      counted-Logs at values =
          let sm' = record sm { last_activity_time = at } in
          as_Logs
            (increment_and_update-rows l.past c sm' r.fine current_table active_id current_new.1
              values)
            refl
            (record {
              same_provider = r.same_provider;
              same_idle = r.same_idle;
              fine = r.fine;
              table = refl;
              active = active_id;
              new = current_new;
              at = refl;
              prev = r.prev;
            })

      kept-Logs :
          (values : List ℕ)
          → Logs provider idle
              (increment_and_update values sm)
              (record l { current = some (seen values c) })
      kept-Logs values =
          as_Logs
            (increment_and_update-rows l.past c sm r.fine current_table active_id current_new.1
              values)
            refl
            (record {
              same_provider = r.same_provider;
              same_idle = r.same_idle;
              fine = r.fine;
              table = refl;
              active = active_id;
              new = current_new;
              at = r.at;
              prev = r.prev;
            })

      pub closed-Logs :
          (now : ℕ)
          → Logs provider idle
              (close_active now sm)
              (record l { past = l.past ++ ended now c ∷ []; current = none })
      closed-Logs now =
          as_Logs (close_active-rows l.past c sm r.fine current_table active_id current_new.1 now)
            refl
            (record {
              same_provider = r.same_provider;
              same_idle = r.same_idle;
              fine = r.fine;
              table = refl;
              active = refl;
              new = tt;
              at = r.at;
              prev = r.prev;
            })

  report_same-Logs :
      (sm : SessionManager) (now : ℕ) (values : List ℕ) (l : Log) (current : Option Session)
      → l.current ≡ current
      → Logs provider idle sm l
      → Logs provider idle
          (report_same now values sm)
          (log_quiet provider idle now values l current)
  unfolding report_same
  report_same-Logs sm now values l none e r =
      let inactive : sm.session_id ≡ "" = r.active ∙ ap id_of e in
      let empty = (string_eq.matches_iff sm.session_id "").1 inactive in
      as_Logs (ground arith) refl r
  report_same-Logs sm now values l (some c) e r =
      let active = not_idle sm l c r e in
      let same_idle = r.same_idle in
      let same_at = r.at in
      elim (Bool-cases (ltb idle (now - l.last_activity))) [
        | inl late ↦ as_Logs (ground arith) (ground arith) (closed-Logs sm l c r e now)
        | inr early ↦ as_Logs (ground arith) (ground arith) (kept-Logs sm l c r e values)
      ]

  report_change-Logs :
      (sm : SessionManager) (id : String) (now : ℕ) (prev values : List ℕ) (l : Log)
      (current : Option Session)
      → l.current ≡ current
      → (id == "") ≡ false
      → has_id id sm.db.rows ≡ false
      → Logs provider idle sm l
      → Logs provider idle (report_change id now prev values sm) (record l {
        current = some (log_change provider idle id now values prev current);
        last_activity = now;
      })
  unfolding report_change create_session session_started note_activity new_session
  report_change-Logs sm id now prev values l none e named unused r =
      let starts : List ℕ = value_at 0 prev ∷ value_at 1 prev ∷ value_at 2 prev ∷ [] in
      let c = new_session id now 0 provider starts in
      let table : sm.db.rows ≡ l.past = r.table ∙ ap (sessions l.past) e in
      let inactive : sm.session_id ≡ "" = r.active ∙ ap id_of e in
      let started : SessionManager = record sm {
        db = record sm.db { rows = sm.db.rows ++ c ∷ []; calls = suc sm.db.calls };
        session_id = id;
        last_activity_time = now;
      } in
      let works = r.fine sm.db.calls in
      let l1 : Log = record l { current = some c } in
      let started-Logs : Logs provider idle
          (record started { last_activity_time = l.last_activity }) l1 =
        record {
          same_provider = r.same_provider;
          same_idle = r.same_idle;
          fine = r.fine;
          table = ap (λ rows. rows ++ c ∷ []) table;
          active = refl;
          new = (named, subst (λ rows. has_id id rows ≡ false) table unused);
          at = refl;
          prev = r.prev;
        } in
      let empty = (string_eq.matches_iff sm.session_id "").1 inactive in
      as_Logs (ground (arith, r.same_provider)) refl
        (counted-Logs _ l1 c started-Logs refl now values)
  report_change-Logs sm id now prev values l (some c) e named unused r =
      let active = not_idle sm l c r e in
      as_Logs (ground arith) refl (counted-Logs sm l c r e now values)

  same_prev :
      (sm : SessionManager) (values : List ℕ) (l : Log)
      → sm.has_prev ≡ true
      → Logs provider idle sm l
      → Logs provider idle (record sm { prev_values = values }) (record l { prev = some values })
  same_prev sm values l based r = record {
    same_provider = r.same_provider;
    same_idle = r.same_idle;
    fine = r.fine;
    table = r.table;
    active = r.active;
    new = r.new;
    at = r.at;
    prev = (based, refl);
  }

  pub poll-Logs :
      (sm : SessionManager) (id : String) (now : ℕ) (values : List ℕ) (l : Log)
      (prev : Option (List ℕ))
      → l.prev ≡ prev
      → (id == "") ≡ false
      → has_id id (sessions l.past l.current) ≡ false
      → Logs provider idle sm l
      → Logs provider idle
          (report_poll id now values sm).0
          (log_later provider idle id now values l prev)
  unfolding report_poll
  poll-Logs sm id now values l none e named unused r =
      let unbased : sm.has_prev ≡ false =
        subst (λ p. PrevIs p sm.has_prev sm.prev_values) e r.prev in
      as_Logs {sm' = record sm { prev_values = values; has_prev = true }} (ground arith) refl
        (record {
          same_provider = r.same_provider;
          same_idle = r.same_idle;
          fine = r.fine;
          table = r.table;
          active = r.active;
          new = r.new;
          at = r.at;
          prev = (refl, refl);
        })
  poll-Logs sm id now values l (some prev) e named unused r =
      let based : PrevIs (some prev) sm.has_prev sm.prev_values =
        subst (λ p. PrevIs p sm.has_prev sm.prev_values) e r.prev in
      let changed : has_changed values sm ≡ not (same_values values prev) =
        subst (λ ps. has_changed values sm ≡ not (same_values values ps)) based.1
          (has_changed_lem values sm based.0) in
      let r' = same_prev sm values l based.0 r in
      let sm' = record sm { prev_values = values } in
      let l' = record l { prev = some values } in
      let free : has_id id sm.db.rows ≡ false = rw r.table unused in
      let starts = based.1 in
      elim (Bool-cases (same_values values prev)) [
        | inl same ↦
            as_Logs (ground (arith, based.0)) (ground arith)
              (report_same-Logs sm' now values l' l.current refl r')
        | inr differs ↦
            as_Logs (ground (arith, based.0, based.1)) (ground arith)
              (report_change-Logs sm' id now prev values l' l.current refl named free r')
      ]
