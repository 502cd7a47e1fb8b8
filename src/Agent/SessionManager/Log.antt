-- ===== src/Agent/SessionManager/Log.antt =====
-- What a session manager promises, on a list of sessions instead of a table: past sessions in
-- order, at most one current one, and the last polled values.
use loomwatch.Prelude.{
  ℕ, ◌-◌, ◌≡◌, refl, ◌↔◌, String, Bool, true, false, not, ◌&&◌, Option, none, some, List, [], ◌∷◌,
  ◌++◌, arith, ◌==◌, nat_eq, string_eq, ltb, if◌then◌else◌, length,
}
use loomwatch.Store.UsageSessions.{Session, value_at, new_session, ended, raised, counted}
use loomwatch.Agent.SessionManager.{SessionManager, any_differs, has_changed}

pub record Log : Type 0 where
  pub past : List Session
  pub current : Option Session
  pub last_activity : ℕ
  pub prev : Option (List ℕ)

abbrev pub same_values : List ℕ → List ℕ → Bool
same_values [] [] = true
same_values [] (p ∷ ps) = false
same_values (v ∷ vs) [] = false
same_values (v ∷ vs) (p ∷ ps) = v == p && same_values vs ps

pub same_values_iff : (vs ps : List ℕ) → (same_values vs ps ≡ true) ↔ (vs ≡ ps)
same_values_iff [] [] = ground arith
same_values_iff [] (p ∷ ps) = ground arith
same_values_iff (v ∷ vs) [] = ground arith
same_values_iff (v ∷ vs) (p ∷ ps) = ground (arith, same_values_iff vs ps)

-- A poll that counts for a session.
abbrev pub seen : List ℕ → Session → Session
seen values c = raised (value_at 0 values) (value_at 1 values) (value_at 2 values) (counted c)

module _ (provider : String) (idle : ℕ) where
  abbrev pub log_change : String → ℕ → List ℕ → List ℕ → Option Session → Session
  log_change id now values prev none =
      let starts = value_at 0 prev ∷ value_at 1 prev ∷ value_at 2 prev ∷ [] in
      seen values (new_session id now 0 provider starts)
  log_change id now values prev (some c) = seen values c

  abbrev pub log_quiet : ℕ → List ℕ → Log → Option Session → Log
  log_quiet now values l none = l
  log_quiet now values l (some c) =
      if ltb idle (now - l.last_activity)
      then record l { past = l.past ++ ended now c ∷ []; current = none }
      else record l { current = some (seen values c) }

  abbrev pub log_later : String → ℕ → List ℕ → Log → Option (List ℕ) → Log
  log_later id now values l none = record l { prev = some values }
  log_later id now values l (some prev) =
      let l' = record l { prev = some values } in
      if same_values values prev then log_quiet now values l' l.current else record l' {
        current = some (log_change id now values prev l.current);
        last_activity = now;
      }

any_differs-same_values :
    (vs ps : List ℕ) → length vs ≡ length ps → any_differs vs ps ≡ not (same_values vs ps)
any_differs-same_values [] [] h = refl
any_differs-same_values [] (p ∷ ps) h = ground arith
any_differs-same_values (v ∷ vs) [] h = ground arith
any_differs-same_values (v ∷ vs) (p ∷ ps) h = ground (arith, any_differs-same_values vs ps)

same_values-length : (vs ps : List ℕ) → same_values vs ps ≡ true → length vs ≡ length ps
same_values-length [] [] h = refl
same_values-length [] (p ∷ ps) h = cc
same_values-length (v ∷ vs) [] h = cc
same_values-length (v ∷ vs) (p ∷ ps) h = ground (arith, same_values-length vs ps)

-- With a baseline, the code's comparison is equality with the last values.
pub has_changed_lem :
    (values : List ℕ) (sm : SessionManager)
    → sm.has_prev ≡ true
    → has_changed values sm ≡ not (same_values values sm.prev_values)
unfolding has_changed
has_changed_lem values sm based =
    ground (
      arith,
      any_differs-same_values values sm.prev_values,
      same_values-length values sm.prev_values,
    )

pub data Event : Type 0 where
  polls : String → ℕ → List ℕ → Event
  closes : ℕ → Event

module _ (provider : String) (idle : ℕ) where
  abbrev pub log_close : ℕ → Log → Option Session → Log
  log_close now l none = l
  log_close now l (some c) = record l { past = l.past ++ ended now c ∷ []; current = none }

  abbrev pub log_event : Event → Log → Log
  log_event (polls id now values) l = log_later provider idle id now values l l.prev
  log_event (closes now) l = log_close now l l.current

  abbrev pub log_run : List Event → Log → Log
  log_run [] l = l
  log_run (v ∷ vs) l = log_run vs (log_event v l)

abbrev pub start_log : List Session → Log
start_log past = record { past = past; current = none; last_activity = 0; prev = none }
