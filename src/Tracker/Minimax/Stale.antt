-- ===== src/Tracker/Minimax/Stale.antt =====
-- The cycles of models that a MiniMax account no longer has are closed.
use loomwatch.Prelude.{
  ℕ, suc, ◌+◌, ◌≡◌, ◌≢◌, ◌∙◌, refl, ap, String, false, Option, none, some, List, [], ◌∷◌, Result,
  ok, arith, string_eq, nat_eq, pair_eq, if◌then◌else◌, ltb,
}
use loomwatch.Store.Cycles.{
  create_cycle, close_cycle, update_cycle, end_cycle, query_active_cycle, actives, active_row,
  end_rows,
}
use loomwatch.Store.Cycles.Rows.{actives-end}
use loomwatch.Tracker.Synthetic.{Error}
use loomwatch.Tracker.Minimax.{
  MinimaxModelQuota, MinimaxSnapshot, MinimaxTracker, MinimaxCycle, MinimaxDb, Memory, memory_of,
  create_minimax_cycle, close_minimax_cycle, update_minimax_cycle, query_active_minimax_cycle,
  contains, stale_names, end_all, close_stale_minimax_cycles, start_first, roll_over, same_cycle,
  model_found, process_named, process_model, process_allocated, process_models, active_models,
  mark_seen, close_stale, process,
}

-- No statement fails.
abbrev pub IsReliable : MinimaxDb → Type 0
IsReliable d = (n : ℕ) → d.fails n ≡ false

module _ (account : ℕ) (q : MinimaxModelQuota) (captured_at : ℕ) where
  -- A call that succeeds, over a table whose statements keep failing as they did.
  abbrev Succeeds : MinimaxTracker → Result Error (Unit {0}) × MinimaxTracker → Type 0
  Succeeds t r = (r.0 ≡ ok tt) × (r.1.db.fails ≡ t.db.fails)

  start_first-Succeeds :
      (t : MinimaxTracker) → IsReliable t.db → Succeeds t (start_first account q captured_at t)
  unfolding start_first create_minimax_cycle update_minimax_cycle create_cycle update_cycle
  start_first-Succeeds t fine = ground (arith, fine t.db.calls, fine (suc t.db.calls))

  roll_over-Succeeds :
      (c : MinimaxCycle) (t : MinimaxTracker)
      → IsReliable t.db
      → Succeeds t (roll_over account q captured_at c t)
  unfolding roll_over create_minimax_cycle update_minimax_cycle close_minimax_cycle create_cycle
      update_cycle close_cycle
  roll_over-Succeeds c t fine =
      ground (arith, fine t.db.calls, fine (suc t.db.calls), fine (suc (suc t.db.calls)))

  same_cycle-Succeeds :
      (m : Memory) (c : MinimaxCycle) (t : MinimaxTracker)
      → IsReliable t.db
      → Succeeds t (same_cycle account q m c t)
  unfolding same_cycle update_minimax_cycle update_cycle
  same_cycle-Succeeds m c t fine = ground (arith, fine t.db.calls)

  model_found-Succeeds :
      (m : Memory) (found : Option MinimaxCycle) (t : MinimaxTracker)
      → IsReliable t.db
      → Succeeds t (model_found account q captured_at m found t)
  unfolding model_found
  model_found-Succeeds m none t fine = start_first-Succeeds t fine
  model_found-Succeeds m (some c) t fine =
      ground (arith, roll_over-Succeeds c t fine, same_cycle-Succeeds m c t fine)

  process_named-Succeeds :
      (t : MinimaxTracker) → IsReliable t.db → Succeeds t (process_named account q captured_at t)
  unfolding process_named query_active_minimax_cycle query_active_cycle
  process_named-Succeeds t fine =
      let t' = record t { db = record t.db { calls = suc t.db.calls } } in
      let m = memory_of t account q.model_name in
      ground (
        arith,
        fine t.db.calls,
        model_found-Succeeds m (active_row (account, q.model_name) t.db.rows) t' fine,
      )

  process_allocated-Succeeds :
      (t : MinimaxTracker)
      → IsReliable t.db
      → Succeeds t (process_allocated account q captured_at t)
  unfolding process_allocated process_model
  process_allocated-Succeeds t fine = ground (arith, process_named-Succeeds t fine)

module _ (account captured_at : ℕ) where
  process_models-Succeeds :
      (models : List MinimaxModelQuota) (t : MinimaxTracker)
      → IsReliable t.db
      → let (r, t') = process_models account captured_at models t in
        (r ≡ ok tt) × (t'.db.fails ≡ t.db.fails)
  unfolding process_models
  process_models-Succeeds [] t fine = (refl, refl)
  process_models-Succeeds (q ∷ models) t fine =
      let t1 = (process_allocated account q captured_at t).1 in
      let one = process_allocated-Succeeds account q captured_at t fine in
      let fine1 : IsReliable t1.db = λ n. rw one.1 (fine n) in
      ground (arith, one, process_models-Succeeds models t1 fine1)

  -- A table with the active cycle of a model ended.
  abbrev one_ended : String → MinimaxDb → MinimaxDb
  one_ended name d = record d {
    rows = end_rows (account, name) captured_at d.rows;
    calls = suc d.calls;
  }

  end_cycle-eq :
      (name : String) (d : MinimaxDb)
      → IsReliable d
      → end_cycle (account, name) captured_at d ≡ (ok tt, one_ended name d)
  unfolding end_cycle
  end_cycle-eq name d fine = ground (arith, fine d.calls)

  end_all-eq :
      (name : String) (names : List String) (d : MinimaxDb)
      → IsReliable d
      → (end_all account captured_at (name ∷ names) d).1
        ≡ (end_all account captured_at names (one_ended name d)).1
  unfolding end_all
  end_all-eq name names d fine = ground (arith, end_cycle-eq name d fine)

  end_all-actives :
      (m : String) (names : List String) (d : MinimaxDb)
      → IsReliable d
      → actives (account, m) (end_all account captured_at names d).1.rows
        ≡ (if contains m names then 0 else actives (account, m) d.rows)
  unfolding end_all
  end_all-actives m [] d fine = refl
  end_all-actives m (name ∷ names) d fine =
      ap (λ (x : MinimaxDb). actives (account, m) x.rows) (end_all-eq name names d fine)
      ∙ end_all-actives m names (one_ended name d) fine
      ∙ ground (
        arith,
        string_eq.matches_iff m name,
        (pair_eq {A = ℕ} {B = String}).matches_iff (account, name) (account, m),
        actives-end (account, m) (account, name) captured_at d.rows,
      )

-- A discontinued model is stale if it has an active cycle.
stale_names-actives :
    (account : ℕ) (active : List String) (m : String) (rows : List MinimaxCycle)
    → contains m active ≡ false
    → contains m (stale_names account active rows) ≡ ltb 0 (actives (account, m) rows)
unfolding stale_names actives
stale_names-actives account active m [] gone = refl
stale_names-actives account active m (c ∷ rows) gone = ground (
  arith,
  nat_eq.matches_iff c.quota_type.0 account,
  string_eq.matches_iff c.quota_type.1 m,
  string_eq.matches_iff m c.quota_type.1,
  stale_names-actives account active m rows gone,
)

close_stale-actives :
    (account captured_at : ℕ) (m : String) (active : List String) (t : MinimaxTracker)
    → IsReliable t.db
    → active ≢ []
    → contains m active ≡ false
    → actives (account, m) (close_stale account active captured_at t).1.db.rows ≡ 0
unfolding close_stale close_stale_minimax_cycles
close_stale-actives account captured_at m [] t fine nonempty gone = absurd (nonempty refl)
close_stale-actives account captured_at m (name ∷ names) t fine nonempty gone =
    let d' : MinimaxDb = record t.db { calls = t.db.calls + 1 } in
    let stale = stale_names account (name ∷ names) t.db.rows in
    ground (
      arith,
      fine t.db.calls,
      end_all-actives account captured_at m stale d' fine,
      stale_names-actives account (name ∷ names) m t.db.rows gone,
    )

-- A snapshot that is processed with no failing statement, and that has a model with a name and an
-- allocation, leaves its account no active cycle of any model but such ones, whatever was active
-- before.
pub process_closes_stale :
    (account : ℕ) (s : MinimaxSnapshot) (t : MinimaxTracker) (m : String)
    → IsReliable t.db
    → active_models s.models ≢ []
    → contains m (active_models s.models) ≡ false
    → actives (account, m) (process s account t).1.db.rows ≡ 0
unfolding process
process_closes_stale account s t m fine some_model gone =
    let t1 = (process_models account s.captured_at s.models t).1 in
    let done = process_models-Succeeds account s.captured_at s.models t fine in
    let t2 : MinimaxTracker = record t1 {
      has_last_value = mark_seen account s.models t1.has_last_value;
    } in
    let fine1 : IsReliable t1.db = λ n. rw done.1 (fine n) in
    ground (
      arith,
      done,
      close_stale-actives account s.captured_at m (active_models s.models) t2 fine1 some_model gone,
    )
