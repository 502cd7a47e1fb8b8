-- ===== src/Tracker/Minimax/History.antt =====
-- What the MiniMax tracker keeps about the cycles of every account, whichever of its statements fail.
use loomwatch.Prelude.{
  ℕ, suc, ◌+◌, ◌≡◌, ◌⊎◌, refl, inl, inr, Bool-cases, String, Option, none, some, List, [], ◌∷◌,
  Result, arith, string_eq, nat_eq, pair_eq,
}
use loomwatch.Store.Cycles.{
  create_cycle, close_cycle, update_cycle, end_cycle, query_active_cycle, active_row,
}
use loomwatch.Store.Cycles.Rows.{active_row-close}
use loomwatch.Store.Cycles.Kept.{KeepsClosed, KeepsClosed-trans}
use loomwatch.Store.Cycles.Writes.{
  Writes, nothing, more, created, closed, updated, stopped, AtMostOneActive, Keeps, Keeps-refl,
  Keeps-trans, Writes-Keeps,
}
use loomwatch.Tracker.Synthetic.{Error}
use loomwatch.Tracker.Minimax.{
  MinimaxModelQuota, MinimaxSnapshot, MinimaxTracker, MinimaxCycle, MinimaxDb, Memory, memory_of,
  cycle_end, grown, create_minimax_cycle, close_minimax_cycle, update_minimax_cycle,
  query_active_minimax_cycle, stale_names, end_all, close_stale_minimax_cycles, start_first,
  roll_over, same_cycle, model_found, process_named, process_model, process_allocated,
  process_models, active_models, mark_seen, close_stale, process, run,
}

module _ (account : ℕ) (q : MinimaxModelQuota) (captured_at : ℕ) where
  abbrev key : ℕ × String
  key = (account, q.model_name)

  abbrev AfterCall : MinimaxTracker → Result Error (Unit {0}) × MinimaxTracker → Type 0
  AfterCall t r = Writes key t.db.rows r.1.db.rows

  start_first-Writes :
      (t : MinimaxTracker)
      → active_row key t.db.rows ≡ none
      → AfterCall t (start_first account q captured_at t)
  unfolding start_first create_minimax_cycle update_minimax_cycle create_cycle update_cycle
  start_first-Writes t free =
      let unwritten : Writes key t.db.rows t.db.rows = nothing in
      let one = more unwritten (created t.db.next_id captured_at q.reset_at free refl) in
      ground (arith, unwritten, one, more one (updated q.used 0 refl))

  roll_over-Writes :
      (c : MinimaxCycle) (t : MinimaxTracker) → AfterCall t (roll_over account q captured_at c t)
  unfolding roll_over create_minimax_cycle update_minimax_cycle close_minimax_cycle create_cycle
      update_cycle close_cycle
  roll_over-Writes c t =
      let unwritten : Writes key t.db.rows t.db.rows = nothing in
      let end = cycle_end captured_at c.renews_at in
      let one = more unwritten (closed end c.peak_requests c.total_delta refl) in
      let two = more one (
        created t.db.next_id captured_at q.reset_at
          (active_row-close key end c.peak_requests c.total_delta t.db.rows) refl) in
      ground (arith, unwritten, one, two, more two (updated q.used 0 refl))

  same_cycle-Writes :
      (m : Memory) (c : MinimaxCycle) (t : MinimaxTracker)
      → AfterCall t (same_cycle account q m c t)
  unfolding same_cycle update_minimax_cycle update_cycle
  same_cycle-Writes m c t =
      let unwritten : Writes key t.db.rows t.db.rows = nothing in
      let final = grown m q.used c in
      ground (arith, unwritten, more unwritten (updated final.peak_requests final.total_delta refl))

  model_found-Writes :
      (m : Memory) (found : Option MinimaxCycle) (t : MinimaxTracker)
      → active_row key t.db.rows ≡ found
      → AfterCall t (model_found account q captured_at m found t)
  unfolding model_found
  model_found-Writes m none t free = start_first-Writes t free
  model_found-Writes m (some c) t h = ground (arith, roll_over-Writes c t, same_cycle-Writes m c t)

  process_named-Writes : (t : MinimaxTracker) → AfterCall t (process_named account q captured_at t)
  unfolding process_named query_active_minimax_cycle query_active_cycle
  process_named-Writes t =
      let unwritten : Writes key t.db.rows t.db.rows = nothing in
      let t' = record t { db = record t.db { calls = suc t.db.calls } } in
      let m = memory_of t account q.model_name in
      ground (arith, unwritten, model_found-Writes m (active_row key t.db.rows) t' refl)

  process_model-Writes : (t : MinimaxTracker) → AfterCall t (process_model account q captured_at t)
  unfolding process_model
  process_model-Writes t =
      let unwritten : Writes key t.db.rows t.db.rows = nothing in
      ground (arith, unwritten, process_named-Writes t)

  process_allocated-Writes :
      (t : MinimaxTracker) → AfterCall t (process_allocated account q captured_at t)
  unfolding process_allocated
  process_allocated-Writes t =
      let unwritten : Writes key t.db.rows t.db.rows = nothing in
      ground (arith, unwritten, process_model-Writes t)

  -- The loop ends with this model or goes on after it.
  process_models-rows :
      (models : List MinimaxModelQuota) (t : MinimaxTracker)
      → let t1 = (process_allocated account q captured_at t).1 in
        ((process_models account captured_at (q ∷ models) t).1 ≡ t1)
        ⊎ ((process_models account captured_at (q ∷ models) t).1
            ≡ (process_models account captured_at models t1).1)
  unfolding process_models
  process_models-rows models t = ground arith

module _ (account captured_at : ℕ) where
  process_models-Keeps :
      (models : List MinimaxModelQuota) (t : MinimaxTracker)
      → Keeps t.db.rows (process_models account captured_at models t).1.db.rows
  unfolding process_models
  process_models-Keeps [] t = Keeps-refl t.db.rows
  process_models-Keeps (q ∷ models) t =
      let t1 = (process_allocated account q captured_at t).1 in
      let t2 = (process_models account captured_at models t1).1 in
      let one =
        Writes-Keeps (account, q.model_name) (process_allocated-Writes account q captured_at t) in
      elim (process_models-rows account q captured_at models t) [
        | inl e ↦ rw e one
        | inr e ↦
            rw e (Keeps-trans t.db.rows t1.db.rows t2.db.rows one (process_models-Keeps models t1))
      ]

  end_cycle-Writes :
      (name : String) (d : MinimaxDb)
      → Writes (account, name) d.rows (end_cycle (account, name) captured_at d).1.rows
  unfolding end_cycle
  end_cycle-Writes name d =
      let unwritten : Writes (account, name) d.rows d.rows = nothing in
      ground (arith, unwritten, more unwritten (stopped captured_at refl))

  end_all-rows :
      (name : String) (names : List String) (d : MinimaxDb)
      → let d1 = (end_cycle (account, name) captured_at d).1 in
        ((end_all account captured_at (name ∷ names) d).1 ≡ d1)
        ⊎ ((end_all account captured_at (name ∷ names) d).1
            ≡ (end_all account captured_at names d1).1)
  unfolding end_all
  end_all-rows name names d = ground arith

  end_all-Keeps :
      (names : List String) (d : MinimaxDb)
      → Keeps d.rows (end_all account captured_at names d).1.rows
  unfolding end_all
  end_all-Keeps [] d = Keeps-refl d.rows
  end_all-Keeps (name ∷ names) d =
      let d1 = (end_cycle (account, name) captured_at d).1 in
      let d2 = (end_all account captured_at names d1).1 in
      let one = Writes-Keeps (account, name) (end_cycle-Writes name d) in
      elim (end_all-rows name names d) [
        | inl e ↦ rw e one
        | inr e ↦ rw e (Keeps-trans d.rows d1.rows d2.rows one (end_all-Keeps names d1))
      ]

  close_stale_minimax_cycles-Keeps :
      (active : List String) (d : MinimaxDb)
      → Keeps d.rows (close_stale_minimax_cycles account active captured_at d).1.rows
  unfolding close_stale_minimax_cycles
  close_stale_minimax_cycles-Keeps active d =
      let d' : MinimaxDb = record d { calls = d.calls + 1 } in
      elim (Bool-cases (d.fails d.calls)) [
        | inl failed ↦ rw (failed, close_stale_minimax_cycles) (Keeps-refl d.rows)
        | inr fine ↦
            rw (fine, close_stale_minimax_cycles)
              (end_all-Keeps (stale_names account active d.rows) d')
      ]

  close_stale-Keeps :
      (active : List String) (t : MinimaxTracker)
      → Keeps t.db.rows (close_stale account active captured_at t).1.db.rows
  unfolding close_stale
  close_stale-Keeps [] t = Keeps-refl t.db.rows
  close_stale-Keeps (name ∷ names) t = close_stale_minimax_cycles-Keeps (name ∷ names) t.db

module _ (account : ℕ) (s : MinimaxSnapshot) where
  -- The tracker when the first loop succeeds.
  abbrev pub marked : MinimaxTracker → MinimaxTracker
  marked t = record t { has_last_value = mark_seen account s.models t.has_last_value }

  process-rows :
      (t : MinimaxTracker)
      → let t1 = (process_models account s.captured_at s.models t).1 in
        ((process s account t).1 ≡ t1)
        ⊎ ((process s account t).1
            ≡ (close_stale account (active_models s.models) s.captured_at (marked t1)).1)
  unfolding process
  process-rows t = ground arith

  process-Keeps : (t : MinimaxTracker) → Keeps t.db.rows (process s account t).1.db.rows
  process-Keeps t =
      let t1 = (process_models account s.captured_at s.models t).1 in
      let t2 = (close_stale account (active_models s.models) s.captured_at (marked t1)).1 in
      let one = process_models-Keeps account s.captured_at s.models t in
      elim (process-rows t) [
        | inl e ↦ rw e one
        | inr e ↦ rw e (
            Keeps-trans t.db.rows t1.db.rows t2.db.rows one
              (close_stale-Keeps account s.captured_at (active_models s.models) (marked t1)))
      ]

-- Over any snapshots of any MiniMax accounts, also when statements of the store fail: no model of an
-- account ever has two active cycles if none had at the start, and a completed cycle is never
-- changed, not by the closing of the cycles of discontinued models either.
pub run-minimax_history :
    (feed : List (ℕ × MinimaxSnapshot)) (t : MinimaxTracker)
    → AtMostOneActive t.db.rows
    → AtMostOneActive (run feed t).db.rows × KeepsClosed t.db.rows (run feed t).db.rows
unfolding run
run-minimax_history [] t h = (h, (Keeps-refl t.db.rows).1)
run-minimax_history ((account, s) ∷ rest) t h =
    let t' = (process s account t).1 in
    let kept = process-Keeps account s t in
    let later = run-minimax_history rest t' (kept.0 h) in
    (later.0, KeepsClosed-trans t.db.rows t'.db.rows (run rest t').db.rows kept.1 later.1)
