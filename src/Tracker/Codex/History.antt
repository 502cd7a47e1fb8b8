-- ===== src/Tracker/Codex/History.antt =====
-- What the Codex tracker keeps about every account's cycles, whichever of its statements fail.
use loomwatch.Prelude.{
  ℕ, suc, ◌≡◌, refl, String, Option, none, some, List, [], ◌∷◌, Result, inl, inr, arith, string_eq,
  nat_eq, pair_eq, Bool-cases, Option-cases,
}
use loomwatch.Store.Cycles.{
  create_cycle, close_cycle, update_cycle, update_cycle_resets_at, query_active_cycle, active_row,
}
use loomwatch.Store.Cycles.Rows.{active_row-close}
use loomwatch.Store.Cycles.Kept.{KeepsClosed, KeepsClosed-refl, KeepsClosed-trans}
use loomwatch.Store.Cycles.Writes.{
  Writes, nothing, more, created, closed, updated, moved, AtMostOneActive, Writes-AtMostOneActive,
  Writes-KeepsClosed, Writes-trans,
}
use loomwatch.Tracker.Codex.{
  CodexQuota, CodexSnapshot, CodexTracker, CodexCycle, Error, Memory, memory_of, or_default,
  create_codex_cycle, close_codex_cycle, update_codex_cycle, update_codex_cycle_resets_at,
  query_active_codex_cycle, reset_found, ends_at, grown, grown_if, start_first, roll_over,
  update_resets_at, update_usage, same_cycle, process_found, process_quota, process_quotas, process,
  run,
}

module _ (account : ℕ) (quota : CodexQuota) (captured_at : ℕ) where
  abbrev key : ℕ × String
  key = (or_default account, quota.name)

  abbrev AfterCall : CodexTracker → Result Error (Unit {0}) × CodexTracker → Type 0
  AfterCall t r = Writes key t.db.rows r.1.db.rows

  start_first-Writes :
      (t : CodexTracker)
      → active_row key t.db.rows ≡ none
      → AfterCall t (start_first account quota captured_at t)
  unfolding start_first create_codex_cycle update_codex_cycle create_cycle update_cycle
  start_first-Writes t free =
      let unwritten : Writes key t.db.rows t.db.rows = nothing in
      let one = more unwritten (created t.db.next_id captured_at quota.resets_at free refl) in
      ground (arith, unwritten, one, more one (updated quota.utilization 0 refl))

  roll_over-Writes :
      (m : Memory) (c : CodexCycle) (t : CodexTracker)
      → AfterCall t (roll_over account quota captured_at m c t)
  unfolding roll_over create_codex_cycle update_codex_cycle close_codex_cycle create_cycle
      update_cycle close_cycle
  roll_over-Writes m c t =
      let unwritten : Writes key t.db.rows t.db.rows = nothing in
      let end = ends_at captured_at c.renews_at in
      let final = grown_if m quota.utilization c in
      let one = more unwritten (closed end final.peak_requests final.total_delta refl) in
      let two = more one (
        created t.db.next_id captured_at quota.resets_at
          (active_row-close key end final.peak_requests final.total_delta t.db.rows) refl) in
      ground (arith, unwritten, one, two, more two (updated quota.utilization 0 refl))

  update_resets_at-Writes : (t : CodexTracker) → AfterCall t (update_resets_at account quota t)
  unfolding update_resets_at update_codex_cycle_resets_at update_cycle_resets_at
  update_resets_at-Writes t =
      let unwritten : Writes key t.db.rows t.db.rows = nothing in
      ground (arith, unwritten, more unwritten (moved quota.resets_at refl))

  update_usage-Writes :
      (m : Memory) (c : CodexCycle) (t : CodexTracker)
      → AfterCall t (update_usage account quota m c t)
  unfolding update_usage update_codex_cycle update_cycle
  update_usage-Writes m c t = elim (Option-cases m.value) [
    | inl unknown ↦
        let unwritten : Writes key t.db.rows t.db.rows = nothing in
        ground (arith, unwritten, more unwritten (updated quota.utilization c.total_delta refl))
    | inr (last, e) ↦
        let unwritten : Writes key t.db.rows t.db.rows = nothing in
        let final = grown last quota.utilization c in
        rw e (
          ground (
            arith,
            unwritten,
            more unwritten (updated quota.utilization c.total_delta refl),
            more unwritten (updated final.peak_requests final.total_delta refl),
          ))
  ]

  same_cycle-Writes :
      (m : Memory) (c : CodexCycle) (t : CodexTracker)
      → AfterCall t (same_cycle account quota m c t)
  unfolding same_cycle
  same_cycle-Writes m c t =
      let one = update_resets_at-Writes t in
      let t' = (update_resets_at account quota t).1 in
      let two = Writes-trans key t.db.rows one (update_usage-Writes m c t') in
      ground (arith, one, two)

  process_found-Writes :
      (m : Memory) (t : CodexTracker) (found : Option CodexCycle)
      → active_row key t.db.rows ≡ found
      → AfterCall t (process_found account quota captured_at m found t)
  unfolding process_found
  process_found-Writes m t none free = start_first-Writes t free
  process_found-Writes m t (some c) h =
      elim (Bool-cases (reset_found captured_at quota m c.renews_at)) [
        | inl reset ↦ rw (reset, process_found) (roll_over-Writes m c t)
        | inr same ↦ rw (same, process_found) (same_cycle-Writes m c t)
      ]

  pub process_quota-Writes :
      (t : CodexTracker) → AfterCall t (process_quota account quota captured_at t)
  unfolding process_quota query_active_codex_cycle query_active_cycle
  process_quota-Writes t =
      let unwritten : Writes key t.db.rows t.db.rows = nothing in
      let t' = record t { db = record t.db { calls = suc t.db.calls } } in
      ground (
        arith,
        unwritten,
        process_found-Writes (memory_of t account quota.name) t' (active_row key t.db.rows) refl,
      )

module _ (account : ℕ) (captured_at : ℕ) where
  process_quotas-AtMostOneActive :
      (quotas : List CodexQuota) (t : CodexTracker)
      → AtMostOneActive t.db.rows
      → AtMostOneActive (process_quotas account quotas captured_at t).1.db.rows
  unfolding process_quotas
  process_quotas-AtMostOneActive [] t h k = h k
  process_quotas-AtMostOneActive (quota ∷ rest) t h k =
      let t' = (process_quota account quota captured_at t).1 in
      let one =
        Writes-AtMostOneActive (or_default account, quota.name)
          (process_quota-Writes account quota captured_at t) h in
      ground (arith, one k, process_quotas-AtMostOneActive rest t' one k)

  process_quotas-KeepsClosed :
      (quotas : List CodexQuota) (t : CodexTracker)
      → KeepsClosed t.db.rows (process_quotas account quotas captured_at t).1.db.rows
  unfolding process_quotas
  process_quotas-KeepsClosed [] t i c stands done = stands
  process_quotas-KeepsClosed (quota ∷ rest) t i c stands done =
      let t' = (process_quota account quota captured_at t).1 in
      let one =
        Writes-KeepsClosed (or_default account, quota.name)
          (process_quota-Writes account quota captured_at t) i c stands done in
      ground (arith, one, process_quotas-KeepsClosed rest t' i c one done)

process-rows :
    (s : CodexSnapshot) (t : CodexTracker)
    → (process s t).1.db.rows
      ≡ (process_quotas (or_default s.account_id) s.quotas s.captured_at t).1.db.rows
unfolding process
process-rows s t = ground arith

-- Over any snapshots of any accounts, also when statements of the store fail: no quota of an
-- account ever has two active cycles if none had at the start, and a completed cycle is never
-- changed.
pub run-codex_history :
    (snapshots : List CodexSnapshot) (t : CodexTracker)
    → AtMostOneActive t.db.rows
    → AtMostOneActive (run snapshots t).db.rows × KeepsClosed t.db.rows (run snapshots t).db.rows
unfolding run
run-codex_history [] t h = (h, KeepsClosed-refl t.db.rows)
run-codex_history (s ∷ rest) t h =
    let t' = (process s t).1 in
    let account = or_default s.account_id in
    let one : AtMostOneActive t'.db.rows =
      rw (process-rows s t) (process_quotas-AtMostOneActive account s.captured_at s.quotas t h) in
    let kept : KeepsClosed t.db.rows t'.db.rows =
      rw (process-rows s t) (process_quotas-KeepsClosed account s.captured_at s.quotas t) in
    let later = run-codex_history rest t' one in
    (later.0, KeepsClosed-trans t.db.rows t'.db.rows (run rest t').db.rows kept later.1)
