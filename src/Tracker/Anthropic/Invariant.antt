-- ===== src/Tracker/Anthropic/Invariant.antt =====
-- What every call of the Anthropic tracker keeps, whichever of its statements fail.
use loomwatch.Prelude.{
  ℕ, suc, ◌≡◌, refl, String, false, Option, none, some, List, [], ◌∷◌, Result, inl, inr, arith,
  string_eq, Bool-cases, ◌||◌,
}
use loomwatch.Store.Cycles.{
  ResetCycle, create_cycle, close_cycle, update_cycle, query_active_cycle, active_row,
}
use loomwatch.Store.Cycles.Rows.{active_row-close}
use loomwatch.Store.Cycles.Kept.{KeepsClosed, KeepsClosed-refl, KeepsClosed-trans}
use loomwatch.Store.Cycles.Writes.{
  Writes, nothing, more, created, closed, updated, AtMostOneActive, Writes-AtMostOneActive,
  Writes-KeepsClosed,
}
use loomwatch.Tracker.Synthetic.{Error, add_positive}
use loomwatch.Tracker.Anthropic.{
  AnthropicQuota, AnthropicSnapshot, AnthropicTracker, last_util, time_based, api_based, end_time,
  higher_of, gained, start_first, roll_over, update_same, same_cycle, process_found, process_quota,
  process_quotas, process, run,
}

module _ (quota : AnthropicQuota) (captured_at : ℕ) (t : AnthropicTracker) where
  abbrev AfterCall : Result Error (Unit {0}) × AnthropicTracker → Type 0
  AfterCall r = Writes quota.name t.db.rows r.1.db.rows

  unwritten : Writes quota.name t.db.rows t.db.rows
  unwritten = nothing

  start_first-Writes :
      active_row quota.name t.db.rows ≡ none → AfterCall (start_first quota captured_at t)
  unfolding start_first create_cycle update_cycle
  start_first-Writes free =
      let one = more unwritten (created t.db.next_id captured_at quota.resets_at free refl) in
      ground (arith, unwritten, one, more one (updated quota.utilization 0 refl))

  roll_over-Writes :
      (last : Option ℕ) (c : ResetCycle String (Option ℕ))
      → AfterCall (roll_over quota captured_at last c t)
  unfolding roll_over create_cycle update_cycle close_cycle
  roll_over-Writes last c =
      let end = end_time captured_at c.renews_at in
      let final = gained last quota.utilization c in
      let one = more unwritten (closed end final.peak_requests final.total_delta refl) in
      let two = more one (
        created t.db.next_id captured_at quota.resets_at
          (active_row-close quota.name end final.peak_requests final.total_delta t.db.rows) refl) in
      ground (arith, unwritten, one, two, more two (updated quota.utilization 0 refl))

  same_cycle-Writes :
      (last : Option ℕ) (c : ResetCycle String (Option ℕ)) → AfterCall (same_cycle quota last c t)
  unfolding same_cycle update_same update_cycle
  same_cycle-Writes none c =
      ground (arith, unwritten, more unwritten (updated quota.utilization c.total_delta refl))
  same_cycle-Writes (some last) c =
      let peak = higher_of c.peak_requests quota.utilization in
      let total = add_positive c.total_delta last quota.utilization in
      ground (arith, unwritten, more unwritten (updated peak total refl))

  process_found-Writes :
      (last : Option ℕ) (found : Option (ResetCycle String (Option ℕ)))
      → active_row quota.name t.db.rows ≡ found
      → AfterCall (process_found quota captured_at last found t)
  unfolding process_found
  process_found-Writes last none free = start_first-Writes free
  process_found-Writes last (some c) h =
      elim (Bool-cases
        (time_based captured_at c.renews_at || api_based quota.resets_at c.renews_at)) [
          | inl reset ↦ rw (reset, process_found) (roll_over-Writes last c)
          | inr same ↦ rw (same, process_found) (same_cycle-Writes last c)
        ]

-- All that a call does to the table is a sequence of writes for its quota: it creates a cycle only
-- where none is active, and otherwise ends or updates the active one.
pub process_quota-Writes :
    (quota : AnthropicQuota) (captured_at : ℕ) (t : AnthropicTracker)
    → Writes quota.name t.db.rows (process_quota quota captured_at t).1.db.rows
unfolding process_quota query_active_cycle
process_quota-Writes quota captured_at t =
    let t' = record t { db = record t.db { calls = suc t.db.calls } } in
    ground (
      arith,
      unwritten quota captured_at t,
      process_found-Writes quota captured_at t' (last_util t quota.name)
          (active_row quota.name t.db.rows) refl,
    )

process_quotas-AtMostOneActive :
    (quotas : List AnthropicQuota) (captured_at : ℕ) (t : AnthropicTracker)
    → AtMostOneActive t.db.rows
    → AtMostOneActive (process_quotas quotas captured_at t).1.db.rows
unfolding process_quotas
process_quotas-AtMostOneActive [] captured_at t h k = h k
process_quotas-AtMostOneActive (quota ∷ rest) captured_at t h k =
    let t' = (process_quota quota captured_at t).1 in
    let one = Writes-AtMostOneActive quota.name (process_quota-Writes quota captured_at t) h in
    ground (arith, one k, process_quotas-AtMostOneActive rest captured_at t' one k)

process_quotas-KeepsClosed :
    (quotas : List AnthropicQuota) (captured_at : ℕ) (t : AnthropicTracker)
    → KeepsClosed t.db.rows (process_quotas quotas captured_at t).1.db.rows
unfolding process_quotas
process_quotas-KeepsClosed [] captured_at t i c stands done = stands
process_quotas-KeepsClosed (quota ∷ rest) captured_at t i c stands done =
    let t' = (process_quota quota captured_at t).1 in
    let one =
      Writes-KeepsClosed quota.name (process_quota-Writes quota captured_at t) i c stands done in
    ground (arith, one, process_quotas-KeepsClosed rest captured_at t' i c one done)

-- `Process` ends with the rows that its loop leaves.
pub process-rows :
    (s : AnthropicSnapshot) (t : AnthropicTracker)
    → (process s t).1.db.rows ≡ (process_quotas s.quotas s.captured_at t).1.db.rows
unfolding process
process-rows s t = ground arith

-- Over any sequence of snapshots, also when statements of the store fail: no quota ever has two
-- active cycles if none had at the start, and a completed cycle is never changed.
pub run-history :
    (snapshots : List AnthropicSnapshot) (t : AnthropicTracker)
    → AtMostOneActive t.db.rows
    → AtMostOneActive (run snapshots t).db.rows × KeepsClosed t.db.rows (run snapshots t).db.rows
unfolding run
run-history [] t h = (h, KeepsClosed-refl t.db.rows)
run-history (s ∷ rest) t h =
    let t' = (process s t).1 in
    let one : AtMostOneActive t'.db.rows =
      rw (process-rows s t) (process_quotas-AtMostOneActive s.quotas s.captured_at t h) in
    let kept : KeepsClosed t.db.rows t'.db.rows =
      rw (process-rows s t) (process_quotas-KeepsClosed s.quotas s.captured_at t) in
    let later = run-history rest t' one in
    (later.0, KeepsClosed-trans t.db.rows t'.db.rows (run rest t').db.rows kept later.1)

-- Where the query does not fail, the call goes on from the active cycle.
pub process_quota_found :
    (quota : AnthropicQuota) (captured_at : ℕ) (t : AnthropicTracker)
    → t.db.fails t.db.calls ≡ false
    → process_quota quota captured_at t
      ≡ process_found quota captured_at
          (last_util t quota.name)
          (active_row quota.name t.db.rows)
          (record t { db = record t.db { calls = suc t.db.calls } })
unfolding process_quota query_active_cycle
process_quota_found quota captured_at t fine = ground arith
