-- ===== src/Tracker/Anthropic/Recording.antt =====
-- What one successful call of the Anthropic tracker records.
use loomwatch.Prelude.{
  ℕ, suc, ◌≤◌, ◌≡◌, refl, String, true, Option, none, some, List, Result, ok, arith, inl, inr,
  string_eq, is_some, Bool-cases, ◌||◌, beq_self,
}
use loomwatch.Prelude.Dict.{lookup, insert, lookup-insert}
use loomwatch.Store.Cycles.{
  ResetCycle, new_cycle, updated, create_cycle, close_cycle, update_cycle, query_active_cycle,
  active_row, insert_row, close_rows, update_rows,
}
use loomwatch.Store.Cycles.Rows.{active_row-insert, active_row-close, active_row-update}
use loomwatch.Tracker.Synthetic.{Error, add_positive}
use loomwatch.Tracker.Anthropic.{
  AnthropicQuota, AnthropicTracker, last_util, time_based, api_based, end_time, higher_of, gained,
  start_first, roll_over, update_same, same_cycle, process_found, process_quota,
}

abbrev pub active_peak : String → List (ResetCycle String (Option ℕ)) → ℕ
active_peak name rows = elim (active_row name rows) [ none ↦ 0 | some c ↦ c.peak_requests ]

-- The cycle that a call opens, once its initial peak is set.
abbrev pub opened : ℕ → ℕ → AnthropicQuota → ResetCycle String (Option ℕ)
opened i captured_at quota =
    updated quota.utilization 0 (new_cycle i quota.name captured_at quota.resets_at)

abbrev Recorded : AnthropicQuota → Result Error (Unit {0}) × AnthropicTracker → Type 0
Recorded quota r =
    r.0 ≡ ok tt
    → (lookup quota.name r.1.last_values ≡ some quota.utilization)
      × (is_some (active_row quota.name r.1.db.rows) ≡ true)
      × (quota.utilization ≤ active_peak quota.name r.1.db.rows)

module _ (quota : AnthropicQuota) (captured_at : ℕ) (t : AnthropicTracker) where
  abbrev pub first_rows : List (ResetCycle String (Option ℕ)) → List (ResetCycle String (Option ℕ))
  first_rows = insert_row t.db.next_id quota.name captured_at quota.resets_at

  pub first_rows-found :
      (rows : List (ResetCycle String (Option ℕ)))
      → active_row quota.name rows ≡ none
      → active_row quota.name (update_rows quota.name quota.utilization 0 (first_rows rows))
        ≡ some (opened t.db.next_id captured_at quota)
  first_rows-found rows free = ground (
    arith,
    string_eq.matches_iff quota.name quota.name,
    active_row-insert quota.name quota.name t.db.next_id captured_at quota.resets_at rows free,
    active_row-update quota.name quota.utilization 0
        (new_cycle t.db.next_id quota.name captured_at quota.resets_at) (first_rows rows),
  )

  remembered :
      lookup quota.name (insert quota.name quota.utilization t.last_values) ≡ some quota.utilization
  remembered =
      rw (lookup-insert quota.name quota.name quota.utilization t.last_values, beq_self quota.name)

  start_first-Recorded :
      active_row quota.name t.db.rows ≡ none → Recorded quota (start_first quota captured_at t)
  unfolding start_first create_cycle update_cycle
  start_first-Recorded free = ground (arith, remembered, first_rows-found t.db.rows free)

  roll_over-Recorded :
      (last : Option ℕ) (c : ResetCycle String (Option ℕ))
      → Recorded quota (roll_over quota captured_at last c t)
  unfolding roll_over create_cycle update_cycle close_cycle
  roll_over-Recorded last c =
      let end = end_time captured_at c.renews_at in
      let final = gained last quota.utilization c in
      let rows = close_rows quota.name end final.peak_requests final.total_delta t.db.rows in
      ground (
        arith,
        remembered,
        first_rows-found rows
            (active_row-close quota.name end final.peak_requests final.total_delta t.db.rows),
      )

  same_cycle-Recorded :
      (last : Option ℕ) (c : ResetCycle String (Option ℕ))
      → active_row quota.name t.db.rows ≡ some c
      → Recorded quota (same_cycle quota last c t)
  unfolding same_cycle update_same update_cycle
  same_cycle-Recorded none c found = ground (
    arith,
    remembered,
    active_row-update quota.name quota.utilization c.total_delta c t.db.rows found,
  )
  same_cycle-Recorded (some last) c found = ground (
    arith,
    remembered,
    active_row-update quota.name (higher_of c.peak_requests quota.utilization)
        (add_positive c.total_delta last quota.utilization) c t.db.rows found,
  )

  process_found-Recorded :
      (last : Option ℕ) (found : Option (ResetCycle String (Option ℕ)))
      → active_row quota.name t.db.rows ≡ found
      → Recorded quota (process_found quota captured_at last found t)
  unfolding process_found
  process_found-Recorded last none free = start_first-Recorded free
  process_found-Recorded last (some c) h =
      elim (Bool-cases
        (time_based captured_at c.renews_at || api_based quota.resets_at c.renews_at)) [
          | inl reset ↦ rw (reset, process_found) (roll_over-Recorded last c)
          | inr same ↦ rw (same, process_found) (same_cycle-Recorded last c h)
        ]

-- A call that succeeds, on any branch, has recorded its quota: there is an active cycle whose peak
-- is at least the reported utilization, which is the quota's last value.
pub process_quota_recorded :
    (quota : AnthropicQuota) (captured_at : ℕ) (t : AnthropicTracker)
    → (process_quota quota captured_at t).0 ≡ ok tt
    → let t' = (process_quota quota captured_at t).1 in
      (lookup quota.name t'.last_values ≡ some quota.utilization)
      × (is_some (active_row quota.name t'.db.rows) ≡ true)
      × (quota.utilization ≤ active_peak quota.name t'.db.rows)
unfolding process_quota query_active_cycle
process_quota_recorded quota captured_at t h =
    let t' = record t { db = record t.db { calls = suc t.db.calls } } in
    ground (
      arith,
      process_found-Recorded quota captured_at t' (last_util t quota.name)
          (active_row quota.name t.db.rows) refl,
    )
