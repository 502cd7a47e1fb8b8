-- ===== src/Tracker/Synthetic/Accounting.antt =====
-- What one successful call of the Synthetic tracker records, and what a failed one leaves.
use loomwatch.Prelude.{
  ℕ, suc, ◌≤◌, ◌≡◌, refl, String, Bool, true, Option, none, some, List, Result, ok, err, arith,
  if◌then◌else◌, is_some, Bool-cases, inl, inr, string_eq,
}
use loomwatch.Store.Cycles.{
  ResetCycle, new_cycle, create_cycle, close_cycle, update_cycle, query_active_cycle, active_row,
  insert_row, close_rows, update_rows,
}
use loomwatch.Store.Cycles.Rows.{active_row-insert, active_row-close, active_row-update}
use loomwatch.Tracker.Synthetic.{
  QuotaInfo, Slot, Error, start_first, roll_over, same_cycle, process_found, process_quota,
  add_positive, cycle_end_time, reset_detected,
}

-- The cycle that a call opens, once its initial peak is set.
abbrev pub opened : ℕ → String → ℕ → QuotaInfo → ResetCycle String ℕ
opened i q captured_at info = record {
  id = i;
  quota_type = q;
  cycle_start = captured_at;
  cycle_end = none;
  renews_at = info.renews_at;
  peak_requests = info.requests;
  total_delta = 0;
}

-- The peak of a quota's active cycle, 0 if there is none.
abbrev pub active_peak : String → List (ResetCycle String ℕ) → ℕ
active_peak q rows = elim (active_row q rows) [ none ↦ 0 | some c ↦ c.peak_requests ]

abbrev Recorded : String → QuotaInfo → Result Error (Unit {0}) × Slot → Type 0
Recorded q info r =
    r.0 ≡ ok tt
    → (r.1.last_requests ≡ info.requests)
      × (is_some (active_row q r.1.db.rows) ≡ true)
      × (info.requests ≤ active_peak q r.1.db.rows)

module _ (q : String) (captured_at : ℕ) (info : QuotaInfo) (s : Slot) where
  abbrev pub first_rows : List (ResetCycle String ℕ) → List (ResetCycle String ℕ)
  first_rows = insert_row s.db.next_id q captured_at info.renews_at

  pub first_rows-found :
      (rows : List (ResetCycle String ℕ))
      → active_row q rows ≡ none
      → active_row q (update_rows q info.requests 0 (first_rows rows))
        ≡ some (opened s.db.next_id q captured_at info)
  first_rows-found rows free = ground (
    arith,
    string_eq.matches_iff q q,
    active_row-insert q q s.db.next_id captured_at info.renews_at rows free,
    active_row-update q info.requests 0 (new_cycle s.db.next_id q captured_at info.renews_at)
        (first_rows rows),
  )

  start_first-Recorded :
      active_row q s.db.rows ≡ none → Recorded q info (start_first q captured_at info s)
  unfolding start_first create_cycle update_cycle
  start_first-Recorded free = ground (arith, first_rows-found s.db.rows free)

  roll_over-Recorded :
      (has_last registered : Bool) (c : ResetCycle String ℕ)
      → Recorded q info (roll_over q captured_at info has_last registered c s)
  unfolding roll_over create_cycle update_cycle close_cycle
  roll_over-Recorded has_last registered c =
      let end = cycle_end_time captured_at c.renews_at in
      let total =
        if has_last
        then add_positive c.total_delta s.last_requests info.requests
        else c.total_delta in
      let rows = close_rows q end c.peak_requests total s.db.rows in
      ground (arith, first_rows-found rows (active_row-close q end c.peak_requests total s.db.rows))

  same_cycle-Recorded :
      (has_last : Bool) (c : ResetCycle String ℕ)
      → active_row q s.db.rows ≡ some c
      → Recorded q info (same_cycle q info has_last c s)
  unfolding same_cycle update_cycle
  same_cycle-Recorded has_last c h =
      let total = add_positive c.total_delta s.last_requests info.requests in
      ground (
        arith,
        active_row-update q info.requests total c s.db.rows h,
        active_row-update q c.peak_requests total c s.db.rows h,
        active_row-update q info.requests c.total_delta c s.db.rows h,
      )

  process_found-Recorded :
      (has_last registered : Bool) (found : Option (ResetCycle String ℕ))
      → active_row q s.db.rows ≡ found
      → Recorded q info (process_found q captured_at info has_last registered found s)
  unfolding process_found
  process_found-Recorded has_last registered none free = start_first-Recorded free
  process_found-Recorded has_last registered (some c) h =
      elim (Bool-cases (reset_detected captured_at c.renews_at info.renews_at)) [
        | inl reset ↦ rw (reset, process_found) (roll_over-Recorded has_last registered c)
        | inr same ↦ rw (same, process_found) (same_cycle-Recorded has_last c h)
      ]

-- A call that succeeds, on any branch, has recorded its snapshot: the quota has an active cycle
-- whose peak is at least the reported requests, and the last value is the reported one.
pub process_quota-records :
    (q : String) (captured_at : ℕ) (info : QuotaInfo) (has_last registered : Bool) (s : Slot)
    → (process_quota q captured_at info has_last registered s).0 ≡ ok tt
    → let s' = (process_quota q captured_at info has_last registered s).1 in
      (s'.last_requests ≡ info.requests)
      × (is_some (active_row q s'.db.rows) ≡ true)
      × (info.requests ≤ active_peak q s'.db.rows)
unfolding process_quota query_active_cycle
process_quota-records q captured_at info has_last registered s h =
    let s' = record s { db = record s.db { calls = suc s.db.calls } } in
    ground (
      arith,
      process_found-Recorded q captured_at info s' has_last registered (active_row q s.db.rows)
          refl,
    )

-- A call that fails, at any statement, keeps the last value and reports no reset.
pub process_quota-err :
    (q : String) (captured_at : ℕ) (info : QuotaInfo) (has_last registered : Bool) (s : Slot)
    (e : Error)
    → (process_quota q captured_at info has_last registered s).0 ≡ err e
    → let s' = (process_quota q captured_at info has_last registered s).1 in
      (s'.last_requests ≡ s.last_requests) × (s'.notified ≡ s.notified)
unfolding process_quota process_found start_first roll_over same_cycle query_active_cycle
    create_cycle update_cycle close_cycle
process_quota-err q captured_at info has_last registered s e h = ground arith
