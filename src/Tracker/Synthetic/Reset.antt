-- ===== src/Tracker/Synthetic/Reset.antt =====
-- What the Synthetic tracker writes when it detects a reset.
use loomwatch.Prelude.{
  ℕ, suc, ◌+◌, ◌-◌, ◌*◌, ◌/◌, ◌<◌, ◌≡◌, ◌≢◌, refl, String, Bool, true, false, some, List, ◌∷◌, ok,
  min, arith, if◌then◌else◌, get_elem?, ◌⊎◌, string_eq,
}
use loomwatch.Store.Cycles.{
  ResetCycle, create_cycle, close_cycle, update_cycle, active_row, close_rows, update_rows, ended,
}
use loomwatch.Store.Cycles.Rows.{active_row-close, active_row-is_active}
use loomwatch.Store.Cycles.Kept.{get_elem?-close, update-KeepsClosed, insert-KeepsClosed}
use loomwatch.Tracker.Clock.{minute, hour}
use loomwatch.Tracker.Synthetic.{
  QuotaInfo, Slot, roll_over, process_found, process_quota, add_positive, cycle_end_time,
  reset_detected,
}
use loomwatch.Tracker.Synthetic.Invariant.{process_quota_found}
use loomwatch.Tracker.Synthetic.Accounting.{opened, first_rows, first_rows-found}

-- A reset: the renewal passed more than two minutes ago, or the reported one is in another hour.
abbrev pub IsReset : ℕ → ResetCycle String ℕ → QuotaInfo → Type 0
IsReset captured_at c info =
    (c.renews_at + 2 * minute < captured_at) ⊎ (c.renews_at / hour ≢ info.renews_at / hour)

reset_detected-IsReset :
    (captured_at : ℕ) (c : ResetCycle String ℕ) (info : QuotaInfo)
    → IsReset captured_at c info
    → reset_detected captured_at c.renews_at info.renews_at ≡ true
unfolding reset_detected
reset_detected-IsReset captured_at c info h = ground arith

-- What the old cycle gains from the last snapshot.
abbrev pub last_gain : Bool → ℕ → QuotaInfo → ℕ
last_gain true last info = info.requests - last
last_gain false last info = 0

module _ (q : String) (captured_at : ℕ) (info : QuotaInfo) (has_last registered : Bool) (s : Slot)
    (i : ℕ) (c : ResetCycle String ℕ) (found : active_row q s.db.rows ≡ some c)
    (stands : get_elem? s.db.rows i ≡ some c) (fine : (n : ℕ) → s.db.fails n ≡ false) where
  total : ℕ
  total =
      if has_last then add_positive c.total_delta s.last_requests info.requests else c.total_delta

  end : ℕ
  end = cycle_end_time captured_at c.renews_at

  closed_rows : List (ResetCycle String ℕ)
  closed_rows = close_rows q end c.peak_requests total s.db.rows

  -- The old cycle keeps its place through the three statements.
  closed_stands :
      get_elem? (update_rows q info.requests 0 (first_rows q captured_at info s closed_rows)) i
      ≡ some (ended end c.peak_requests total c)
  unfolding closed_rows
  closed_stands =
      let done = ended end c.peak_requests total c in
      let open_rows = first_rows q captured_at info s closed_rows in
      let closing =
        get_elem?-close q end c.peak_requests total i c s.db.rows stands
          (active_row-is_active q s.db.rows c found) in
      update-KeepsClosed q info.requests 0 open_rows i done
        (insert-KeepsClosed s.db.next_id q captured_at info.renews_at closed_rows i done closing
          refl)
        refl

  roll_over_lem :
      let (r, s') = roll_over q captured_at info has_last registered c s in
      (r ≡ ok tt)
      × (get_elem? s'.db.rows i ≡ some (ended end c.peak_requests total c))
      × (active_row q s'.db.rows ≡ some (opened s.db.next_id q captured_at info))
      × (s'.notified ≡ (if registered then q ∷ s.notified else s.notified))
  unfolding roll_over create_cycle update_cycle close_cycle total end closed_rows
  roll_over_lem = ground (
    arith,
    fine s.db.calls,
    fine (suc s.db.calls),
    fine (suc (suc s.db.calls)),
    closed_stands,
    first_rows-found q captured_at info s closed_rows
        (active_row-close q end c.peak_requests total s.db.rows),
  )

cycle_end_time-min :
    (captured_at renews : ℕ) → cycle_end_time captured_at renews ≡ min captured_at renews
unfolding cycle_end_time
cycle_end_time-min captured_at renews = ground arith

total-last_gain :
    (has_last : Bool) (delta last : ℕ) (info : QuotaInfo)
    → (if has_last then add_positive delta last info.requests else delta)
      ≡ delta + last_gain has_last last info
unfolding add_positive
total-last_gain has_last delta last info = ground arith

-- When the stored renewal passed more than two minutes ago, or the reported renewal is in another
-- hour, and no statement fails: the active cycle is completed where it stands, at its renewal or
-- at the capture, whichever is earlier, with its peak as it was and its delta raised by the last
-- increase; a new cycle that holds the reported requests is active; and the callback, if one is
-- registered, is called once.
pub process_quota_reset :
    (q : String) (captured_at : ℕ) (info : QuotaInfo) (has_last registered : Bool) (s : Slot)
    (i : ℕ) (c : ResetCycle String ℕ)
    → active_row q s.db.rows ≡ some c
    → get_elem? s.db.rows i ≡ some c
    → ((n : ℕ) → s.db.fails n ≡ false)
    → IsReset captured_at c info
    → let (r, s') = process_quota q captured_at info has_last registered s in
      let delta = c.total_delta + last_gain has_last s.last_requests info in
      (r ≡ ok tt)
      × (get_elem? s'.db.rows i
          ≡ some (ended (min captured_at c.renews_at) c.peak_requests delta c))
      × (active_row q s'.db.rows ≡ some (opened s.db.next_id q captured_at info))
      × (s'.notified ≡ (if registered then q ∷ s.notified else s.notified))
unfolding process_found total end
process_quota_reset q captured_at info has_last registered s i c found stands fine reset =
    let s' : Slot = record s { db = record s.db { calls = suc s.db.calls } } in
    rw
      (
        process_quota_found q captured_at info has_last registered s (fine s.db.calls),
        found,
        process_found,
        reset_detected-IsReset captured_at c info reset,
        ← cycle_end_time-min captured_at c.renews_at,
        ← total-last_gain has_last c.total_delta s.last_requests info,
      )
      (roll_over_lem q captured_at info has_last registered s' i c found stands fine)
