-- ===== src/Tracker/Synthetic/Deltas.antt =====
-- What the Synthetic tracker adds up over the snapshots of one cycle.
use loomwatch.Prelude.{
  ℕ, suc, ◌+◌, ◌-◌, ◌*◌, ◌/◌, ◌≤◌, ◌≡◌, ap, ◌∙◌, String, Bool, true, false, some, List, [], ◌∷◌,
  max, arith, string_eq,
}
use loomwatch.Store.Cycles.{ResetCycle, update_cycle, active_row, updated}
use loomwatch.Store.Cycles.Rows.{active_row-update}
use loomwatch.Tracker.Synthetic.Invariant.{process_quota_found}
use loomwatch.Tracker.Clock.{minute, hour}
use loomwatch.Tracker.Synthetic.{
  QuotaInfo, Slot, same_cycle, process_found, process_quota, add_positive, reset_detected,
}

-- A report of the cycle that renews at `renews`: captured before the grace period is over, with a
-- renewal in the same hour.
abbrev pub IsWithin : ℕ → ℕ × QuotaInfo → Type 0
IsWithin renews (captured_at, info) =
    (captured_at ≤ renews + 2 * minute) × (info.renews_at / hour ≡ renews / hour)

abbrev pub AllWithin : ℕ → List (ℕ × QuotaInfo) → Type 0
AllWithin renews [] = Unit
AllWithin renews (p ∷ rest) = IsWithin renews p × AllWithin renews rest

-- The reports of one quota, one after another, once the tracker has a last value.
unfoldable pub run_quota : String → Bool → List (ℕ × QuotaInfo) → Slot → Slot
run_quota q registered [] s = s
run_quota q registered ((captured_at, info) ∷ rest) s =
    run_quota q registered rest (process_quota q captured_at info true registered s).1

-- The sum of the increases from one report to the next; decreases count nothing.
abbrev pub increases : ℕ → List (ℕ × QuotaInfo) → ℕ
increases last [] = 0
increases last ((_, info) ∷ rest) = (info.requests - last) + increases info.requests rest

abbrev pub highest : ℕ → List (ℕ × QuotaInfo) → ℕ
highest peak [] = peak
highest peak ((_, info) ∷ rest) = highest (max peak info.requests) rest

reset_detected-IsWithin :
    (captured_at renews : ℕ) (info : QuotaInfo)
    → IsWithin renews (captured_at, info)
    → reset_detected captured_at renews info.renews_at ≡ false
unfolding reset_detected
reset_detected-IsWithin captured_at renews info h = ground arith

module _ (q : String) (info : QuotaInfo) (s : Slot) (c : ResetCycle String ℕ) where
  same_cycle_lem :
      active_row q s.db.rows ≡ some c
      → s.db.fails s.db.calls ≡ false
      → let s' = (same_cycle q info true c s).1 in
        (active_row q s'.db.rows
          ≡ some (
              updated
                (max c.peak_requests info.requests)
                (c.total_delta + (info.requests - s.last_requests))
                c))
        × (s'.last_requests ≡ info.requests)
        × (s'.db.fails ≡ s.db.fails)
  unfolding same_cycle update_cycle add_positive
  same_cycle_lem found fine = ground (
    arith,
    active_row-update q (max c.peak_requests info.requests)
        (c.total_delta + (info.requests - s.last_requests)) c s.db.rows found,
  )

process_quota-IsWithin :
    (q : String) (captured_at : ℕ) (info : QuotaInfo) (registered : Bool) (s : Slot)
    (c : ResetCycle String ℕ)
    → active_row q s.db.rows ≡ some c
    → ((n : ℕ) → s.db.fails n ≡ false)
    → IsWithin c.renews_at (captured_at, info)
    → let s' = (process_quota q captured_at info true registered s).1 in
      (active_row q s'.db.rows
        ≡ some (
            updated
              (max c.peak_requests info.requests)
              (c.total_delta + (info.requests - s.last_requests))
              c))
      × (s'.last_requests ≡ info.requests)
      × (s'.db.fails ≡ s.db.fails)
unfolding process_found
process_quota-IsWithin q captured_at info registered s c found fine within =
    let s' : Slot = record s { db = record s.db { calls = suc s.db.calls } } in
    rw
      (
        process_quota_found q captured_at info true registered s (fine s.db.calls),
        found,
        process_found,
        reset_detected-IsWithin captured_at c.renews_at info within,
      )
      (same_cycle_lem q info s' c found (fine (suc s.db.calls)))

-- Over any reports of one cycle, taken by a tracker that has a last value and whose statements do
-- not fail, the cycle stays the active one, its peak becomes the highest report and its delta
-- grows by the sum of the increases between reports.
pub run_quota_deltas :
    (q : String) (registered : Bool) (reports : List (ℕ × QuotaInfo)) (s : Slot)
    (c : ResetCycle String ℕ)
    → active_row q s.db.rows ≡ some c
    → ((n : ℕ) → s.db.fails n ≡ false)
    → AllWithin c.renews_at reports
    → active_row q (run_quota q registered reports s).db.rows
      ≡ some (
          updated
            (highest c.peak_requests reports)
            (c.total_delta + increases s.last_requests reports)
            c)
unfolding run_quota
run_quota_deltas q registered [] s c found fine within = ground arith
run_quota_deltas q registered ((captured_at, info) ∷ rest) s c found fine within =
    let s' = (process_quota q captured_at info true registered s).1 in
    let c' =
      updated (max c.peak_requests info.requests)
        (c.total_delta + (info.requests - s.last_requests)) c in
    let step = process_quota-IsWithin q captured_at info registered s c found fine within.0 in
    let still_fine = λ (n : ℕ). ap (λ (f : ℕ → Bool). f n) step.2 ∙ fine n in
    let rest_of = run_quota_deltas q registered rest s' c' step.0 still_fine within.1 in
    ground (arith, rest_of, step.1)
