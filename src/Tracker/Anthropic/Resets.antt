-- ===== src/Tracker/Anthropic/Resets.antt =====
-- When the Anthropic tracker ends a cycle, and what it writes then.
use loomwatch.Prelude.{
  ℕ, suc, ◌+◌, ◌-◌, ◌*◌, ◌^◌, ◌≤◌, ◌<◌, ◌≡◌, refl, String, Bool, true, false, Option, none, some,
  List, inl, inr, ◌∷◌, ok, min, max, arith, if◌then◌else◌, string_eq, get_elem?, ◌⊎◌, ◌||◌,
}
use loomwatch.Store.Cycles.{
  ResetCycle, updated, ended, create_cycle, close_cycle, update_cycle, active_row, close_rows,
}
use loomwatch.Store.Cycles.Rows.{active_row-close, active_row-update, active_row-is_active}
use loomwatch.Store.Cycles.Kept.{get_elem?-close, update-KeepsClosed, insert-KeepsClosed}
use loomwatch.Tracker.Clock.{minute, shifted_beyond_lem}
use loomwatch.Tracker.Synthetic.{add_positive, cycle_end_time}
use loomwatch.Tracker.Anthropic.{
  AnthropicQuota, AnthropicTracker, last_util, time_based, api_based, end_time, gained, roll_over,
  update_same, same_cycle, process_found, process_quota,
}
use loomwatch.Tracker.Anthropic.Invariant.{process_quota_found}
use loomwatch.Tracker.Anthropic.Recording.{opened, first_rows, first_rows-found}

-- Times are less than 2^63 ns (292 years) apart, so that `Sub` does not saturate.
abbrev pub IsNear : ℕ → ℕ → Type 0
IsNear a b = (a < b + 2 ^ 63) × (b < a + 2 ^ 63)

detected : AnthropicQuota → ℕ → ResetCycle String (Option ℕ) → Bool
detected quota captured_at c =
    time_based captured_at c.renews_at || api_based quota.resets_at c.renews_at

detected_jitter :
    (quota : AnthropicQuota) (captured_at : ℕ) (c : ResetCycle String (Option ℕ)) (old new : ℕ)
    → c.renews_at ≡ some old
    → quota.resets_at ≡ some new
    → IsNear new old
    → captured_at ≤ old + 2 * minute
    → (new - old) + (old - new) ≤ 10 * minute
    → detected quota captured_at c ≡ false
unfolding detected time_based api_based
detected_jitter quota captured_at c old new eo en near early jitter =
    ground (arith, shifted_beyond_lem (10 * minute) new old)

-- The reported reset time is there, and more than ten minutes from the stored one.
abbrev pub IsMoved : Option ℕ → ℕ → Type 0
IsMoved none old = ⊥
IsMoved (some new) old = IsNear new old × (10 * minute < (new - old) + (old - new))

api_based-IsMoved :
    (reported : Option ℕ) (old : ℕ) → IsMoved reported old → api_based reported (some old) ≡ true
unfolding api_based
api_based-IsMoved none old h = elim h [ ]
api_based-IsMoved (some new) old h = ground (arith, shifted_beyond_lem (10 * minute) new old)

detected_shift :
    (quota : AnthropicQuota) (captured_at : ℕ) (c : ResetCycle String (Option ℕ)) (old : ℕ)
    → c.renews_at ≡ some old
    → (old + 2 * minute < captured_at) ⊎ IsMoved quota.resets_at old
    → detected quota captured_at c ≡ true
unfolding detected time_based
detected_shift quota captured_at c old eo (inl passed) = ground arith
detected_shift quota captured_at c old eo (inr moved) =
    ground (arith, api_based-IsMoved quota.resets_at old moved)

module _ (quota : AnthropicQuota) (captured_at : ℕ) (t : AnthropicTracker)
    (c : ResetCycle String (Option ℕ)) (found : active_row quota.name t.db.rows ≡ some c) where
  same_cycle_lem :
      (last : ℕ)
      → t.db.fails t.db.calls ≡ false
      → let (r, t') = same_cycle quota (some last) c t in
        (r ≡ ok tt)
        × (active_row quota.name t'.db.rows
            ≡ some (
                updated
                  (max c.peak_requests quota.utilization)
                  (c.total_delta + (quota.utilization - last))
                  c))
        × (t'.notified ≡ t.notified)
  unfolding same_cycle update_same update_cycle
  same_cycle_lem last fine = ground (
    arith,
    active_row-update quota.name (max c.peak_requests quota.utilization)
        (c.total_delta + (quota.utilization - last)) c t.db.rows found,
  )

  module _ (i : ℕ) (stands : get_elem? t.db.rows i ≡ some c) (fine : (n : ℕ) → t.db.fails n ≡ false)
      (last : Option ℕ) where
    final : ResetCycle String (Option ℕ)
    final = gained last quota.utilization c

    end : ℕ
    end = end_time captured_at c.renews_at

    closed_rows : List (ResetCycle String (Option ℕ))
    closed_rows = close_rows quota.name end final.peak_requests final.total_delta t.db.rows

    closed_stands :
        get_elem? (first_rows quota captured_at t closed_rows) i
        ≡ some (ended end final.peak_requests final.total_delta c)
    unfolding closed_rows
    closed_stands =
        let done = ended end final.peak_requests final.total_delta c in
        insert-KeepsClosed t.db.next_id quota.name captured_at quota.resets_at closed_rows i done
          (get_elem?-close quota.name end final.peak_requests final.total_delta i c t.db.rows stands
            (active_row-is_active quota.name t.db.rows c found))
          refl

    roll_over_lem :
        let (r, t') = roll_over quota captured_at last c t in
        (r ≡ ok tt)
        × (get_elem? t'.db.rows i ≡ some (ended end final.peak_requests final.total_delta c))
        × (active_row quota.name t'.db.rows ≡ some (opened t.db.next_id captured_at quota))
        × (t'.notified ≡ (if t.on_reset then quota.name ∷ t.notified else t.notified))
    unfolding roll_over create_cycle update_cycle close_cycle final end closed_rows
    roll_over_lem =
        let done = ended end final.peak_requests final.total_delta c in
        ground (
          arith,
          fine t.db.calls,
          fine (suc t.db.calls),
          fine (suc (suc t.db.calls)),
          update-KeepsClosed quota.name quota.utilization 0
              (first_rows quota captured_at t closed_rows) i done closed_stands refl,
          first_rows-found quota captured_at t closed_rows
              (active_row-close quota.name end final.peak_requests final.total_delta t.db.rows),
        )

-- A reset time that moves by ten minutes or less, reported before the grace period is over, ends
-- no cycle: if no statement fails and the quota has a last value, the active cycle stays, its
-- peak becomes the higher one, its delta grows by the increase, and no reset is reported.
pub process_quota_jitter :
    (quota : AnthropicQuota) (captured_at : ℕ) (t : AnthropicTracker)
    (c : ResetCycle String (Option ℕ)) (old new last : ℕ)
    → active_row quota.name t.db.rows ≡ some c
    → ((n : ℕ) → t.db.fails n ≡ false)
    → last_util t quota.name ≡ some last
    → c.renews_at ≡ some old
    → quota.resets_at ≡ some new
    → IsNear new old
    → captured_at ≤ old + 2 * minute
    → (new - old) + (old - new) ≤ 10 * minute
    → let (r, t') = process_quota quota captured_at t in
      (r ≡ ok tt)
      × (active_row quota.name t'.db.rows
          ≡ some (
              updated
                (max c.peak_requests quota.utilization)
                (c.total_delta + (quota.utilization - last))
                c))
      × (t'.notified ≡ t.notified)
unfolding process_found detected
process_quota_jitter quota captured_at t c old new last found fine known eo en near early jitter =
    let t' : AnthropicTracker = record t { db = record t.db { calls = suc t.db.calls } } in
    rw
      (
        process_quota_found quota captured_at t (fine t.db.calls),
        found,
        known,
        process_found,
        detected_jitter quota captured_at c old new eo en near early jitter,
      )
      (same_cycle_lem quota captured_at t' c found last (fine (suc t.db.calls)))

-- When the stored reset time passed more than two minutes ago, whatever reset time is reported or
-- none, or when one is reported that is more than ten minutes and less than 2^63 ns (292 years) from
-- it, no statement fails and the quota has a last value: the active cycle is completed where it
-- stands, at its reset time or at the capture, whichever is earlier, with the higher peak and its
-- delta raised by the increase; a new cycle that holds the reported utilization is active; and
-- the callback, if one is registered, is called once.
pub process_quota_moved :
    (quota : AnthropicQuota) (captured_at : ℕ) (t : AnthropicTracker)
    (c : ResetCycle String (Option ℕ)) (i old last : ℕ)
    → active_row quota.name t.db.rows ≡ some c
    → get_elem? t.db.rows i ≡ some c
    → ((n : ℕ) → t.db.fails n ≡ false)
    → last_util t quota.name ≡ some last
    → c.renews_at ≡ some old
    → (old + 2 * minute < captured_at) ⊎ IsMoved quota.resets_at old
    → let (r, t') = process_quota quota captured_at t in
      (r ≡ ok tt)
      × (get_elem? t'.db.rows i
          ≡ some (
              ended
                (min captured_at old)
                (max c.peak_requests quota.utilization)
                (c.total_delta + (quota.utilization - last))
                c))
      × (active_row quota.name t'.db.rows ≡ some (opened t.db.next_id captured_at quota))
      × (t'.notified ≡ (if t.on_reset then quota.name ∷ t.notified else t.notified))
unfolding process_found detected end final end_time cycle_end_time add_positive
process_quota_moved quota captured_at t c i old last found stands fine known eo moved =
    let t' : AnthropicTracker = record t { db = record t.db { calls = suc t.db.calls } } in
    let done = roll_over_lem quota captured_at t' c found i stands fine (some last) in
    rw
      (
        process_quota_found quota captured_at t (fine t.db.calls),
        found,
        known,
        process_found,
        detected_shift quota captured_at c old eo moved,
      )
      (ground (arith, done))
