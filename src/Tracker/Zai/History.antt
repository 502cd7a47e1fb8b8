-- ===== src/Tracker/Zai/History.antt =====
-- What the Z.ai tracker keeps about the cycles of every account, whichever of its statements fail.
use loomwatch.Prelude.{
  ℕ, suc, ◌<◌, ◌≡◌, ◌⊎◌, refl, String, Option, none, some, List, [], ◌∷◌, Result, arith, string_eq,
  nat_eq, pair_eq, inl, inr,
}
use loomwatch.Prelude.Dict.{lookup}
use loomwatch.Store.Cycles.{create_cycle, close_cycle, update_cycle, query_active_cycle, active_row}
use loomwatch.Store.Cycles.Rows.{active_row-close}
use loomwatch.Store.Cycles.Kept.{KeepsClosed, KeepsClosed-refl, KeepsClosed-trans}
use loomwatch.Store.Cycles.Writes.{
  Writes, nothing, more, created, closed, updated, AtMostOneActive, Writes-AtMostOneActive,
  Writes-KeepsClosed,
}
use loomwatch.Tracker.Accounts.{or_zero}
use loomwatch.Tracker.Synthetic.{Error}
use loomwatch.Tracker.Zai.{
  resolve_zai_account, ZaiSnapshot, ZaiTracker, ZaiCycle, whole, grown, cycle_end_time,
  create_zai_cycle, close_zai_cycle, update_zai_cycle, query_active_zai_cycle, update_stats,
  start_tokens, final_tokens, roll_tokens, same_tokens, tokens_found, process_tokens_quota,
  start_time, roll_time, same_time, time_found, process_time_quota, process, run,
}

module _ (d : ℕ → Option ℕ) (s : ZaiSnapshot) (account : ℕ) where
  -- The rows after `Process` are those after its first or its second step.
  pub process-rows :
      (t : ZaiTracker)
      → let t1 = (process_tokens_quota d s account t).1 in
        ((process d s account t).1.db.rows ≡ t1.db.rows)
        ⊎ ((process d s account t).1.db.rows ≡ (process_time_quota d s account t1).1.db.rows)
  unfolding process
  process-rows t = ground arith

module _ (d : ℕ → Option ℕ) (s : ZaiSnapshot) (account : ℕ) (own : 0 < account) where
  abbrev key : String → ℕ × String
  key q = (account, q)

  abbrev Tokens : ZaiTracker → Result Error (Unit {0}) × ZaiTracker → Type 0
  Tokens t r = Writes (key "tokens") t.db.rows r.1.db.rows

  abbrev Time : ZaiTracker → Result Error (Unit {0}) × ZaiTracker → Type 0
  Time t r = Writes (key "time") t.db.rows r.1.db.rows

  update_stats-Writes :
      (q : String) (value last : ℕ) (c : ZaiCycle) (t : ZaiTracker)
      → Writes (key q) t.db.rows (update_stats d q account value last c t).1.db.rows
  unfolding update_stats update_zai_cycle resolve_zai_account update_cycle
  update_stats-Writes q value last c t =
      let unwritten : Writes (key q) t.db.rows t.db.rows = nothing in
      let final = grown last value c in
      ground (
        arith,
        unwritten,
        more unwritten (updated final.peak_requests final.total_delta refl),
        more unwritten (updated (whole value) c.total_delta refl),
      )

  start_tokens-Writes :
      (t : ZaiTracker)
      → active_row (key "tokens") t.db.rows ≡ none
      → Tokens t (start_tokens d s account t)
  unfolding start_tokens create_zai_cycle update_zai_cycle resolve_zai_account create_cycle
      update_cycle
  start_tokens-Writes t free =
      let unwritten : Writes (key "tokens") t.db.rows t.db.rows = nothing in
      let one =
        more unwritten (created t.db.next_id s.captured_at s.tokens_next_reset_time free refl) in
      ground (arith, unwritten, one, more one (updated (whole s.tokens_current_value) 0 refl))

  roll_tokens-Writes :
      (c final : ZaiCycle) (t : ZaiTracker) → Tokens t (roll_tokens d s account c final t)
  unfolding roll_tokens create_zai_cycle update_zai_cycle resolve_zai_account close_zai_cycle
      create_cycle update_cycle close_cycle
  roll_tokens-Writes c final t =
      let k = key "tokens" in
      let unwritten : Writes k t.db.rows t.db.rows = nothing in
      let end = cycle_end_time s.captured_at c.renews_at in
      let one = more unwritten (closed end final.peak_requests final.total_delta refl) in
      let two = more one (
        created t.db.next_id s.captured_at s.tokens_next_reset_time
          (active_row-close k end final.peak_requests final.total_delta t.db.rows) refl) in
      ground (arith, unwritten, one, two, more two (updated (whole s.tokens_current_value) 0 refl))

  same_tokens-Writes :
      (last : ℕ) (c : ZaiCycle) (t : ZaiTracker) → Tokens t (same_tokens d s account last c t)
  unfolding same_tokens
  same_tokens-Writes last c t =
      ground (arith, update_stats-Writes "tokens" s.tokens_current_value last c t)

  tokens_found-Writes :
      (found : Option ZaiCycle) (t : ZaiTracker)
      → active_row (key "tokens") t.db.rows ≡ found
      → Tokens t (tokens_found d s account found t)
  unfolding tokens_found
  tokens_found-Writes none t free = start_tokens-Writes t free
  tokens_found-Writes (some c) t h = ground (
    arith,
    roll_tokens-Writes c (final_tokens s account c t) t,
    same_tokens-Writes (or_zero (lookup account t.last_tokens_value)) c t,
  )

  pub process_tokens_quota-Writes : (t : ZaiTracker) → Tokens t (process_tokens_quota d s account t)
  unfolding process_tokens_quota query_active_zai_cycle resolve_zai_account query_active_cycle
  process_tokens_quota-Writes t =
      let k = key "tokens" in
      let unwritten : Writes k t.db.rows t.db.rows = nothing in
      let t' = record t { db = record t.db { calls = suc t.db.calls } } in
      ground (arith, unwritten, tokens_found-Writes (active_row k t.db.rows) t' refl)

  start_time-Writes :
      (t : ZaiTracker)
      → active_row (key "time") t.db.rows ≡ none
      → Time t (start_time d s account t)
  unfolding start_time create_zai_cycle update_zai_cycle resolve_zai_account create_cycle
      update_cycle
  start_time-Writes t free =
      let unwritten : Writes (key "time") t.db.rows t.db.rows = nothing in
      let one = more unwritten (created t.db.next_id s.captured_at none free refl) in
      ground (arith, unwritten, one, more one (updated (whole s.time_current_value) 0 refl))

  roll_time-Writes : (c : ZaiCycle) (t : ZaiTracker) → Time t (roll_time d s account c t)
  unfolding roll_time create_zai_cycle update_zai_cycle resolve_zai_account close_zai_cycle
      create_cycle update_cycle close_cycle
  roll_time-Writes c t =
      let k = key "time" in
      let unwritten : Writes k t.db.rows t.db.rows = nothing in
      let one = more unwritten (closed s.captured_at c.peak_requests c.total_delta refl) in
      let two = more one (
        created t.db.next_id s.captured_at none
          (active_row-close k s.captured_at c.peak_requests c.total_delta t.db.rows) refl) in
      ground (arith, unwritten, one, two, more two (updated (whole s.time_current_value) 0 refl))

  same_time-Writes :
      (last : ℕ) (c : ZaiCycle) (t : ZaiTracker) → Time t (same_time d s account last c t)
  unfolding same_time
  same_time-Writes last c t =
      ground (arith, update_stats-Writes "time" s.time_current_value last c t)

  time_found-Writes :
      (found : Option ZaiCycle) (t : ZaiTracker)
      → active_row (key "time") t.db.rows ≡ found
      → Time t (time_found d s account found t)
  unfolding time_found
  time_found-Writes none t free = start_time-Writes t free
  time_found-Writes (some c) t h = ground (
    arith,
    roll_time-Writes c t,
    same_time-Writes (or_zero (lookup account t.last_time_value)) c t,
  )

  pub process_time_quota-Writes : (t : ZaiTracker) → Time t (process_time_quota d s account t)
  unfolding process_time_quota query_active_zai_cycle resolve_zai_account query_active_cycle
  process_time_quota-Writes t =
      let k = key "time" in
      let unwritten : Writes k t.db.rows t.db.rows = nothing in
      let t' = record t { db = record t.db { calls = suc t.db.calls } } in
      ground (arith, unwritten, time_found-Writes (active_row k t.db.rows) t' refl)

  process-AtMostOneActive :
      (t : ZaiTracker)
      → AtMostOneActive t.db.rows
      → AtMostOneActive (process d s account t).1.db.rows
  process-AtMostOneActive t h =
      let t1 = (process_tokens_quota d s account t).1 in
      let one = Writes-AtMostOneActive (key "tokens") (process_tokens_quota-Writes t) h in
      elim (process-rows d s account t) [
        | inl e ↦ rw e one
        | inr e ↦ rw e (Writes-AtMostOneActive (key "time") (process_time_quota-Writes t1) one)
      ]

  process-KeepsClosed : (t : ZaiTracker) → KeepsClosed t.db.rows (process d s account t).1.db.rows
  process-KeepsClosed t =
      let t1 = (process_tokens_quota d s account t).1 in
      let t2 = (process_time_quota d s account t1).1 in
      let one = Writes-KeepsClosed (key "tokens") (process_tokens_quota-Writes t) in
      let two = Writes-KeepsClosed (key "time") (process_time_quota-Writes t1) in
      elim (process-rows d s account t) [
        | inl e ↦ rw e one
        | inr e ↦ rw e (KeepsClosed-trans t.db.rows t1.db.rows t2.db.rows one two)
      ]

-- Every snapshot comes with the id of an account.
abbrev pub HasIds : List (ℕ × ZaiSnapshot) → Type 0
HasIds [] = Unit {0}
HasIds ((account, _) ∷ feed) = (0 < account) × HasIds feed

-- Over any snapshots of any Z.ai accounts that are given by their ids, which are positive, also when
-- statements of the store fail: no quota of an account ever has two active cycles if none had at the
-- start, and a completed cycle is never changed.
pub run-zai_history :
    (d : ℕ → Option ℕ) (feed : List (ℕ × ZaiSnapshot)) (t : ZaiTracker)
    → HasIds feed
    → AtMostOneActive t.db.rows
    → AtMostOneActive (run d feed t).db.rows × KeepsClosed t.db.rows (run d feed t).db.rows
unfolding run
run-zai_history d [] t own h = (h, KeepsClosed-refl t.db.rows)
run-zai_history d ((account, s) ∷ rest) t own h =
    let t' = (process d s account t).1 in
    let kept = process-KeepsClosed d s account own.0 t in
    let later = run-zai_history d rest t' own.1 (process-AtMostOneActive d s account own.0 t h) in
    (later.0, KeepsClosed-trans t.db.rows t'.db.rows (run d rest t').db.rows kept later.1)
