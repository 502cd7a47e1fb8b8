-- ===== src/Tracker/Codex/Branches.antt =====
-- What each branch of the Codex tracker does to the active cycle while no statement fails.
use loomwatch.Prelude.{
  ℕ, suc, ◌≡◌, refl, ◌∙◌, ap, String, true, false, Option, none, some, ◌∷◌, ok, arith, string_eq,
  nat_eq, pair_eq, if◌then◌else◌, ltb,
}
use loomwatch.Store.Cycles.{
  new_cycle, insert_row, close_rows, close_cycle, create_cycle, updated, update_cycle,
  update_cycle_resets_at, query_active_cycle, active_row,
}
use loomwatch.Store.Cycles.Rows.{
  active_row-set_renews, active_row-update, active_row-close, active_row-insert,
}
use loomwatch.Tracker.Codex.{
  CodexQuota, CodexTracker, CodexCycle, Memory, memory_of, or_default, create_codex_cycle,
  close_codex_cycle, ends_at, grown_if, roll_over, update_codex_cycle, update_codex_cycle_resets_at,
  query_active_codex_cycle, reset_found, grown, update_resets_at, update_usage, same_cycle,
  process_found, process_quota,
}

-- The cycle with the reported reset time, if there is one.
abbrev pub with_reset : Option ℕ → CodexCycle → CodexCycle
with_reset none c = c
with_reset (some r) c = record c { renews_at = some r }

-- The cycle after a report of it. A quota that the tracker has no value of is not counted once the
-- account has had a snapshot.
abbrev pub with_usage : Memory → ℕ → CodexCycle → CodexCycle
with_usage m util c =
    if m.has_last
    then elim m.value [ none ↦ c | some last ↦ grown last util c ]
    else if ltb c.peak_requests util
    then record c { peak_requests = util }
    else c

module _ (account : ℕ) (quota : CodexQuota) where
  abbrev key : ℕ × String
  key = (or_default account, quota.name)

  update_resets_at_lem :
      (t : CodexTracker) (c : CodexCycle) (r : Option ℕ)
      → quota.resets_at ≡ r
      → active_row key t.db.rows ≡ some c
      → ((n : ℕ) → t.db.fails n ≡ false)
      → ((update_resets_at account quota t).0 ≡ ok tt)
        × (active_row key (update_resets_at account quota t).1.db.rows ≡ some (with_reset r c))
        × ((update_resets_at account quota t).1.db.fails ≡ t.db.fails)
        × ((update_resets_at account quota t).1.notified ≡ t.notified)
  unfolding update_resets_at update_codex_cycle_resets_at update_cycle_resets_at
  update_resets_at_lem t c none e found fine = ground arith
  update_resets_at_lem t c (some r) e found fine =
      ground (arith, fine t.db.calls, active_row-set_renews key (some r) c t.db.rows found)

  update_usage_lem :
      (t : CodexTracker) (c : CodexCycle) (m : Memory) (value : Option ℕ)
      → m.value ≡ value
      → active_row key t.db.rows ≡ some c
      → ((n : ℕ) → t.db.fails n ≡ false)
      → ((update_usage account quota m c t).0 ≡ ok tt)
        × (active_row key (update_usage account quota m c t).1.db.rows
            ≡ some (with_usage m quota.utilization c))
        × ((update_usage account quota m c t).1.notified ≡ t.notified)
  unfolding update_usage update_codex_cycle update_cycle
  update_usage_lem t c m none e found fine = ground (
    arith,
    fine t.db.calls,
    active_row-update key quota.utilization c.total_delta c t.db.rows found,
  )
  update_usage_lem t c m (some last) e found fine =
      let final = grown last quota.utilization c in
      ground (
        arith,
        fine t.db.calls,
        active_row-update key quota.utilization c.total_delta c t.db.rows found,
        active_row-update key final.peak_requests final.total_delta c t.db.rows found,
      )

  same_usage :
      (m : Memory) (r : Option ℕ) (c : CodexCycle) (t : CodexTracker)
      → update_usage account quota m c t ≡ update_usage account quota m (with_reset r c) t
  unfolding update_usage
  same_usage m none c t = refl
  same_usage m (some r) c t = refl

  pub same_cycle_lem :
      (t : CodexTracker) (c : CodexCycle) (m : Memory)
      → active_row key t.db.rows ≡ some c
      → ((n : ℕ) → t.db.fails n ≡ false)
      → ((same_cycle account quota m c t).0 ≡ ok tt)
        × (active_row key (same_cycle account quota m c t).1.db.rows
            ≡ some (with_usage m quota.utilization (with_reset quota.resets_at c)))
        × ((same_cycle account quota m c t).1.notified ≡ t.notified)
  unfolding same_cycle
  same_cycle_lem t c m found fine =
      let one = update_resets_at_lem t c quota.resets_at refl found fine in
      let t' = (update_resets_at account quota t).1 in
      let fine' = λ (n : ℕ). ap (λ f. f n) one.2 ∙ fine n in
      let two = update_usage_lem t' (with_reset quota.resets_at c) m m.value refl one.1 fine' in
      let same = same_usage m quota.resets_at c t' in ground (arith, one.0, one.3, two, same)

  pub roll_over_lem :
      (t : CodexTracker) (c : CodexCycle) (m : Memory) (captured_at : ℕ)
      → ((n : ℕ) → t.db.fails n ≡ false)
      → ((roll_over account quota captured_at m c t).0 ≡ ok tt)
        × (active_row key (roll_over account quota captured_at m c t).1.db.rows
            ≡ some (
                updated quota.utilization 0
                  (new_cycle t.db.next_id key captured_at quota.resets_at)))
        × ((roll_over account quota captured_at m c t).1.notified
            ≡ (if t.on_reset then quota.name ∷ t.notified else t.notified))
  unfolding roll_over close_codex_cycle create_codex_cycle update_codex_cycle close_cycle
      create_cycle update_cycle
  roll_over_lem t c m captured_at fine =
      let end = ends_at captured_at c.renews_at in
      let final = grown_if m quota.utilization c in
      let rows = close_rows key end final.peak_requests final.total_delta t.db.rows in
      let none_left = active_row-close key end final.peak_requests final.total_delta t.db.rows in
      let fresh = new_cycle t.db.next_id key captured_at quota.resets_at in
      let opened : active_row key (insert_row t.db.next_id key captured_at quota.resets_at rows)
          ≡ some fresh =
        ground (
          arith,
          active_row-insert key key t.db.next_id captured_at quota.resets_at rows none_left,
          string_eq.matches_iff quota.name quota.name,
        ) in
      let filled =
        active_row-update key quota.utilization 0 fresh
          (insert_row t.db.next_id key captured_at quota.resets_at rows) opened in
      ground (arith, fine t.db.calls, fine (suc t.db.calls), fine (suc (suc t.db.calls)), filled)

  process_quota_found :
      (t : CodexTracker) (captured_at : ℕ)
      → t.db.fails t.db.calls ≡ false
      → process_quota account quota captured_at t
        ≡ process_found account quota captured_at
            (memory_of t account quota.name)
            (active_row key t.db.rows)
            (record t { db = record t.db { calls = suc t.db.calls } })
  unfolding process_quota query_active_codex_cycle query_active_cycle
  process_quota_found t captured_at fine = ground arith

  -- The call's branch for an active cycle.
  pub continues :
      (t : CodexTracker) (captured_at : ℕ) (c : CodexCycle)
      → t.db.fails t.db.calls ≡ false
      → active_row key t.db.rows ≡ some c
      → reset_found captured_at quota (memory_of t account quota.name) c.renews_at ≡ false
      → process_quota account quota captured_at t
        ≡ same_cycle account quota
            (memory_of t account quota.name)
            c
            (record t { db = record t.db { calls = suc t.db.calls } })
  unfolding process_found
  continues t captured_at c fine found kept =
      process_quota_found t captured_at fine ∙ rw (found, process_found, kept) refl

  pub rolls :
      (t : CodexTracker) (captured_at : ℕ) (c : CodexCycle)
      → t.db.fails t.db.calls ≡ false
      → active_row key t.db.rows ≡ some c
      → reset_found captured_at quota (memory_of t account quota.name) c.renews_at ≡ true
      → process_quota account quota captured_at t
        ≡ roll_over account quota captured_at
            (memory_of t account quota.name)
            c
            (record t { db = record t.db { calls = suc t.db.calls } })
  unfolding process_found
  rolls t captured_at c fine found ended =
      process_quota_found t captured_at fine ∙ rw (found, process_found, ended) refl
