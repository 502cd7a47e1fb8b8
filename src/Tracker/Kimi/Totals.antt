-- ===== src/Tracker/Kimi/Totals.antt =====
-- internal/tracker/kimi_tracker.go: what the table of cycles says of the usage.
use loomwatch.Prelude.{
  ℕ, ◌≡◌, refl, inl, inr, Bool-cases, String, Option, none, some, List, [], ◌∷◌, Result, ok, err,
  arith, string_eq, nat_eq, keep_if, ◌==◌, ◌>>=◌,
}
use loomwatch.Store.Cycles.{DbError}
use loomwatch.Store.AccountCycles.{
  AccountCycle, AccountDb, account_or_default, is_open, latest, query_active_kimi_reset_cycle,
  insert_kimi_reset_cycle, update_kimi_reset_cycle_end, IsUntracked, IsUntracked-append,
  IsUntracked-keep_if, IsUntracked-update_if, latest-IsUntracked,
}
use loomwatch.Tracker.Synthetic.{query_failed}
use loomwatch.Tracker.Kimi.{
  call, init_last, KimiQuota, KimiSnapshot, KimiTracker, new_kimi_cycle, roll_over, carry_on,
  process_found, process_quota, process_quotas, process, run,
}

-- The statements keep a table without recorded usage so, if they are given none.
insert-IsUntracked :
    (c : AccountCycle) (d : AccountDb)
    → IsUntracked d.rows
    → c.total_delta ≡ 0
    → IsUntracked (insert_kimi_reset_cycle c d).1.rows
unfolding insert_kimi_reset_cycle
insert-IsUntracked c d h z = ground (
  arith,
  IsUntracked-append d.rows
      (record c { id = d.next_id; account_id = account_or_default c.account_id }),
)

update-IsUntracked :
    (id end peak delta : ℕ) (d : AccountDb)
    → IsUntracked d.rows
    → delta ≡ 0
    → IsUntracked (update_kimi_reset_cycle_end id end peak delta d).1.rows
unfolding update_kimi_reset_cycle_end
update-IsUntracked id end peak delta d h z =
    rw z (ground (arith, IsUntracked-update_if (λ (c : AccountCycle). c.id == id) end peak d.rows))

roll_over-IsUntracked :
    (account : ℕ) (q : KimiQuota) (at : ℕ) (c : AccountCycle) (t : KimiTracker)
    → IsUntracked t.db.rows
    → c.total_delta ≡ 0
    → IsUntracked (roll_over account q at c t).1.db.rows
unfolding roll_over
roll_over-IsUntracked account q at c t h z =
    let d1 = (update_kimi_reset_cycle_end c.id at c.peak_utilization c.total_delta t.db).1 in
    ground (
      arith,
      update-IsUntracked c.id at c.peak_utilization c.total_delta t.db,
      insert-IsUntracked (new_kimi_cycle account q at) d1,
    )

-- What a query may return from such a table.
abbrev Finds : Result DbError (Option AccountCycle) → Type 0
Finds (ok none) = Unit {0}
Finds (ok (some c)) = c.total_delta ≡ 0
Finds (err _) = Unit {0}

latest-Finds :
    (cs : List AccountCycle) (o : Option AccountCycle)
    → IsUntracked cs
    → latest cs ≡ o
    → Finds (ok o)
latest-Finds cs none h e = tt
latest-Finds cs (some c) h e = latest-IsUntracked cs c h e

query-Finds :
    (account : ℕ) (quota : String) (d : AccountDb)
    → IsUntracked d.rows
    → Finds (query_active_kimi_reset_cycle account quota d).0
      × ((query_active_kimi_reset_cycle account quota d).1.rows ≡ d.rows)
unfolding query_active_kimi_reset_cycle
query-Finds account quota d h =
    let cs = keep_if (is_open (account_or_default account) quota) d.rows in
    let found =
      latest-Finds cs (latest cs)
        (IsUntracked-keep_if (is_open (account_or_default account) quota) d.rows h) refl in
    elim (Bool-cases (d.fails d.calls)) [
      | inl fails ↦ (rw fails tt, ground arith)
      | inr runs ↦ (rw runs found, ground arith)
    ]

process_found-IsUntracked :
    (account : ℕ) (q : KimiQuota) (at : ℕ) (o : Option AccountCycle) (t : KimiTracker)
    → IsUntracked t.db.rows
    → Finds (ok o)
    → IsUntracked (process_found account q at o t).1.db.rows
unfolding process_found init_last carry_on
process_found-IsUntracked account q at none t h f =
    ground (arith, insert-IsUntracked (new_kimi_cycle account q at) t.db)
process_found-IsUntracked account q at (some c) t h f =
    ground (arith, roll_over-IsUntracked account q at c t)

-- What follows the query, with its answer.
answered-IsUntracked :
    (account : ℕ) (q : KimiQuota) (at : ℕ) (r : Result DbError (Option AccountCycle))
    (t : KimiTracker) (d : AccountDb)
    → IsUntracked d.rows
    → Finds r
    → IsUntracked ((call query_failed (λ _. (r, d)) >>= process_found account q at) t).1.db.rows
answered-IsUntracked account q at (ok o) t d h f =
    process_found-IsUntracked account q at o (record t { db = d }) h f
answered-IsUntracked account q at (err e) t d h f = h

process_quota-IsUntracked :
    (account : ℕ) (q : KimiQuota) (at : ℕ) (t : KimiTracker)
    → IsUntracked t.db.rows
    → IsUntracked (process_quota account q at t).1.db.rows
unfolding process_quota
process_quota-IsUntracked account q at t h =
    let (found, same) = query-Finds account q.name t.db h in
    let (r, d) = query_active_kimi_reset_cycle account q.name t.db in
    answered-IsUntracked account q at r t d (rw same h) found

process_quotas-IsUntracked :
    (account : ℕ) (qs : List KimiQuota) (at : ℕ) (t : KimiTracker)
    → IsUntracked t.db.rows
    → IsUntracked (process_quotas account qs at t).1.db.rows
unfolding process_quotas
process_quotas-IsUntracked account [] at t h = h
process_quotas-IsUntracked account (q ∷ qs) at t h = ground (
  arith,
  process_quota-IsUntracked account q at t,
  process_quotas-IsUntracked account qs at (process_quota account q at t).1,
)

process-IsUntracked :
    (s : KimiSnapshot) (t : KimiTracker)
    → IsUntracked t.db.rows
    → IsUntracked (process s t).1.db.rows
unfolding process
process-IsUntracked s t h =
    ground
      (arith, process_quotas-IsUntracked (account_or_default s.account_id) s.quotas s.captured_at t)

-- No stored cycle of Kimi ever records usage: if no row of the table has a delta, then after any snapshots,
-- with any statements failing, no row has one, closed or open, however much was used. What
-- `processQuota` adds to a cycle stays in the copy that it has read.
pub kimi_run-IsUntracked :
    (snapshots : List KimiSnapshot) (t : KimiTracker)
    → IsUntracked t.db.rows
    → IsUntracked (run snapshots t).db.rows
unfolding run
kimi_run-IsUntracked [] t h = h
kimi_run-IsUntracked (s ∷ snapshots) t h =
    kimi_run-IsUntracked snapshots (process s t).1 (process-IsUntracked s t h)
