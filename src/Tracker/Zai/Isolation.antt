-- ===== src/Tracker/Zai/Isolation.antt =====
-- The accounts of the Z.ai tracker do not touch each other.
use loomwatch.Prelude.{
  ℕ, ◌<◌, ◌≡◌, ◌≢◌, ◌⊎◌, refl, ap, String, true, false, Option, none, some, Result, ok, err, List,
  [], ◌∷◌, arith, string_eq, nat_eq, pair_eq, ◌∙◌, inl, inr,
}
use loomwatch.Prelude.Dict.{lookup, lookup-insert}
use loomwatch.Store.Cycles.{
  DbError, query_active_cycle, create_cycle, close_cycle, update_cycle, rows_of,
}
use loomwatch.Store.Cycles.Kept.{rows_of-insert_ne, rows_of-close_ne, rows_of-update_ne}
use loomwatch.Tracker.Accounts.{or_zero}
use loomwatch.Tracker.Zai.{
  ZaiSnapshot, ZaiTracker, ZaiCycle, ZaiDb, resolve_zai_account, create_zai_cycle, close_zai_cycle,
  update_zai_cycle, query_active_zai_cycle, update_stats, whole, grown, cycle_end_time,
  final_tokens, start_tokens, roll_tokens, same_tokens, tokens_found, process_tokens_quota,
  start_time, roll_time, same_time, time_found, process_time_quota, process, run,
}
use loomwatch.Tracker.Zai.History.{process-rows}

-- The tracker remembers the same of account `b`, and the table holds the same cycles of it.
abbrev pub SameAccount : ℕ → ZaiTracker → ZaiTracker → Type 0
SameAccount b t t' =
    (lookup b t'.last_tokens_value ≡ lookup b t.last_tokens_value)
    × (lookup b t'.last_time_value ≡ lookup b t.last_time_value)
    × (lookup b t'.has_last_values ≡ lookup b t.has_last_values)
    × ((q : String) → rows_of (b, q) t'.db.rows ≡ rows_of (b, q) t.db.rows)

-- What the tracker remembers.
abbrev SameMemory : ℕ → ZaiTracker → ZaiTracker → Type 0
SameMemory b t t' =
    (lookup b t'.last_tokens_value ≡ lookup b t.last_tokens_value)
    × (lookup b t'.last_time_value ≡ lookup b t.last_time_value)
    × (lookup b t'.has_last_values ≡ lookup b t.has_last_values)

-- An account other than `b`: with an id, or without one while `b` is never the default account.
abbrev pub IsElsewhere : (ℕ → Option ℕ) → ℕ → ℕ → Type 0
IsElsewhere d b account = (account ≢ b) × ((0 < account) ⊎ ((n : ℕ) → d n ≢ some b))

-- None of the snapshots is filed under account `b`.
abbrev pub IsFree : (ℕ → Option ℕ) → ℕ → List (ℕ × ZaiSnapshot) → Type 0
IsFree d b [] = Unit {0}
IsFree d b ((account, _) ∷ feed) = IsElsewhere d b account × IsFree d b feed

module _ (d : ℕ → Option ℕ) (s : ZaiSnapshot) (account b : ℕ) (differ : account ≢ b) where
  update_stats-SameMemory :
      (q : String) (value last : ℕ) (c : ZaiCycle) (t : ZaiTracker)
      → SameMemory b t (update_stats d q account value last c t).1
  unfolding update_stats
  update_stats-SameMemory q value last c t = ground arith

  tokens_found-SameMemory :
      (found : Option ZaiCycle) (t : ZaiTracker)
      → SameMemory b t (tokens_found d s account found t).1
  unfolding tokens_found start_tokens roll_tokens same_tokens
  tokens_found-SameMemory none t =
      ground (arith, lookup-insert account b s.tokens_current_value t.last_tokens_value)
  tokens_found-SameMemory (some c) t = ground (
    arith,
    lookup-insert account b s.tokens_current_value t.last_tokens_value,
    update_stats-SameMemory "tokens" s.tokens_current_value
        (or_zero (lookup account t.last_tokens_value)) c t,
    lookup-insert account b s.tokens_current_value
        (update_stats d "tokens" account s.tokens_current_value
          (or_zero (lookup account t.last_tokens_value)) c t).1.last_tokens_value,
  )

  time_found-SameMemory :
      (found : Option ZaiCycle) (t : ZaiTracker) → SameMemory b t (time_found d s account found t).1
  unfolding time_found start_time roll_time same_time
  time_found-SameMemory none t =
      ground (arith, lookup-insert account b s.time_current_value t.last_time_value)
  time_found-SameMemory (some c) t = ground (
    arith,
    lookup-insert account b s.time_current_value t.last_time_value,
    update_stats-SameMemory "time" s.time_current_value (or_zero (lookup account t.last_time_value))
        c t,
    lookup-insert account b s.time_current_value
        (update_stats d "time" account s.time_current_value
          (or_zero (lookup account t.last_time_value)) c t).1.last_time_value,
  )

  tokens_answered-SameMemory :
      (t : ZaiTracker) (r : Result DbError (Option ZaiCycle)) (db : ZaiDb)
      → query_active_zai_cycle d "tokens" account t.db ≡ (r, db)
      → SameMemory b t (process_tokens_quota d s account t).1
  unfolding process_tokens_quota
  tokens_answered-SameMemory t (err _) db e = ground arith
  tokens_answered-SameMemory t (ok found) db e =
      ground (arith, tokens_found-SameMemory found (record t { db = db }))

  time_answered-SameMemory :
      (t : ZaiTracker) (r : Result DbError (Option ZaiCycle)) (db : ZaiDb)
      → query_active_zai_cycle d "time" account t.db ≡ (r, db)
      → SameMemory b t (process_time_quota d s account t).1
  unfolding process_time_quota
  time_answered-SameMemory t (err _) db e = ground arith
  time_answered-SameMemory t (ok found) db e =
      ground (arith, time_found-SameMemory found (record t { db = db }))

  process-SameMemory : (t : ZaiTracker) → SameMemory b t (process d s account t).1
  unfolding process
  process-SameMemory t =
      let t1 = (process_tokens_quota d s account t).1 in
      let t2 = (process_time_quota d s account t1).1 in
      let q = query_active_zai_cycle d "tokens" account t.db in
      let q1 = query_active_zai_cycle d "time" account t1.db in
      ground (
        arith,
        tokens_answered-SameMemory t q.0 q.1 refl,
        time_answered-SameMemory t1 q1.0 q1.1 refl,
        lookup-insert account b true t2.has_last_values,
      )

module _ (d : ℕ → Option ℕ) (account b : ℕ) (pos : 0 < b) (other : IsElsewhere d b account)
    (k : String) where
  -- The cycles of account `b` are the same.
  abbrev Kept : ZaiDb → ZaiDb → Type 0
  Kept db db' = rows_of (b, k) db'.rows ≡ rows_of (b, k) db.rows

  resolve_zai_account-ne :
      (db : ZaiDb)
      → ((resolve_zai_account d account db).0 ≢ b)
        × ((resolve_zai_account d account db).1.rows ≡ db.rows)
  unfolding resolve_zai_account
  resolve_zai_account-ne db = elim other.1 [
    | inl id ↦ (ground (arith, other.0), ground arith)
    | inr free ↦ (ground (arith, other.0, free db.calls), ground arith)
  ]

  other_key :
      (id : ℕ) (q : String) → id ≢ b → (pair_eq {A = ℕ} {B = String}).matches (id, q) (b, k) ≡ false
  other_key id q h = ground (arith, nat_eq.matches_iff id b)

  create-Kept :
      (q : String) (start : ℕ) (next : Option ℕ) (db : ZaiDb)
      → Kept db (create_zai_cycle d q start next account db).1
  unfolding create_zai_cycle create_cycle
  create-Kept q start next db =
      let r = resolve_zai_account d account db in
      ground (
        arith,
        resolve_zai_account-ne db,
        rows_of-insert_ne (b, k) (r.0, q) r.1.next_id start next r.1.rows,
        other_key r.0 q,
      )

  close-Kept :
      (q : String) (end peak delta : ℕ) (db : ZaiDb)
      → Kept db (close_zai_cycle d q end peak delta account db).1
  unfolding close_zai_cycle close_cycle
  close-Kept q end peak delta db =
      let r = resolve_zai_account d account db in
      ground (
        arith,
        resolve_zai_account-ne db,
        rows_of-close_ne (b, k) (r.0, q) end peak delta r.1.rows,
        other_key r.0 q,
      )

  update-Kept :
      (q : String) (peak delta : ℕ) (db : ZaiDb)
      → Kept db (update_zai_cycle d q peak delta account db).1
  unfolding update_zai_cycle update_cycle
  update-Kept q peak delta db =
      let r = resolve_zai_account d account db in
      ground (
        arith,
        resolve_zai_account-ne db,
        rows_of-update_ne (b, k) (r.0, q) peak delta r.1.rows,
        other_key r.0 q,
      )

  query-Kept : (q : String) (db : ZaiDb) → Kept db (query_active_zai_cycle d q account db).1
  unfolding query_active_zai_cycle query_active_cycle
  query-Kept q db = ground (arith, resolve_zai_account-ne db)

  module _ (s : ZaiSnapshot) where
    update_stats-Kept :
        (q : String) (value last : ℕ) (c : ZaiCycle) (t : ZaiTracker)
        → Kept t.db (update_stats d q account value last c t).1.db
    unfolding update_stats
    update_stats-Kept q value last c t =
        let final = grown last value c in
        ground (
          arith,
          update-Kept q final.peak_requests final.total_delta t.db,
          update-Kept q (whole value) c.total_delta t.db,
        )

    tokens_found-Kept :
        (found : Option ZaiCycle) (t : ZaiTracker)
        → Kept t.db (tokens_found d s account found t).1.db
    unfolding tokens_found start_tokens roll_tokens same_tokens
    tokens_found-Kept none t =
        let reset = s.tokens_next_reset_time in
        let one = (create_zai_cycle d "tokens" s.captured_at reset account t.db).1 in
        ground (
          arith,
          create-Kept "tokens" s.captured_at reset t.db,
          update-Kept "tokens" (whole s.tokens_current_value) 0 one,
        )
    tokens_found-Kept (some c) t =
        let reset = s.tokens_next_reset_time in
        let end = cycle_end_time s.captured_at c.renews_at in
        let final = final_tokens s account c t in
        let one =
          (close_zai_cycle d "tokens" end final.peak_requests final.total_delta account t.db).1 in
        let two = (create_zai_cycle d "tokens" s.captured_at reset account one).1 in
        ground (
          arith,
          close-Kept "tokens" end final.peak_requests final.total_delta t.db,
          create-Kept "tokens" s.captured_at reset one,
          update-Kept "tokens" (whole s.tokens_current_value) 0 two,
          update_stats-Kept "tokens" s.tokens_current_value
              (or_zero (lookup account t.last_tokens_value)) c t,
        )

    time_found-Kept :
        (found : Option ZaiCycle) (t : ZaiTracker) → Kept t.db (time_found d s account found t).1.db
    unfolding time_found start_time roll_time same_time
    time_found-Kept none t =
        let one = (create_zai_cycle d "time" s.captured_at none account t.db).1 in
        ground (
          arith,
          create-Kept "time" s.captured_at none t.db,
          update-Kept "time" (whole s.time_current_value) 0 one,
        )
    time_found-Kept (some c) t =
        let one =
          (close_zai_cycle d "time" s.captured_at c.peak_requests c.total_delta account t.db).1 in
        let two = (create_zai_cycle d "time" s.captured_at none account one).1 in
        ground (
          arith,
          close-Kept "time" s.captured_at c.peak_requests c.total_delta t.db,
          create-Kept "time" s.captured_at none one,
          update-Kept "time" (whole s.time_current_value) 0 two,
          update_stats-Kept "time" s.time_current_value (or_zero (lookup account t.last_time_value))
              c t,
        )

    tokens_answered-Kept :
        (t : ZaiTracker) (r : Result DbError (Option ZaiCycle)) (db : ZaiDb)
        → query_active_zai_cycle d "tokens" account t.db ≡ (r, db)
        → Kept t.db (process_tokens_quota d s account t).1.db
    unfolding process_tokens_quota
    tokens_answered-Kept t (err _) db e = ground (arith, query-Kept "tokens" t.db)
    tokens_answered-Kept t (ok found) db e =
        ground (arith, query-Kept "tokens" t.db, tokens_found-Kept found (record t { db = db }))

    time_answered-Kept :
        (t : ZaiTracker) (r : Result DbError (Option ZaiCycle)) (db : ZaiDb)
        → query_active_zai_cycle d "time" account t.db ≡ (r, db)
        → Kept t.db (process_time_quota d s account t).1.db
    unfolding process_time_quota
    time_answered-Kept t (err _) db e = ground (arith, query-Kept "time" t.db)
    time_answered-Kept t (ok found) db e =
        ground (arith, query-Kept "time" t.db, time_found-Kept found (record t { db = db }))

    process-Kept : (t : ZaiTracker) → Kept t.db (process d s account t).1.db
    process-Kept t =
        let t1 = (process_tokens_quota d s account t).1 in
        let q = query_active_zai_cycle d "tokens" account t.db in
        let q1 = query_active_zai_cycle d "time" account t1.db in
        let one = tokens_answered-Kept t q.0 q.1 refl in
        let two = time_answered-Kept t1 q1.0 q1.1 refl in
        elim (process-rows d s account t) [
          | inl e ↦ ap (rows_of (b, k)) e ∙ one
          | inr e ↦ ap (rows_of (b, k)) e ∙ two ∙ one
        ]

-- Z.ai snapshots that are not filed under an account with a positive id change nothing of it: its
-- last values and its cycles are after them what they were before, whichever the default account is
-- at each statement that has no id, as long as it is not this one, and also when statements and
-- lookups fail.
pub run_other_accounts :
    (d : ℕ → Option ℕ) (b : ℕ) (feed : List (ℕ × ZaiSnapshot)) (t : ZaiTracker)
    → 0 < b
    → IsFree d b feed
    → SameAccount b t (run d feed t)
unfolding run
run_other_accounts d b [] t pos h = (refl, refl, refl, λ q. refl)
run_other_accounts d b ((account, s) ∷ rest) t pos h =
    let t' = (process d s account t).1 in
    let memory = process-SameMemory d s account b h.0.0 t in
    let later = run_other_accounts d b rest t' pos h.1 in
    (
      later.0 ∙ memory.0,
      later.1 ∙ memory.1,
      later.2 ∙ memory.2,
      λ q. later.3 q ∙ process-Kept d account b pos h.0 q s t,
    )
