-- ===== src/Store/Cycles.antt =====
-- The reset cycle tables: `reset_cycles` (internal/store/store.go), `anthropic_reset_cycles`,
-- `codex_reset_cycles`, `zai_reset_cycles` and `minimax_reset_cycles` (anthropic_store.go,
-- codex_store.go, zai_store.go and minimax_store.go beside it). They differ in their key (a quota
-- type or name, or an account and a name) and in their reset time (NOT NULL or nullable), which are
-- the parameters `K` and `R`. The database driver decides which statements fail: the schedule
-- `fails`, read at the number of statements run so far. A statement that fails leaves the table as
-- it was.
pub mod Rows
pub mod Kept
pub mod Writes
use loomwatch.Prelude.{
  ℕ, suc, ◌≡◌, Bool, true, false, not, ◌&&◌, Option, none, some, List, [], ◌∷◌, ◌++◌, Result, ok,
  err, Action, ◌>>=◌, Key, ◌==◌, if◌then◌else◌, is_some, count_if, keep_if, find_if, update_if,
}

-- `type ResetCycle struct`
pub record ResetCycle (K R : Type 0) : Type 0 where
  pub id : ℕ
  pub quota_type : K
  pub cycle_start : ℕ
  pub cycle_end : Option ℕ
  pub renews_at : R
  pub peak_requests : ℕ
  pub total_delta : ℕ

pub record Db (K R : Type 0) : Type 0 where
  pub rows : List (ResetCycle K R)
  pub next_id : ℕ
  pub calls : ℕ
  pub fails : ℕ → Bool

pub data DbError : Type 0 where
  db_error : DbError

module _ {K R : Type 0} ⦃e : Key K⦄ where
  -- `WHERE quota_type = ? AND cycle_end IS NULL`
  abbrev pub is_active : K → ResetCycle K R → Bool
  is_active k c = c.quota_type == k && not (is_some c.cycle_end)

  abbrev pub new_cycle : ℕ → K → ℕ → R → ResetCycle K R
  new_cycle i k start renews = record {
    id = i;
    quota_type = k;
    cycle_start = start;
    cycle_end = none;
    renews_at = renews;
    peak_requests = 0;
    total_delta = 0;
  }

  abbrev pub ended : ℕ → ℕ → ℕ → ResetCycle K R → ResetCycle K R
  ended end peak delta c = record c {
    cycle_end = some end;
    peak_requests = peak;
    total_delta = delta;
  }

  abbrev pub updated : ℕ → ℕ → ResetCycle K R → ResetCycle K R
  updated peak delta c = record c { peak_requests = peak; total_delta = delta }

  -- The effect of each statement on the rows.
  unfoldable pub insert_row : ℕ → K → ℕ → R → List (ResetCycle K R) → List (ResetCycle K R)
  insert_row i k start renews rows = rows ++ new_cycle i k start renews ∷ []

  unfoldable pub close_rows : K → ℕ → ℕ → ℕ → List (ResetCycle K R) → List (ResetCycle K R)
  close_rows k end peak delta = update_if (is_active k) (ended end peak delta)

  unfoldable pub update_rows : K → ℕ → ℕ → List (ResetCycle K R) → List (ResetCycle K R)
  update_rows k peak delta = update_if (is_active k) (updated peak delta)

  pub set_renews_rows : K → R → List (ResetCycle K R) → List (ResetCycle K R)
  set_renews_rows k renews = update_if (is_active k) (λ c. record c { renews_at = renews })

  unfoldable pub end_rows : K → ℕ → List (ResetCycle K R) → List (ResetCycle K R)
  end_rows k end = update_if (is_active k) (λ c. record c { cycle_end = some end })

  -- How many cycles of a quota are active.
  unfoldable pub actives : K → List (ResetCycle K R) → ℕ
  actives k = count_if (is_active k)

  -- `QueryRow`: the first row that matches.
  unfoldable pub active_row : K → List (ResetCycle K R) → Option (ResetCycle K R)
  active_row k = find_if (is_active k)

  -- All that the table holds about a quota.
  unfoldable pub rows_of : K → List (ResetCycle K R) → List (ResetCycle K R)
  rows_of k = keep_if (λ c. c.quota_type == k)

  abbrev run_statement : (Db K R → Db K R) → Action DbError (Db K R) (Unit {0})
  run_statement f d =
      let failed = d.fails d.calls in
      let d' = record d { calls = suc d.calls } in
      if failed then (err db_error, d') else (ok tt, f d')

  unfoldable pub create_cycle : K → ℕ → R → Action DbError (Db K R) (Unit {0})
  unfolding insert_row
  create_cycle k start renews =
      run_statement
        λ d. record d { rows = insert_row d.next_id k start renews d.rows; next_id = suc d.next_id }

  unfoldable pub close_cycle : K → ℕ → ℕ → ℕ → Action DbError (Db K R) (Unit {0})
  close_cycle k end peak delta =
      run_statement λ d. record d { rows = close_rows k end peak delta d.rows }

  unfoldable pub update_cycle : K → ℕ → ℕ → Action DbError (Db K R) (Unit {0})
  update_cycle k peak delta = run_statement λ d. record d { rows = update_rows k peak delta d.rows }

  unfoldable pub update_cycle_resets_at : K → R → Action DbError (Db K R) (Unit {0})
  update_cycle_resets_at k renews =
      run_statement λ d. record d { rows = set_renews_rows k renews d.rows }

  -- `UPDATE … SET cycle_end = ?`, which leaves the peak and the delta.
  unfoldable pub end_cycle : K → ℕ → Action DbError (Db K R) (Unit {0})
  end_cycle k end = run_statement λ d. record d { rows = end_rows k end d.rows }

  unfoldable pub query_active_cycle : K → Action DbError (Db K R) (Option (ResetCycle K R))
  query_active_cycle k d =
      let failed = d.fails d.calls in
      let d' = record d { calls = suc d.calls } in
      if failed then (err db_error, d') else (ok (active_row k d.rows), d')
