-- ===== src/Store/Cycles/Rows.antt =====
-- What each statement does to the rows: how many cycles of a quota are active, which one a query
-- finds, what is kept about the other quotas, and that a closed cycle is never written again.
use loomwatch.Prelude.{
  ℕ, ◌+◌, ◌≡◌, refl, true, none, some, List, [], ◌∷◌, arith, Key, ◌==◌, if◌then◌else◌,
  find_if-eq-none, find_if-holds,
}
use loomwatch.Store.Cycles.{
  ResetCycle, is_active, new_cycle, updated, insert_row, close_rows, update_rows, set_renews_rows,
  end_rows, actives, active_row,
}

module _ {K R : Type 0} ⦃e : Key K⦄ where
  pub actives-insert :
      (j k : K) (i start : ℕ) (r : R) (rows : List (ResetCycle K R))
      → actives j (insert_row i k start r rows) ≡ actives j rows + (if k == j then 1 else 0)
  unfolding actives insert_row
  actives-insert j k i start r [] = ground arith
  actives-insert j k i start r (c ∷ rows) = ground (arith, actives-insert j k i start r rows)

  pub actives-close :
      (j k : K) (end peak delta : ℕ) (rows : List (ResetCycle K R))
      → actives j (close_rows k end peak delta rows) ≡ (if k == j then 0 else actives j rows)
  unfolding actives close_rows
  actives-close j k end peak delta [] = ground arith
  actives-close j k end peak delta (c ∷ rows) = ground (
    arith,
    e.matches_iff k j,
    e.matches_iff c.quota_type k,
    e.matches_iff c.quota_type j,
    actives-close j k end peak delta rows,
  )

  pub actives-end :
      (j k : K) (end : ℕ) (rows : List (ResetCycle K R))
      → actives j (end_rows k end rows) ≡ (if k == j then 0 else actives j rows)
  unfolding actives end_rows
  actives-end j k end [] = ground arith
  actives-end j k end (c ∷ rows) = ground (
    arith,
    e.matches_iff k j,
    e.matches_iff c.quota_type k,
    e.matches_iff c.quota_type j,
    actives-end j k end rows,
  )

  pub actives-update :
      (j k : K) (peak delta : ℕ) (rows : List (ResetCycle K R))
      → actives j (update_rows k peak delta rows) ≡ actives j rows
  unfolding actives update_rows
  actives-update j k peak delta [] = refl
  actives-update j k peak delta (c ∷ rows) = ground (arith, actives-update j k peak delta rows)

  pub active_row-insert :
      (j k : K) (i start : ℕ) (r : R) (rows : List (ResetCycle K R))
      → active_row j rows ≡ none
      → active_row j (insert_row i k start r rows)
        ≡ (if k == j then some (new_cycle i k start r) else none)
  unfolding active_row insert_row
  active_row-insert j k i start r [] h = ground arith
  active_row-insert j k i start r (c ∷ rows) h =
      ground (arith, active_row-insert j k i start r rows)

  pub active_row-close :
      (k : K) (end peak delta : ℕ) (rows : List (ResetCycle K R))
      → active_row k (close_rows k end peak delta rows) ≡ none
  unfolding active_row close_rows
  active_row-close k end peak delta [] = refl
  active_row-close k end peak delta (c ∷ rows) =
      ground (arith, active_row-close k end peak delta rows)

  pub active_row-update :
      (k : K) (peak delta : ℕ) (c : ResetCycle K R) (rows : List (ResetCycle K R))
      → active_row k rows ≡ some c
      → active_row k (update_rows k peak delta rows) ≡ some (updated peak delta c)
  unfolding active_row update_rows
  active_row-update k peak delta c [] h = cc
  active_row-update k peak delta c (d ∷ rows) h =
      ground (arith, active_row-update k peak delta c rows)

  pub actives-set_renews :
      (j k : K) (r : R) (rows : List (ResetCycle K R))
      → actives j (set_renews_rows k r rows) ≡ actives j rows
  unfolding actives set_renews_rows
  actives-set_renews j k r [] = refl
  actives-set_renews j k r (c ∷ rows) = ground (arith, actives-set_renews j k r rows)

  pub active_row-set_renews :
      (k : K) (r : R) (c : ResetCycle K R) (rows : List (ResetCycle K R))
      → active_row k rows ≡ some c
      → active_row k (set_renews_rows k r rows) ≡ some (record c { renews_at = r })
  unfolding active_row set_renews_rows
  active_row-set_renews k r c [] h = cc
  active_row-set_renews k r c (d ∷ rows) h = ground (arith, active_row-set_renews k r c rows)

  -- No row is found exactly when none is active.
  pub active_row-none :
      (k : K) (rows : List (ResetCycle K R)) → active_row k rows ≡ none → actives k rows ≡ 0
  unfolding active_row actives
  active_row-none k rows h = (find_if-eq-none (is_active k) rows).0 h

  pub active_row-is_active :
      (k : K) (rows : List (ResetCycle K R)) (c : ResetCycle K R)
      → active_row k rows ≡ some c
      → is_active k c ≡ true
  unfolding active_row
  active_row-is_active k rows c h = find_if-holds (is_active k) rows c h
