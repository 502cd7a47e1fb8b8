-- ===== src/Store/Cycles/Writes.antt =====
-- The statements that a tracker may run for one quota, as a relation on the rows: a cycle is
-- created only where none is active, and is ended or updated only while it is active.
use loomwatch.Prelude.{ℕ, ◌≤◌, ◌≡◌, refl, false, none, List, arith, Key, ◌==◌, ◌∙◌}
use loomwatch.Store.Cycles.{
  ResetCycle, insert_row, close_rows, update_rows, set_renews_rows, end_rows, actives, active_row,
  rows_of,
}
use loomwatch.Store.Cycles.Rows.{
  actives-insert, actives-close, actives-update, actives-set_renews, actives-end, active_row-none,
}
use loomwatch.Store.Cycles.Kept.{
  KeepsClosed, KeepsClosed-refl, KeepsClosed-trans, insert-KeepsClosed, close-KeepsClosed,
  update-KeepsClosed, set_renews-KeepsClosed, end-KeepsClosed, rows_of-insert_ne, rows_of-close_ne,
  rows_of-update_ne, rows_of-set_renews_ne, rows_of-end_ne,
}

-- No quota has two active cycles.
abbrev pub AtMostOneActive : {K R : Type 0} ⦃e : Key K⦄ → List (ResetCycle K R) → Type 0
AtMostOneActive {K} rows = (k : K) → actives k rows ≤ 1

module _ {K R : Type 0} ⦃e : Key K⦄ where
  pub data Write (q : K) (rows rows' : List (ResetCycle K R)) : Type 0 where
    created :
        (i start : ℕ) (r : R)
        → active_row q rows ≡ none
        → rows' ≡ insert_row i q start r rows
        → Write q rows rows'
    closed : (end peak delta : ℕ) → rows' ≡ close_rows q end peak delta rows → Write q rows rows'
    updated : (peak delta : ℕ) → rows' ≡ update_rows q peak delta rows → Write q rows rows'
    moved : (r : R) → rows' ≡ set_renews_rows q r rows → Write q rows rows'
    stopped : (end : ℕ) → rows' ≡ end_rows q end rows → Write q rows rows'

  pub data Writes (q : K) (rows : List (ResetCycle K R)) : List (ResetCycle K R) → Type 0 where
    nothing : Writes q rows rows
    more : {xs ys : List (ResetCycle K R)} → Writes q rows xs → Write q xs ys → Writes q rows ys

module _ {K R : Type 0} ⦃e : Key K⦄ (q : K) where
  pub Writes-trans :
      (xs : List (ResetCycle K R)) {ys zs : List (ResetCycle K R)}
      → Writes q xs ys
      → Writes q ys zs
      → Writes q xs zs
  Writes-trans xs f nothing = f
  Writes-trans xs f (more g w) = more (Writes-trans xs f g) w

  Write-actives :
      (k : K) (xs ys : List (ResetCycle K R)) → Write q xs ys → actives k xs ≤ 1 → actives k ys ≤ 1
  Write-actives k xs ys (created i start r free d) h =
      ground (arith, e.matches_iff q k, active_row-none q xs free, actives-insert k q i start r xs)
  Write-actives k xs ys (closed end peak delta d) h =
      ground (arith, actives-close k q end peak delta xs)
  Write-actives k xs ys (updated peak delta d) h = rw (d, actives-update k q peak delta xs) h
  Write-actives k xs ys (moved r d) h = rw (d, actives-set_renews k q r xs) h
  Write-actives k xs ys (stopped end d) h = ground (arith, actives-end k q end xs)

  pub Writes-AtMostOneActive :
      {xs ys : List (ResetCycle K R)} → Writes q xs ys → AtMostOneActive xs → AtMostOneActive ys
  Writes-AtMostOneActive nothing h k = h k
  Writes-AtMostOneActive (more f w) h k = Write-actives k _ _ w (Writes-AtMostOneActive f h k)

  Write-KeepsClosed : (xs ys : List (ResetCycle K R)) → Write q xs ys → KeepsClosed xs ys
  Write-KeepsClosed xs ys (created i start r free d) = rw d (insert-KeepsClosed i q start r xs)
  Write-KeepsClosed xs ys (closed end peak delta d) = rw d (close-KeepsClosed q end peak delta xs)
  Write-KeepsClosed xs ys (updated peak delta d) = rw d (update-KeepsClosed q peak delta xs)
  Write-KeepsClosed xs ys (moved r d) = rw d (set_renews-KeepsClosed q r xs)
  Write-KeepsClosed xs ys (stopped end d) = rw d (end-KeepsClosed q end xs)

  pub Writes-KeepsClosed : {xs ys : List (ResetCycle K R)} → Writes q xs ys → KeepsClosed xs ys
  Writes-KeepsClosed {xs} nothing = KeepsClosed-refl xs
  Writes-KeepsClosed {xs} {ys} (more {xs = zs} f w) =
      KeepsClosed-trans xs zs ys (Writes-KeepsClosed f) (Write-KeepsClosed zs ys w)

  Write-rows_of :
      (k : K) (xs ys : List (ResetCycle K R))
      → Write q xs ys
      → (q == k) ≡ false
      → rows_of k ys ≡ rows_of k xs
  Write-rows_of k xs ys (created i start r free d) h = rw d (rows_of-insert_ne k q i start r xs h)
  Write-rows_of k xs ys (closed end peak delta d) h =
      rw d (rows_of-close_ne k q end peak delta xs h)
  Write-rows_of k xs ys (updated peak delta d) h = rw d (rows_of-update_ne k q peak delta xs h)
  Write-rows_of k xs ys (moved r d) h = rw d (rows_of-set_renews_ne k q r xs h)
  Write-rows_of k xs ys (stopped end d) h = rw d (rows_of-end_ne k q end xs h)

  pub Writes-rows_of :
      (k : K) {xs ys : List (ResetCycle K R)}
      → Writes q xs ys
      → (q == k) ≡ false
      → rows_of k ys ≡ rows_of k xs
  Writes-rows_of k nothing h = refl
  Writes-rows_of k (more f w) h = Write-rows_of k _ _ w h ∙ Writes-rows_of k f h

-- What holds of the rows from one state of the table to a later one.
abbrev pub Keeps :
    {K R : Type 0} ⦃e : Key K⦄ → List (ResetCycle K R) → List (ResetCycle K R) → Type 0
Keeps rows rows' = (AtMostOneActive rows → AtMostOneActive rows') × KeepsClosed rows rows'

module _ {K R : Type 0} ⦃e : Key K⦄ where
  pub Keeps-refl : (rows : List (ResetCycle K R)) → Keeps rows rows
  Keeps-refl rows = (λ h. h, KeepsClosed-refl rows)

  pub Keeps-trans : (xs ys zs : List (ResetCycle K R)) → Keeps xs ys → Keeps ys zs → Keeps xs zs
  Keeps-trans xs ys zs f g = (λ h. g.0 (f.0 h), KeepsClosed-trans xs ys zs f.1 g.1)

  pub Writes-Keeps : (q : K) {xs ys : List (ResetCycle K R)} → Writes q xs ys → Keeps xs ys
  Writes-Keeps q w = (Writes-AtMostOneActive q w, Writes-KeepsClosed q w)
