-- ===== src/Store/Cycles/Kept.antt =====
-- What no statement about one quota touches: the rows of the other quotas, and closed cycles.
use loomwatch.Prelude.{
  ℕ, ◌≡◌, refl, true, false, some, List, [], ◌∷◌, arith, Key, ◌==◌, is_some, get_elem?,
  get_elem?-append, get_elem?-update_if, update_if,
}
use loomwatch.Store.Cycles.{
  ResetCycle, is_active, ended, updated, insert_row, close_rows, update_rows, set_renews_rows,
  end_rows, rows_of,
}

-- Every closed cycle of `rows` stands in `rows'` as it was.
abbrev pub KeepsClosed : {K R : Type 0} → List (ResetCycle K R) → List (ResetCycle K R) → Type 0
KeepsClosed {K} {R} rows rows' =
    (i : ℕ) (c : ResetCycle K R)
    → get_elem? rows i ≡ some c
    → is_some c.cycle_end ≡ true
    → get_elem? rows' i ≡ some c

module _ {K R : Type 0} ⦃e : Key K⦄ where
  pub rows_of-insert_ne :
      (j k : K) (i start : ℕ) (r : R) (rows : List (ResetCycle K R))
      → (k == j) ≡ false
      → rows_of j (insert_row i k start r rows) ≡ rows_of j rows
  unfolding rows_of insert_row
  rows_of-insert_ne j k i start r [] h = ground arith
  rows_of-insert_ne j k i start r (c ∷ rows) h =
      ground (arith, rows_of-insert_ne j k i start r rows)

  -- An update of the active cycles of `k` that keeps their key leaves `j` alone.
  rows_of-update_if_ne :
      (j k : K) (f : ResetCycle K R → ResetCycle K R) (rows : List (ResetCycle K R))
      → (k == j) ≡ false
      → rows_of j (update_if (is_active k) (λ c. record (f c) { quota_type = c.quota_type }) rows)
        ≡ rows_of j rows
  unfolding rows_of
  rows_of-update_if_ne j k f [] h = refl
  rows_of-update_if_ne j k f (c ∷ rows) h = ground (
    arith,
    e.matches_iff k j,
    e.matches_iff c.quota_type k,
    e.matches_iff c.quota_type j,
    rows_of-update_if_ne j k f rows h,
  )

  pub rows_of-close_ne :
      (j k : K) (end peak delta : ℕ) (rows : List (ResetCycle K R))
      → (k == j) ≡ false
      → rows_of j (close_rows k end peak delta rows) ≡ rows_of j rows
  unfolding close_rows
  rows_of-close_ne j k end peak delta rows h =
      rows_of-update_if_ne j k (ended end peak delta) rows h

  pub rows_of-update_ne :
      (j k : K) (peak delta : ℕ) (rows : List (ResetCycle K R))
      → (k == j) ≡ false
      → rows_of j (update_rows k peak delta rows) ≡ rows_of j rows
  unfolding update_rows
  rows_of-update_ne j k peak delta rows h = rows_of-update_if_ne j k (updated peak delta) rows h

  pub rows_of-set_renews_ne :
      (j k : K) (r : R) (rows : List (ResetCycle K R))
      → (k == j) ≡ false
      → rows_of j (set_renews_rows k r rows) ≡ rows_of j rows
  unfolding set_renews_rows
  rows_of-set_renews_ne j k r rows h =
      rows_of-update_if_ne j k (λ c. record c { renews_at = r }) rows h

  pub rows_of-end_ne :
      (j k : K) (end : ℕ) (rows : List (ResetCycle K R))
      → (k == j) ≡ false
      → rows_of j (end_rows k end rows) ≡ rows_of j rows
  unfolding end_rows
  rows_of-end_ne j k end rows h =
      rows_of-update_if_ne j k (λ c. record c { cycle_end = some end }) rows h

module _ {K R : Type 0} where
  pub KeepsClosed-refl : (rows : List (ResetCycle K R)) → KeepsClosed rows rows
  KeepsClosed-refl rows i c h closed = h

  pub KeepsClosed-trans :
      (xs ys zs : List (ResetCycle K R)) → KeepsClosed xs ys → KeepsClosed ys zs → KeepsClosed xs zs
  KeepsClosed-trans xs ys zs f g i c h closed = g i c (f i c h closed) closed

module _ {K R : Type 0} ⦃e : Key K⦄ where
  pub insert-KeepsClosed :
      (i : ℕ) (k : K) (start : ℕ) (r : R) (rows : List (ResetCycle K R))
      → KeepsClosed rows (insert_row i k start r rows)
  unfolding insert_row
  insert-KeepsClosed i k start r rows n c h closed = get_elem?-append rows _ n c h

  update_if-KeepsClosed :
      (k : K) (f : ResetCycle K R → ResetCycle K R) (rows : List (ResetCycle K R))
      → KeepsClosed rows (update_if (is_active k) f rows)
  update_if-KeepsClosed k f rows n c h closed =
      ground (arith, get_elem?-update_if (is_active k) f rows n c h)

  pub close-KeepsClosed :
      (k : K) (end peak delta : ℕ) (rows : List (ResetCycle K R))
      → KeepsClosed rows (close_rows k end peak delta rows)
  unfolding close_rows
  close-KeepsClosed k end peak delta rows = update_if-KeepsClosed k (ended end peak delta) rows

  pub update-KeepsClosed :
      (k : K) (peak delta : ℕ) (rows : List (ResetCycle K R))
      → KeepsClosed rows (update_rows k peak delta rows)
  unfolding update_rows
  update-KeepsClosed k peak delta rows = update_if-KeepsClosed k (updated peak delta) rows

  pub set_renews-KeepsClosed :
      (k : K) (r : R) (rows : List (ResetCycle K R)) → KeepsClosed rows (set_renews_rows k r rows)
  unfolding set_renews_rows
  set_renews-KeepsClosed k r rows = update_if-KeepsClosed k (λ c. record c { renews_at = r }) rows

  pub end-KeepsClosed :
      (k : K) (end : ℕ) (rows : List (ResetCycle K R)) → KeepsClosed rows (end_rows k end rows)
  unfolding end_rows
  end-KeepsClosed k end rows = update_if-KeepsClosed k (λ c. record c { cycle_end = some end }) rows

  -- The active cycle that a close meets is ended where it stands.
  pub get_elem?-close :
      (k : K) (end peak delta i : ℕ) (c : ResetCycle K R) (rows : List (ResetCycle K R))
      → get_elem? rows i ≡ some c
      → is_active k c ≡ true
      → get_elem? (close_rows k end peak delta rows) i ≡ some (ended end peak delta c)
  unfolding close_rows
  get_elem?-close k end peak delta i c rows h active =
      ground (arith, get_elem?-update_if (is_active k) (ended end peak delta) rows i c h)
