-- ===== src/Menubar/Settings/Order.antt =====
-- internal/menubar/config.go: `orderSelectionsByProvidersOrder` sorts, and leaves sorted selections
-- as they are.
use loomwatch.Prelude.{
  ℕ, suc, ◌≡◌, ◌∙◌, refl, ap, String, true, false, ◌||◌, Option, none, some, List, [], ◌∷◌, ◌==◌,
  nat_eq, string_eq, length, arith,
}
use loomwatch.Menubar.Settings.{
  StatusDisplaySelection, contains, rank_of, ranks_before, before, insert, sort_stable,
  order_selections,
}
use loomwatch.Menubar.Settings.Lists.{key_of, keys, IsTrimmed, IsDistinct}

ranks_asym : (a b : Option ℕ) → ranks_before a b ≡ true → ranks_before b a ≡ false
ranks_asym (some i) (some j) h = ground arith
ranks_asym (some i) none h = refl
ranks_asym none b h = absurd (ground arith)

module _ (order : List String) where
  -- No selection must precede the one before it.
  abbrev pub IsOrdered : List StatusDisplaySelection → Type 0
  IsOrdered [] = Unit {0}
  IsOrdered (s ∷ []) = Unit {0}
  IsOrdered (s ∷ t ∷ ts) = (before order t s ≡ false) × IsOrdered (t ∷ ts)

  insert-IsOrdered :
      (s : StatusDisplaySelection) (ts : List StatusDisplaySelection)
      → IsOrdered ts
      → IsOrdered (insert order s ts)
  unfolding insert
  insert-IsOrdered s [] h = tt
  insert-IsOrdered s (t ∷ []) h =
      ground (arith, ranks_asym (rank_of 0 order t.provider_id) (rank_of 0 order s.provider_id))
  insert-IsOrdered s (t ∷ u ∷ us) h = ground (
    arith,
    ranks_asym (rank_of 0 order t.provider_id) (rank_of 0 order s.provider_id),
    ranks_asym (rank_of 0 order u.provider_id) (rank_of 0 order s.provider_id),
    insert-IsOrdered s (u ∷ us),
  )

  pub sort_stable-IsOrdered : (ss : List StatusDisplaySelection) → IsOrdered (sort_stable order ss)
  unfolding sort_stable
  sort_stable-IsOrdered [] = tt
  sort_stable-IsOrdered (s ∷ ss) =
      insert-IsOrdered s (sort_stable order ss) (sort_stable-IsOrdered ss)

  insert_front :
      (s t : StatusDisplaySelection) (ts : List StatusDisplaySelection)
      → before order t s ≡ false
      → insert order s (t ∷ ts) ≡ s ∷ t ∷ ts
  unfolding insert
  insert_front s t ts h = rw h refl

  pub sort_stable-ordered :
      (ss : List StatusDisplaySelection) → IsOrdered ss → sort_stable order ss ≡ ss
  unfolding sort_stable
  sort_stable-ordered [] h = refl
  sort_stable-ordered (s ∷ []) h = refl
  sort_stable-ordered (s ∷ t ∷ ts) h =
      ap (λ xs. insert order s xs) (sort_stable-ordered (t ∷ ts) h.1) ∙ insert_front s t ts h.0

  insert-keys :
      (k : String) (s : StatusDisplaySelection) (ts : List StatusDisplaySelection)
      → contains k (keys (insert order s ts)) ≡ contains k (key_of s ∷ keys ts)
  unfolding insert
  insert-keys k s [] = refl
  insert-keys k s (t ∷ ts) = ground (arith, insert-keys k s ts)

  insert-IsDistinct :
      (s : StatusDisplaySelection) (ts : List StatusDisplaySelection)
      → IsTrimmed s
      → contains (key_of s) (keys ts) ≡ false
      → IsDistinct ts
      → IsDistinct (insert order s ts) × (length (insert order s ts) ≡ suc (length ts))
  unfolding insert
  insert-IsDistinct s [] t h d = ((t, h, tt), refl)
  insert-IsDistinct s (u ∷ us) t h d = ground (
    arith,
    insert-keys (key_of u) s us,
    string_eq.matches_iff (key_of s) (key_of u),
    string_eq.matches_iff (key_of u) (key_of s),
    insert-IsDistinct s us,
  )

  -- Sorting keeps the selections and their number.
  sort_stable-keys :
      (k : String) (ss : List StatusDisplaySelection)
      → contains k (keys (sort_stable order ss)) ≡ contains k (keys ss)
  unfolding sort_stable
  sort_stable-keys k [] = refl
  sort_stable-keys k (s ∷ ss) =
      insert-keys k s (sort_stable order ss) ∙ ap (λ b. k == key_of s || b) (sort_stable-keys k ss)

  sort_stable-IsDistinct :
      (ss : List StatusDisplaySelection)
      → IsDistinct ss
      → IsDistinct (sort_stable order ss) × (length (sort_stable order ss) ≡ length ss)
  unfolding sort_stable
  sort_stable-IsDistinct [] d = (tt, refl)
  sort_stable-IsDistinct (s ∷ ss) d = ground (
    arith,
    sort_stable-keys (key_of s) ss,
    sort_stable-IsDistinct ss,
    insert-IsDistinct s (sort_stable order ss),
  )

  pub order_selections-IsDistinct :
      (ss : List StatusDisplaySelection)
      → IsDistinct ss
      → IsDistinct (order_selections ss order) × (length (order_selections ss order) ≡ length ss)
  unfolding order_selections
  order_selections-IsDistinct ss d = ground (arith, sort_stable-IsDistinct ss d)

  -- Ordering a second time changes nothing.
  pub order_selections_idem :
      (ss : List StatusDisplaySelection)
      → IsDistinct ss
      → order_selections (order_selections ss order) order ≡ order_selections ss order
  unfolding order_selections
  order_selections_idem ss d = ground (
    arith,
    sort_stable-IsDistinct ss d,
    sort_stable-ordered (sort_stable order ss) (sort_stable-IsOrdered ss),
  )
