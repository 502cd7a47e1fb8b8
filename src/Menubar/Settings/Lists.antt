-- ===== src/Menubar/Settings/Lists.antt =====
-- internal/menubar/config.go: the lists that `normalizedStringList` and `normalizeStatusSelections`
-- return, and that they return such lists unchanged.
use loomwatch.Prelude.{
  ℕ, ◌-◌, ◌≤◌, ◌≡◌, ◌≢◌, refl, String, false, List, [], ◌∷◌, nat_eq, string_eq, length, trim_space,
  trim_space_idem, arith,
}
use loomwatch.Menubar.Settings.{
  StatusDisplaySelection, contains, collect_texts, selection_key, collect_selections,
}

-- Trimmed texts, none of them empty, none twice and none among those seen.
abbrev pub IsClean : List String → List String → Type 0
IsClean seen [] = Unit {0}
IsClean seen (s ∷ ss) =
    (trim_space s ≡ s) × (s ≢ "") × (contains s seen ≡ false) × IsClean (s ∷ seen) ss

pub collect_texts-IsClean : (values seen : List String) → IsClean seen (collect_texts seen values)
unfolding collect_texts
collect_texts-IsClean [] seen = tt
collect_texts-IsClean (v ∷ values) seen = ground (
  arith,
  trim_space_idem v,
  string_eq.matches_iff (trim_space v) "",
  collect_texts-IsClean values seen,
  collect_texts-IsClean values (trim_space v ∷ seen),
)

pub collect_texts-clean : (ss seen : List String) → IsClean seen ss → collect_texts seen ss ≡ ss
unfolding collect_texts
collect_texts-clean [] seen h = refl
collect_texts-clean (s ∷ ss) seen h =
    ground (arith, string_eq.matches_iff s "", collect_texts-clean ss (s ∷ seen))

abbrev pub key_of : StatusDisplaySelection → String
key_of s = selection_key s.provider_id s.quota_key

abbrev pub keys : List StatusDisplaySelection → List String
keys [] = []
keys (s ∷ ss) = key_of s ∷ keys ss

abbrev pub IsTrimmed : StatusDisplaySelection → Type 0
IsTrimmed s =
    (trim_space s.provider_id ≡ s.provider_id)
    × (trim_space s.quota_key ≡ s.quota_key)
    × (s.provider_id ≢ "")

-- Selections of trimmed texts with a provider, none of them twice.
abbrev pub IsDistinct : List StatusDisplaySelection → Type 0
IsDistinct [] = Unit {0}
IsDistinct (s ∷ ss) = IsTrimmed s × (contains (key_of s) (keys ss) ≡ false) × IsDistinct ss

-- No selection has a key that was seen.
abbrev pub IsFresh : List String → List StatusDisplaySelection → Type 0
IsFresh seen [] = Unit {0}
IsFresh seen (s ∷ ss) = (contains (key_of s) seen ≡ false) × IsFresh seen ss

IsFresh-cons :
    (k : String) (seen : List String) (ss : List StatusDisplaySelection)
    → contains k (keys ss) ≡ false
    → IsFresh seen ss
    → IsFresh (k ∷ seen) ss
IsFresh-cons k seen [] h f = tt
IsFresh-cons k seen (s ∷ ss) h f = ground (
  arith,
  string_eq.matches_iff k (key_of s),
  string_eq.matches_iff (key_of s) k,
  IsFresh-cons k seen ss,
)

IsFresh-tail :
    (k : String) (seen : List String) (ss : List StatusDisplaySelection)
    → IsFresh (k ∷ seen) ss
    → IsFresh seen ss × (contains k (keys ss) ≡ false)
IsFresh-tail k seen [] f = (tt, refl)
IsFresh-tail k seen (s ∷ ss) f = ground (
  arith,
  string_eq.matches_iff k (key_of s),
  string_eq.matches_iff (key_of s) k,
  IsFresh-tail k seen ss,
)

pub IsFresh-none : (ss : List StatusDisplaySelection) → IsFresh [] ss
IsFresh-none [] = tt
IsFresh-none (s ∷ ss) = (refl, IsFresh-none ss)

-- What `normalizeStatusSelections` collects is distinct, is fresh, and has room.
pub collect_selections-IsDistinct :
    (values : List StatusDisplaySelection) (room : ℕ) (seen : List String)
    → IsDistinct (collect_selections room seen values)
      × IsFresh seen (collect_selections room seen values)
      × (length (collect_selections room seen values) ≤ room)
unfolding collect_selections
collect_selections-IsDistinct [] room seen = (tt, tt, omega arith)
collect_selections-IsDistinct (v ∷ values) room seen =
    let provider = trim_space v.provider_id in
    let quota = trim_space v.quota_key in
    let key = selection_key provider quota in
    ground (
      arith,
      trim_space_idem v.provider_id,
      trim_space_idem v.quota_key,
      string_eq.matches_iff provider "",
      collect_selections-IsDistinct values room seen,
      collect_selections-IsDistinct values (room - 1) (key ∷ seen),
      IsFresh-tail key seen (collect_selections (room - 1) (key ∷ seen) values),
    )

-- Distinct selections that fit are collected as they are.
pub collect_selections-distinct :
    (ss : List StatusDisplaySelection) (room : ℕ) (seen : List String)
    → IsDistinct ss
    → IsFresh seen ss
    → length ss ≤ room
    → collect_selections room seen ss ≡ ss
unfolding collect_selections
collect_selections-distinct [] room seen d f l = refl
collect_selections-distinct (s ∷ ss) room seen d f l = ground (
  arith,
  string_eq.matches_iff s.provider_id "",
  IsFresh-cons (key_of s) seen ss,
  collect_selections-distinct ss (room - 1) (key_of s ∷ seen),
)
