-- ===== src/Menubar/Settings/Idempotent.antt =====
-- internal/menubar/config.go: `Normalize` returns valid settings, and leaves them alone.
use loomwatch.Prelude.{
  ◌≤◌, ◌≡◌, ◌⊎◌, inl, inr, refl, String, true, false, not, Option, none, some, List, [], ◌∷◌, ◌==◌,
  nat_eq, string_eq, length, arith, if_both, trim_space, trim_space_idem,
}
use loomwatch.Prelude.Int.{ℤ, pos, ltb_ℤ}
use loomwatch.Menubar.Settings.{
  StatusDisplaySelection, StatusDisplay, Settings, default_settings, normalized_string_list,
  normalize_status_selections, normalized_mode, with_legacy, normalize_display, normalized_percents,
  normalized_view, normalized_theme, ordered_display, normalize, normalize_settings,
}
use loomwatch.Menubar.Settings.Lists.{
  IsClean, collect_texts-IsClean, collect_texts-clean, IsDistinct, IsFresh-none,
  collect_selections-IsDistinct, collect_selections-distinct,
}
use loomwatch.Menubar.Settings.Order.{order_selections-IsDistinct, order_selections_idem}

normalized_string_list_idem :
    (ss : List String)
    → normalized_string_list (normalized_string_list ss) ≡ normalized_string_list ss
normalized_string_list_idem ss =
    collect_texts-clean (normalized_string_list ss) [] (collect_texts-IsClean ss [])

-- At most three distinct selections.
abbrev IsSelection : List StatusDisplaySelection → Type 0
IsSelection ss = IsDistinct ss × (length ss ≤ 3)

collected : (ss : List StatusDisplaySelection) → IsSelection (normalize_status_selections ss)
collected ss = let h = collect_selections-IsDistinct ss 3 [] in (h.0, h.2)

selected_kept :
    (ss : List StatusDisplaySelection) → IsSelection ss → normalize_status_selections ss ≡ ss
selected_kept ss h = collect_selections-distinct ss 3 [] h.0 (IsFresh-none ss) h.1

with_legacy-IsSelection :
    (ss : List StatusDisplaySelection) (p q : String)
    → IsSelection ss
    → IsSelection (with_legacy ss (trim_space p) (trim_space q))
with_legacy-IsSelection [] p q h =
    ground (arith, string_eq.matches_iff (trim_space p) "", trim_space_idem p, trim_space_idem q)
with_legacy-IsSelection (s ∷ ss) p q h = h

-- What `normalize` of a display returns: a known mode, no legacy field, and no selections but for
-- the one mode that shows them.
pub record IsDisplay (d : StatusDisplay) : Type 0 where
  pub known : (d.mode ≡ "multi_provider") ⊎ (d.mode ≡ "critical_count") ⊎ (d.mode ≡ "icon_only")
  pub selection : IsSelection d.selected_quotas
  pub hidden : (d.mode ≡ "multi_provider") ⊎ (d.selected_quotas ≡ [])
  pub no_provider : d.provider_id ≡ ""
  pub no_quota : d.quota_key ≡ ""

abbrev fallback : StatusDisplay
fallback = default_settings.status_display

mode_known :
    (m : String)
    → (normalized_mode "multi_provider" m ≡ "multi_provider")
      ⊎ (normalized_mode "multi_provider" m ≡ "critical_count")
      ⊎ (normalized_mode "multi_provider" m ≡ "icon_only")
mode_known m = ground (
  arith,
  string_eq.matches_iff m "multi_provider",
  string_eq.matches_iff m "critical_count",
  string_eq.matches_iff m "icon_only",
)

normalize_display-IsDisplay : (d : StatusDisplay) → IsDisplay (normalize_display d fallback)
unfolding normalize_display
normalize_display-IsDisplay d = record {
  known = mode_known d.mode;
  selection =
      if_both IsSelection (not (normalized_mode "multi_provider" d.mode == "multi_provider")) [] _
        (tt, omega arith)
        (with_legacy-IsSelection (normalize_status_selections d.selected_quotas) d.provider_id
          d.quota_key (collected d.selected_quotas));
  hidden =
      ground
        (arith, string_eq.matches_iff (normalized_mode "multi_provider" d.mode) "multi_provider");
  no_provider = refl;
  no_quota = refl;
}

with_legacy_kept : (ss : List StatusDisplaySelection) → with_legacy ss "" "" ≡ ss
with_legacy_kept [] = refl
with_legacy_kept (s ∷ ss) = refl

trim_empty : trim_space "" ≡ ""
unfolding trim_space
trim_empty = refl

mode_kept :
    (m : String)
    → (m ≡ "multi_provider") ⊎ (m ≡ "critical_count") ⊎ (m ≡ "icon_only")
    → normalized_mode "multi_provider" m ≡ m
mode_kept m (inl h) = rw h refl
mode_kept m (inr (inl h)) = rw h refl
mode_kept m (inr (inr h)) = rw h refl

display_kept : (d : StatusDisplay) → IsDisplay d → normalize_display d fallback ≡ d
unfolding normalize_display
display_kept d h = ground (
  arith,
  mode_kept d.mode h.known,
  trim_empty,
  with_legacy_kept d.selected_quotas,
  selected_kept d.selected_quotas h.selection,
  string_eq.matches_iff d.mode "multi_provider",
)

ordered_display-IsDisplay :
    (d : StatusDisplay) (order : List String) → IsDisplay d → IsDisplay (ordered_display d order)
ordered_display-IsDisplay d order h = ground (
  arith,
  string_eq.matches_iff d.mode "multi_provider",
  order_selections-IsDistinct order d.selected_quotas h.selection.0,
)

ordered_display_idem :
    (d : StatusDisplay) (order : List String)
    → IsDisplay d
    → ordered_display (ordered_display d order) order ≡ ordered_display d order
ordered_display_idem d order h =
    ground (arith, order_selections_idem order d.selected_quotas h.selection.0)

-- The thresholds are in order, the refresh interval is at least ten seconds.
pub record IsValid (s : Settings) : Type 0 where
  pub warning_low : ltb_ℤ s.warning_percent (pos 1) ≡ false
  pub warning_below : ltb_ℤ s.warning_percent s.critical_percent ≡ true
  pub critical_high : ltb_ℤ (pos 100) s.critical_percent ≡ false
  pub refresh_slow : ltb_ℤ s.refresh_seconds (pos 10) ≡ false
  pub display : IsDisplay s.status_display
  pub order : IsClean [] s.providers_order
  pub visible : IsClean [] s.visible_providers

percents_valid :
    (w c : ℤ)
    → (ltb_ℤ (normalized_percents w c).0 (pos 1) ≡ false)
      × (ltb_ℤ (normalized_percents w c).0 (normalized_percents w c).1 ≡ true)
      × (ltb_ℤ (pos 100) (normalized_percents w c).1 ≡ false)
percents_valid w c = (ground arith, ground arith, ground arith)

percents_kept :
    (w c : ℤ)
    → ltb_ℤ w (pos 1) ≡ false
    → ltb_ℤ w c ≡ true
    → ltb_ℤ (pos 100) c ≡ false
    → normalized_percents w c ≡ (w, c)
percents_kept w c low below high = ground arith

-- Settings that `Normalize` returns are valid: 1 <= warning < critical <= 100, a refresh of at least
-- ten seconds, a known mode of the display, at most three distinct selections, shown in the one
-- mode for them, no field of the older version, and lists of distinct trimmed texts.
pub normalize-IsValid : (s : Option Settings) → IsValid (normalize_settings s)
unfolding normalize
normalize-IsValid none = record {
  warning_low = refl;
  warning_below = refl;
  critical_high = refl;
  refresh_slow = refl;
  display = record {
    known = inl refl;
    selection = (tt, omega arith);
    hidden = inl refl;
    no_provider = refl;
    no_quota = refl;
  };
  order = tt;
  visible = tt;
}
normalize-IsValid (some s) =
    let p = percents_valid s.warning_percent s.critical_percent in
    record {
      warning_low = p.0;
      warning_below = p.1;
      critical_high = p.2;
      refresh_slow = ground arith;
      display =
          ordered_display-IsDisplay (normalize_display s.status_display fallback)
            (normalized_string_list s.providers_order)
            (normalize_display-IsDisplay s.status_display);
      order = collect_texts-IsClean s.providers_order [];
      visible = collect_texts-IsClean s.visible_providers [];
    }

view_kept : (v : String) → normalized_view (normalized_view v) ≡ normalized_view v
view_kept v = ground (
  arith,
  string_eq.matches_iff v "minimal",
  string_eq.matches_iff v "standard",
  string_eq.matches_iff v "detailed",
)

theme_kept : (t : String) → normalized_theme (normalized_theme t) ≡ normalized_theme t
theme_kept t = ground (
  arith,
  string_eq.matches_iff t "system",
  string_eq.matches_iff t "light",
  string_eq.matches_iff t "dark",
)

-- Normalizing a second time changes nothing.
pub normalize_idem : (s : Settings) → normalize (normalize s) ≡ normalize s
unfolding normalize
normalize_idem s =
    let p = percents_valid s.warning_percent s.critical_percent in
    let d = normalize_display s.status_display fallback in
    let order = normalized_string_list s.providers_order in
    let valid = normalize_display-IsDisplay s.status_display in
    ground (
      arith,
      view_kept s.default_view,
      theme_kept s.theme,
      normalized_string_list_idem s.providers_order,
      normalized_string_list_idem s.visible_providers,
      percents_kept (normalized_percents s.warning_percent s.critical_percent).0
          (normalized_percents s.warning_percent s.critical_percent).1 p.0 p.1 p.2,
      display_kept (ordered_display d order) (ordered_display-IsDisplay d order valid),
      ordered_display_idem d order valid,
    )
