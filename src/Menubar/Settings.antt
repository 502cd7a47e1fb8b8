-- ===== src/Menubar/Settings.antt =====
-- internal/menubar/config.go: the stored preferences of the tray companion, and how `Normalize`
-- repairs them. A nil slice and an empty one are one list here, as `Normalize` makes them one.
pub mod Lists
pub mod Order
pub mod Idempotent
mod Tests
use Prim.Native.String.{◌++◌ as str_append}
use loomwatch.Prelude.{
  ℕ, zero, suc, ◌+◌, ◌-◌, String, Bool, true, false, not, ◌&&◌, ◌||◌, Option, none, some, List, [],
  ◌∷◌, ◌==◌, nat_eq, string_eq, ltb, leb, if◌then◌else◌, length, trim_space,
}
use loomwatch.Prelude.Int.{ℤ, pos, negsuc, ltb_ℤ}

-- `StatusDisplaySelection`
pub record StatusDisplaySelection : Type 0 where
  pub provider_id : String
  pub quota_key : String

-- `StatusDisplay`
pub record StatusDisplay : Type 0 where
  pub mode : String
  pub selected_quotas : List StatusDisplaySelection
  pub provider_id : String
  pub quota_key : String

-- `Settings`
pub record Settings : Type 0 where
  pub enabled : Bool
  pub default_view : String
  pub refresh_seconds : ℤ
  pub providers_order : List String
  pub visible_providers : List String
  pub warning_percent : ℤ
  pub critical_percent : ℤ
  pub status_display : StatusDisplay
  pub theme : String

-- `DefaultSettings`
abbrev pub default_settings : Settings
default_settings = record {
  enabled = true;
  default_view = "standard";
  refresh_seconds = pos 60;
  providers_order = [];
  visible_providers = [];
  warning_percent = pos 70;
  critical_percent = pos 90;
  status_display = record {
    mode = "multi_provider";
    selected_quotas = [];
    provider_id = "";
    quota_key = "";
  };
  theme = "system";
}

-- A test of the map `seen`.
abbrev pub contains : String → List String → Bool
contains k [] = false
contains k (s ∷ seen) = k == s || contains k seen

-- The loop of `normalizedStringList`, with the texts seen so far.
unfoldable pub collect_texts : List String → List String → List String
collect_texts seen [] = []
collect_texts seen (value ∷ values) =
    let trimmed = trim_space value in
    let keep = not (trimmed == "") && not (contains trimmed seen) in
    let rest = collect_texts (if keep then trimmed ∷ seen else seen) values in
    if keep then trimmed ∷ rest else rest

-- `normalizedStringList`
abbrev pub normalized_string_list : List String → List String
normalized_string_list values = collect_texts [] values

-- The key of a selection in the map `seen`.
abbrev pub selection_key : String → String → String
selection_key provider quota = str_append provider (str_append "\0" quota)

-- The loop of `normalizeStatusSelections`, with the room that is left of three.
unfoldable pub collect_selections :
    ℕ → List String → List StatusDisplaySelection → List StatusDisplaySelection
collect_selections room seen [] = []
collect_selections room seen (value ∷ values) =
    let provider = trim_space value.provider_id in
    let quota = trim_space value.quota_key in
    let key = selection_key provider quota in
    let keep = not (provider == "") && not (contains key seen) in
    let rest =
      collect_selections (if keep then room - 1 else room) (if keep then key ∷ seen else seen)
        values in
    if room == 0
    then []
    else if keep
    then (record { provider_id = provider; quota_key = quota }) ∷ rest
    else rest

-- `normalizeStatusSelections`
abbrev pub normalize_status_selections : List StatusDisplaySelection → List StatusDisplaySelection
normalize_status_selections values = collect_selections 3 [] values

-- The mode that `normalize` of a display ends with.
abbrev pub normalized_mode : String → String → String
normalized_mode fallback mode =
    if mode == "multi_provider" || mode == "critical_count" || mode == "icon_only"
    then mode
    else if mode == "provider_specific"
    then "multi_provider"
    else fallback

-- The selections, or the one of the fields that an older version stored.
abbrev pub with_legacy : List StatusDisplaySelection → String → String → List StatusDisplaySelection
with_legacy [] provider quota =
    if not (provider == "") then (record { provider_id = provider; quota_key = quota }) ∷ [] else []
with_legacy (s ∷ selections) provider quota = s ∷ selections

-- `StatusDisplay.normalize`
unfoldable pub normalize_display : StatusDisplay → StatusDisplay → StatusDisplay
normalize_display s fallback =
    let selected =
      with_legacy (normalize_status_selections s.selected_quotas) (trim_space s.provider_id)
        (trim_space s.quota_key) in
    let mode = normalized_mode fallback.mode s.mode in
    record {
      mode = mode;
      selected_quotas = if not (mode == "multi_provider") then [] else selected;
      provider_id = "";
      quota_key = "";
    }

-- The map `rank`: the index of the first entry that is this text.
unfoldable pub rank_of : ℕ → List String → String → Option ℕ
rank_of i [] provider = none
rank_of i (id ∷ order) provider =
    let trimmed = trim_space id in
    if not (trimmed == "") && trimmed == provider then some i else rank_of (suc i) order provider

-- The comparison that the selections are sorted by.
abbrev pub ranks_before : Option ℕ → Option ℕ → Bool
ranks_before (some i) (some j) = ltb i j
ranks_before (some i) none = true
ranks_before none j = false

module _ (order : List String) where
  abbrev pub before : StatusDisplaySelection → StatusDisplaySelection → Bool
  before a b = ranks_before (rank_of 0 order a.provider_id) (rank_of 0 order b.provider_id)

  -- Inserts before the first selection that it must precede.
  unfoldable pub insert :
      StatusDisplaySelection → List StatusDisplaySelection → List StatusDisplaySelection
  insert s [] = s ∷ []
  insert s (t ∷ ts) = if before t s then t ∷ insert s ts else s ∷ t ∷ ts

  -- `sort.SliceStable` by this comparison.
  unfoldable pub sort_stable : List StatusDisplaySelection → List StatusDisplaySelection
  unfolding insert
  sort_stable [] = []
  sort_stable (s ∷ ss) = insert s (sort_stable ss)

-- Whether the map `rank` has an entry.
abbrev pub has_ranks : List String → Bool
has_ranks [] = false
has_ranks (id ∷ order) = not (trim_space id == "") || has_ranks order

-- `orderSelectionsByProvidersOrder`
unfoldable pub order_selections :
    List StatusDisplaySelection → List String → List StatusDisplaySelection
unfolding sort_stable
order_selections selections order =
    if leb (length selections) 1 || length order == 0
    then selections
    else if not (has_ranks order)
    then selections
    else sort_stable order selections

abbrev within : ℤ → ℤ → ℤ → Bool
within lo hi n = not (ltb_ℤ n lo || ltb_ℤ hi n)

-- The thresholds that `Normalize` ends with: each in its range, and the warning the lower one.
abbrev pub normalized_percents : ℤ → ℤ → ℤ × ℤ
normalized_percents warning critical =
    let w = if within (pos 1) (pos 99) warning then warning else pos 70 in
    let c = if within (pos 1) (pos 100) critical then critical else pos 90 in
    if not (ltb_ℤ w c) then (pos 70, pos 90) else (w, c)

abbrev pub normalized_view : String → String
normalized_view v = if v == "minimal" || v == "standard" || v == "detailed" then v else "standard"

abbrev pub normalized_theme : String → String
normalized_theme t = if t == "system" || t == "light" || t == "dark" then t else "system"

abbrev pub ordered_display : StatusDisplay → List String → StatusDisplay
ordered_display d order =
    if d.mode == "multi_provider"
    then record d { selected_quotas = order_selections d.selected_quotas order }
    else d

-- `Normalize`, of settings that are there.
unfoldable pub normalize : Settings → Settings
unfolding normalize_display order_selections collect_texts
normalize s =
    let percents = normalized_percents s.warning_percent s.critical_percent in
    let order = normalized_string_list s.providers_order in
    let display = normalize_display s.status_display default_settings.status_display in
    record {
      enabled = s.enabled;
      default_view = normalized_view s.default_view;
      refresh_seconds = if ltb_ℤ s.refresh_seconds (pos 10) then pos 60 else s.refresh_seconds;
      providers_order = order;
      visible_providers = normalized_string_list s.visible_providers;
      warning_percent = percents.0;
      critical_percent = percents.1;
      status_display = ordered_display display order;
      theme = normalized_theme s.theme;
    }

-- `Normalize`; nil is `none`.
abbrev pub normalize_settings : Option Settings → Settings
normalize_settings none = default_settings
normalize_settings (some s) = normalize s
