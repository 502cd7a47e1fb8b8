-- ===== src/Notify/Settings.antt =====
-- The settings of internal/notify/notify.go: keys, thresholds and how `Reload` reads them.
-- Percentages (float64 in the code) are in thousandths of a percent, limits and absolute
-- thresholds in any fixed unit. A threshold is a fraction, so that dividing by a limit is exact.
use Prim.Native.String.{◌++◌ as str_append}
use loomwatch.Prelude.{
  ℕ, ◌*◌, String, Bool, true, false, not, ◌&&◌, Option, none, some, List, [], ◌∷◌, ◌==◌, string_eq,
  ltb, leb, if◌then◌else◌, trim_space, to_lower,
}
use loomwatch.Prelude.Dict.{Dict, lookup, insert}
use loomwatch.Tracker.Clock.{minute}

pub record NotificationChannels : Type 0 where
  pub email : Bool
  pub push : Bool

pub record ThresholdOverride : Type 0 where
  pub warning : ℕ
  pub critical : ℕ
  pub is_absolute : Bool
  pub disable_reset : Bool
  pub disable_warning : Bool
  pub disable_crit : Bool

pub record NotificationTypes : Type 0 where
  pub warning : Bool
  pub critical : Bool
  pub reset : Bool
  pub auth_error : Bool

pub record NotificationConfig : Type 0 where
  pub warning : ℕ
  pub critical : ℕ
  pub overrides : Dict String ThresholdOverride
  pub cooldown : ℕ
  pub types : NotificationTypes
  pub channels : NotificationChannels

pub record QuotaStatus : Type 0 where
  pub provider : String
  pub quota_key : String
  pub account_id : String
  pub utilization : ℕ
  pub limit : ℕ
  pub reset_occurred : Bool

-- The configuration of `New`.
abbrev pub default_config : NotificationConfig
default_config = record {
  warning = 80_000;
  critical = 95_000;
  overrides = [];
  cooldown = 30 * minute;
  types = record { warning = true; critical = true; reset = false; auth_error = false };
  channels = record { email = true; push = true };
}

-- `normalizeNotificationProvider`
unfoldable pub normalize_notification_provider : String → String
normalize_notification_provider provider =
    let p = to_lower (trim_space provider) in if p == "" then "legacy" else p

-- `notificationOverrideKey`
unfoldable pub notification_override_key : String → String → String
notification_override_key provider quota_key =
    str_append (normalize_notification_provider provider) (str_append ":" (trim_space quota_key))

-- `notificationQuotaKey`
unfoldable pub notification_quota_key : QuotaStatus → String
notification_quota_key status =
    if not (status.account_id == "") && not (status.account_id == "1")
    then str_append status.account_id (str_append ":" status.quota_key)
    else status.quota_key

-- An entry of `notificationSettingsJSON.Overrides`.
pub record OverrideJson : Type 0 where
  pub quota_key : String
  pub provider : String
  pub override : ThresholdOverride

-- `notificationSettingsJSON`
pub record NotificationSettingsJson : Type 0 where
  pub warning_threshold : ℕ
  pub critical_threshold : ℕ
  pub notify_types : NotificationTypes
  pub cooldown_minutes : ℕ
  pub channels : Option NotificationChannels
  pub overrides : List OverrideJson

-- The key that `Reload` stores an override under, if it does.
unfoldable pub stored_key : OverrideJson → Option String
stored_key o =
    let key = trim_space o.quota_key in
    let provider = normalize_notification_provider o.provider in
    if key == ""
    then none
    else if not (provider == "legacy")
    then some (notification_override_key provider key)
    else some key

abbrev pub put_override :
    Option String
    → ThresholdOverride
    → Dict String ThresholdOverride
    → Dict String ThresholdOverride
put_override none o m = m
put_override (some key) o m = insert key o m

-- The loop of `Reload`.
unfoldable pub load_overrides :
    List OverrideJson → Dict String ThresholdOverride → Dict String ThresholdOverride
load_overrides [] m = m
load_overrides (o ∷ os) m = load_overrides os (put_override (stored_key o) o.override m)

-- `Reload`, from what the settings table and `json.Unmarshal` give: `none` if nothing is saved or it
-- cannot be read.
unfoldable pub reload : Option NotificationSettingsJson → NotificationConfig → NotificationConfig
reload none cfg = cfg
reload (some notif) cfg = record cfg {
  warning = if ltb 0 notif.warning_threshold then notif.warning_threshold else cfg.warning;
  critical = if ltb 0 notif.critical_threshold then notif.critical_threshold else cfg.critical;
  cooldown = if ltb 0 notif.cooldown_minutes then notif.cooldown_minutes * minute else cfg.cooldown;
  types = notif.notify_types;
  overrides = load_overrides notif.overrides [];
  channels = elim notif.channels [
    | none ↦ record { email = true; push = true }
    | some channels ↦ channels
  ];
}

-- The override that `Check` finds: by provider and quota, else by quota alone.
unfoldable pub find_override : NotificationConfig → QuotaStatus → Option ThresholdOverride
find_override cfg status =
    let provider = normalize_notification_provider status.provider in
    elim (lookup (notification_override_key provider status.quota_key) cfg.overrides) [
      | none ↦ lookup status.quota_key cfg.overrides
      | some override ↦ some override
    ]

-- A threshold in thousandths of a percent.
pub record Threshold : Type 0 where
  pub num : ℕ
  pub den : ℕ

abbrev pub percent : ℕ → Threshold
percent w = record { num = w; den = 1 }

-- `(w / limit) * 100`
abbrev pub share_of : ℕ → ℕ → Threshold
share_of limit w = record { num = w * 100 * 1000; den = limit }

-- One threshold, from the global one and the override's.
unfoldable pub resolve : ℕ → (ThresholdOverride → ℕ) → Option ThresholdOverride → ℕ → Threshold
resolve global field none limit = percent global
resolve global field (some o) limit =
    if o.is_absolute && ltb 0 limit
    then if ltb 0 (field o) then share_of limit (field o) else percent global
    else if ltb 0 (field o)
    then percent (field o)
    else percent global

-- `status.Utilization >= threshold`
unfoldable pub reaches : ℕ → Threshold → Bool
reaches utilization t = leb t.num (utilization * t.den)

-- `hasOverride && override.…`
abbrev pub disabled : (ThresholdOverride → Bool) → Option ThresholdOverride → Bool
disabled field none = false
disabled field (some o) = field o

-- The alert that `Check` chooses when no reset occurred.
unfoldable pub alert_for :
    NotificationConfig → Option ThresholdOverride → QuotaStatus → Option String
alert_for cfg override status =
    let critical_threshold = resolve cfg.critical (λ o. o.critical) override status.limit in
    let warning_threshold = resolve cfg.warning (λ o. o.warning) override status.limit in
    if reaches status.utilization critical_threshold
      && cfg.types.critical
      && not (disabled (λ o. o.disable_crit) override)
    then some "critical"
    else if reaches status.utilization warning_threshold
        && cfg.types.warning
        && not (disabled (λ o. o.disable_warning) override)
    then some "warning"
    else none
