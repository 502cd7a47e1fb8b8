-- ===== src/Notify/Tests.antt =====
-- The notification engine on concrete statuses, and its theorems there.
use loomwatch.Prelude.{
  arith, some, ℕ, ◌<◌, ◌≡◌, refl, String, Bool, true, false, not, none, [], ◌∷◌, string_eq, keep_if,
  trim_space, to_lower,
}
use loomwatch.Store.NotificationLog.{NotificationRow, is_about}
use loomwatch.Notify.Settings.{
  QuotaStatus, ThresholdOverride, NotificationSettingsJson, default_config,
  normalize_notification_provider, notification_quota_key, reload, resolve, reaches, alert_for,
  find_override,
}
use loomwatch.Notify.Overrides.{or_else, latest, is_own, is_shared, ArePlain, find_override-reload}
use loomwatch.Notify.Engine.{NotificationEngine, check}
use loomwatch.Notify.Once.{tries, entry, is_logged, check_all, check_all_once}
use loomwatch.Notify.Alerts.{IsOther, check_sends, check_resets}

abbrev row : String → NotificationRow
row key = record {
  provider = "codex";
  quota_key = key;
  notification_type = "critical";
  sent_at = 5;
  utilization = 96_000;
}

-- One alert of the second account is in the log.
abbrev engine : NotificationEngine
engine = record {
  cfg = default_config;
  mailer = true;
  push_sender = false;
  db = record { log = row "2:five_hour" ∷ []; subscriptions = []; calls = 0; fails = λ n. false };
  transport = record { sends = 0; delivers = λ n. true; says_gone = λ n. false; attempts = [] };
}

abbrev status : String → ℕ → Bool → QuotaStatus
status account util reset = record {
  provider = " Codex";
  quota_key = "five_hour";
  account_id = account;
  utilization = util;
  limit = 0;
  reset_occurred = reset;
}

normalized_codex : normalize_notification_provider " Codex" ≡ "codex"
unfolding normalize_notification_provider trim_space to_lower
normalized_codex = refl

-- A reset is reported without an account, so that the second account's alert stays in the log.
check_all_once_example :
    (tries "codex" "2:five_hour" "critical"
        (check_all ((status "" 0 true, 6) ∷ (status "2" 99_000 false, 7) ∷ []) engine)
      ≡ 0)
    × (is_logged "codex" "2:five_hour" "critical"
          (check_all ((status "" 0 true, 6) ∷ (status "2" 99_000 false, 7) ∷ []) engine)
        ≡ true)
unfolding notification_quota_key normalize_notification_provider trim_space to_lower
check_all_once_example =
    check_all_once "codex" "2:five_hour" "critical"
      ((status "" 0 true, 6) ∷ (status "2" 99_000 false, 7) ∷ []) engine refl (refl, (refl, tt))

check_sends_example :
    (tries (normalize_notification_provider " Codex") "five_hour" "critical" engine
      < tries
          (normalize_notification_provider " Codex")
          "five_hour"
          "critical"
          (check (status "1" 97_000 false) 8 engine))
    × (is_logged
          (normalize_notification_provider " Codex")
          "five_hour"
          "critical"
          (check (status "1" 97_000 false) 8 engine)
        ≡ true)
unfolding notification_quota_key alert_for resolve reaches find_override
    normalize_notification_provider trim_space to_lower
check_sends_example =
    check_sends (status "1" 97_000 false) "critical" 8 engine refl refl refl refl (λ n. refl) refl
      refl

-- The default account resets; the alert of the second one stays.
check_resets_example :
    ((kind : String)
      → entry
          (normalize_notification_provider " Codex")
          "five_hour"
          kind
          (check (status "1" 0 true) 9 engine)
        ≡ none)
    × (keep_if
          (λ r. not (is_about (normalize_notification_provider " Codex") "five_hour" r))
          (check (status "1" 0 true) 9 engine).db.log
        ≡ keep_if
            (λ r. not (is_about (normalize_notification_provider " Codex") "five_hour" r))
            engine.db.log)
    × ((other kind : String)
        → IsOther "1" other
        → entry
            (normalize_notification_provider " Codex")
            (notification_quota_key (status other 0 true))
            kind
            (check (status "1" 0 true) 9 engine)
          ≡ entry
              (normalize_notification_provider " Codex")
              (notification_quota_key (status other 0 true))
              kind
              engine)
unfolding notification_quota_key
check_resets_example = check_resets (status "1" 0 true) 9 engine refl refl refl refl

abbrev no_override : ThresholdOverride
no_override = record {
  warning = 0;
  critical = 0;
  is_absolute = false;
  disable_reset = false;
  disable_warning = false;
  disable_crit = false;
}

abbrev saved : NotificationSettingsJson
saved = record {
  warning_threshold = 70_000;
  critical_threshold = 0;
  notify_types = default_config.types;
  cooldown_minutes = 0;
  channels = none;
  overrides =
      (record { quota_key = "five_hour"; provider = ""; override = no_override })
      ∷ (record {
        quota_key = " five_hour ";
        provider = "Codex";
        override = record no_override { critical = 90_000 };
      })
      ∷ [];
}

plain : ArePlain saved.overrides
unfolding normalize_notification_provider trim_space to_lower
plain = ground arith

find_override-reload_example :
    find_override (reload (some saved) default_config) (status "" 0 false)
    ≡ or_else
        (latest (is_own (status "" 0 false)) saved.overrides)
        (latest (is_shared (status "" 0 false)) saved.overrides)
unfolding normalize_notification_provider trim_space to_lower
find_override-reload_example =
    find_override-reload saved default_config (status "" 0 false) (ground arith) (ground arith)
      plain

-- The override of the provider goes before the one of the quota alone.
own_found :
    or_else
      (latest (is_own (status "" 0 false)) saved.overrides)
      (latest (is_shared (status "" 0 false)) saved.overrides)
    ≡ some (record no_override { critical = 90_000 })
unfolding normalize_notification_provider trim_space to_lower
own_found = refl
