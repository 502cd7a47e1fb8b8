-- ===== src/Menubar/Settings/Tests.antt =====
-- Witnesses of the theorems on the preferences of the tray companion.
use loomwatch.Prelude.{◌≡◌, true, some, [], ◌∷◌, String}
use loomwatch.Prelude.Int.{pos, negsuc}
use loomwatch.Menubar.Settings.{StatusDisplaySelection, Settings, normalize, normalize_settings}
use loomwatch.Menubar.Settings.Idempotent.{IsValid, normalize-IsValid, normalize_idem}

abbrev choice : String → StatusDisplaySelection
choice p = record { provider_id = p; quota_key = "five_hour" }

abbrev stored : Settings
stored = record {
  enabled = true;
  default_view = "huge";
  refresh_seconds = negsuc 4;
  providers_order = " codex " ∷ "anthropic" ∷ "codex" ∷ "" ∷ [];
  visible_providers = [];
  warning_percent = pos 95;
  critical_percent = pos 95;
  status_display = record {
    mode = "provider_specific";
    selected_quotas = choice "anthropic" ∷ choice "zai" ∷ choice "codex" ∷ choice "kimi" ∷ [];
    provider_id = "zai";
    quota_key = "";
  };
  theme = "dark";
}

normalize-IsValid_example : IsValid (normalize_settings (some stored))
normalize-IsValid_example = normalize-IsValid (some stored)

normalize_idem_example : normalize (normalize stored) ≡ normalize stored
normalize_idem_example = normalize_idem stored
