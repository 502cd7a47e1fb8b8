-- ===== src/Agent/AnthropicAgent/Statusline.antt =====
-- internal/agent/anthropic_statusline.go: the check and the conversion of the rate limits that
-- Claude Code's status line leaves in a file. Percentages are in thousandths of a percent.
use loomwatch.Prelude.{
  ℕ, ◌+◌, ◌*◌, Bool, true, false, not, ◌&&◌, ◌||◌, Option, none, some, List, [], ◌∷◌, ◌++◌,
  if◌then◌else◌, String, ◌==◌, nat_eq,
}
use loomwatch.Prelude.Int.{ℤ, pos, negsuc, ltb_ℤ}
use loomwatch.Tracker.Anthropic.{AnthropicQuota, AnthropicSnapshot}

pub record StatuslineWindow : Type 0 where
  pub used_percentage : ℤ
  pub resets_at : ℤ

pub record StatuslineRateLimits : Type 0 where
  pub five_hour : Option StatuslineWindow
  pub seven_day : Option StatuslineWindow

abbrev pub is_zero : ℤ → Bool
is_zero n = not (ltb_ℤ n (pos 0)) && not (ltb_ℤ (pos 0) n)

-- `isValidStatuslineWindow`, of a window that is there.
unfoldable pub is_valid_statusline_window : StatuslineWindow → Bool
is_valid_statusline_window w =
    if ltb_ℤ w.used_percentage (pos 0) || ltb_ℤ (pos 100_000) w.used_percentage
    then false
    else if not (is_zero w.resets_at)
    then not (ltb_ℤ w.resets_at (pos 1_704_067_200) || ltb_ℤ (pos 1_893_456_000) w.resets_at)
    else true

-- A window that is missing does not make the data invalid.
abbrev window_passes : Option StatuslineWindow → Bool
window_passes none = true
window_passes (some w) = is_valid_statusline_window w

abbrev is_there : Option StatuslineWindow → Bool
is_there none = false
is_there (some _) = true

-- `isValidStatuslineData`; nil is `none`.
unfoldable pub is_valid_statusline_data : Option StatuslineRateLimits → Bool
unfolding is_valid_statusline_window
is_valid_statusline_data none = false
is_valid_statusline_data (some rl) =
    if not (window_passes rl.five_hour)
    then false
    else if not (window_passes rl.seven_day)
    then false
    else is_there rl.five_hour || is_there rl.seven_day

-- A percentage that passed the check is not negative.
abbrev to_utilization : ℤ → ℕ
to_utilization (pos n) = n
to_utilization (negsuc _) = 0

-- `time.Unix(n, 0)`, where n is positive.
abbrev to_reset_time : ℤ → Option ℕ
to_reset_time (pos n) = if n == 0 then none else some ((n + 62_135_596_800) * 1_000_000_000)
to_reset_time (negsuc _) = none

abbrev window_quota : String → Option StatuslineWindow → List AnthropicQuota
window_quota name none = []
window_quota name (some w) =
    record {
      name = name;
      utilization = to_utilization w.used_percentage;
      resets_at = to_reset_time w.resets_at;
    }
    ∷ []

-- `statuslineToSnapshot`, less the raw JSON.
unfoldable pub statusline_to_snapshot : StatuslineRateLimits → ℕ → AnthropicSnapshot
statusline_to_snapshot rl captured_at = record {
  captured_at = captured_at;
  quotas = window_quota "five_hour" rl.five_hour ++ window_quota "seven_day" rl.seven_day;
}
