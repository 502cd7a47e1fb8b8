-- ===== src/Notify.antt =====
-- internal/notify/notify.go: alerts about quotas that pass a threshold, and about resets.
pub mod Settings
pub mod Engine
pub mod Overrides
pub mod Once
pub mod Alerts
pub mod Base64
pub mod Crypto
pub mod Smtp
mod Tests
