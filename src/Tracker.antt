-- ===== src/Tracker.antt =====
-- The trackers (internal/tracker): reset detection and usage accounting over the cycle tables.
pub mod Clock
pub mod Synthetic
pub mod Anthropic
pub mod Codex
pub mod Accounts
pub mod Grok
pub mod Kimi
pub mod Zai
pub mod Minimax
