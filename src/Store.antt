-- ===== src/Store.antt =====
-- The tables of the SQLite store (internal/store) that the trackers and agents write.
pub mod Cycles
pub mod AccountCycles
pub mod UsageSessions
pub mod NotificationLog
