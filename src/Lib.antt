-- ===== src/Lib.antt =====
-- Verification of loomWatch, a daemon that polls the usage quotas of AI providers, keeps them in
-- SQLite, tracks reset cycles and usage sessions, sends alerts and serves a dashboard.
--
-- Parts and how they interact. An agent (internal/agent) polls a provider and hands the snapshot to
-- a tracker (internal/tracker), which finds resets and accounts usage in a cycle table
-- (internal/store); it hands the values to a session manager and the quota's status to the
-- notification engine (internal/notify). The web front (internal/web) lets requests pass by a
-- session, a trusted proxy or credentials, and limits logins and requests.
--
-- - Store/Cycles: the reset cycle tables of internal/store/store.go, anthropic_store.go,
--   codex_store.go, zai_store.go and minimax_store.go. One model for all, with the key and the reset time as parameters: CreateCycle is
--   `create_cycle`, CloseCycle `close_cycle`, UpdateCycle `update_cycle`, QueryActiveCycle
--   `query_active_cycle`.
-- - Store/UsageSessions: the sessions table. Store/NotificationLog: the notification_log and
--   push_subscriptions tables.
-- - Tracker/Synthetic: internal/tracker/tracker.go; Process is `process`, processQuota
--   `process_quota`, its branches `start_first`, `roll_over` and `same_cycle`.
-- - Tracker/Anthropic: internal/tracker/anthropic_tracker.go, in the same way. Tracker/Clock: the
--   times and durations of Go's time package that they use.
-- - Tracker/Codex: internal/tracker/codex_tracker.go in the same way, per account, with the
--   statements of internal/store/codex_store.go.
-- - Agent/SessionManager: internal/agent/session_manager.go; ReportPoll is `report_poll`, Close
--   `close`. Its child Log has the specification: a list of sessions instead of a table.
-- - Agent/AgentManager: internal/agent/manager.go; each section under the mutex is a function, and
--   Soundness has the step relation that interleaves them with the ends of the goroutines.
-- - Agent/AnthropicAgent: internal/agent/anthropic_agent.go. Its children Statusline, Oauth, Fetch and
--   Poll are the parts of `poll`, a function for each branch; everything that the agent asks of its
--   surroundings is a `World`, which answers the n-th call, and what it does is kept in a log.
-- - Store/AccountCycles, Tracker/Grok and Tracker/Kimi: the trackers of Grok and Kimi with their
--   cycle tables, in the same way; Tracker/Accounts has the maps that both keep.
-- - Tracker/Zai: internal/tracker/zai_tracker.go with the statements of internal/store/zai_store.go,
--   in the same way. Tracker/Minimax: internal/tracker/minimax_tracker.go with
--   internal/store/minimax_store.go; the end of `process` closes the cycles of discontinued models.
-- - Notify/Base64 and Notify/Crypto: internal/notify/crypto.go, with the encodings of the standard
--   library; Encrypt is `encrypt`, Decrypt `decrypt`, EncryptForStorage `encrypt_for_storage`.
-- - Notify/Smtp: ConfigureSMTP of internal/notify/notify.go and internal/web/crypto.go, with the
--   smtp part of UpdateSettings (internal/web/handlers.go) in its child Saving.
-- - Menubar/Settings: internal/menubar/config.go; Normalize is `normalize`.
-- - Notify/Settings and Notify/Engine: internal/notify/notify.go; Reload is `reload`, Check
--   `check`, sendNotification `send_notification`.
-- - Web/Sessions: SessionStore of internal/web/middleware.go and the auth_tokens table;
--   Grants has the specification, which grants tokens until an expiry. Its child Access is the
--   session middleware with internal/web/trusted_proxy.go.
-- - Web/LoginLimiter: LoginRateLimiter of internal/web/middleware.go. Web/RateLimiter: RateLimiter
--   of internal/web/security.go.
-- - Prelude: tests, maps, results, signed numbers and texts that all of them share.
--
-- Conventions. State is passed explicitly. A Go map is an association list, read in its order where
-- the code ranges over it. A failing SQL statement is decided by a schedule that the database state
-- carries, so that each theorem covers every pattern of failures that its hypotheses allow; a
-- failed statement leaves the table as it was. The clock, random tokens, ids and nonces, bcrypt,
-- SHA-256, HKDF, AES-GCM and the net package are parameters or arguments. JSON is taken as parsed.
-- Times are nanoseconds as natural numbers; an int32 count wraps at 2^32 and durations saturate
-- where the code's do. Usage values are float64 in the code and natural numbers of a fixed unit
-- here, so rounding is not modelled. All loops are structural, so no fuel is needed.
--
-- Not modelled: HTTP clients and most handlers, SMTP and push delivery, configuration, metrics, the
-- tray and service set-up, which are input and output; read-only summaries; the trackers and the
-- agents of the other providers.
pub mod Prelude
pub mod Store
pub mod Tracker
pub mod Web
pub mod Agent
pub mod Notify
pub mod Menubar
