-- ===== src/Agent.antt =====
-- internal/agent: sessions of usage, and the manager of the running agents.
pub mod SessionManager
pub mod AgentManager
pub mod AnthropicAgent
