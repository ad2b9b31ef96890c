-- ===== src/AgentMgr.antt =====
-- internal/master/agentmgr: the agents that are connected, and what their messages do to the store.
pub mod Messages
pub mod State
pub mod Register
pub mod Reports
pub mod Handlers
pub mod Disconnect
pub mod Soundness
pub mod Connected
pub mod Connecting
pub mod Handled
pub mod Steps
pub mod Identity
pub mod Confined
pub mod Lifecycle
pub mod Reverting
pub mod Sessions
