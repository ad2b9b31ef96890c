-- ===== src/Api.antt =====
-- internal/master/api: the HTTP handlers and the websocket.
pub mod State
pub mod Checks
pub mod Placement
pub mod Create
pub mod Lifecycle
pub mod Requests
pub mod Failures
pub mod Reserved
pub mod Granted
pub mod Rollback
pub mod Actions
pub mod Kept
pub mod Served
pub mod Reads
pub mod Names
pub mod Websocket
