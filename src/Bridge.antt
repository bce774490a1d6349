-- ===== src/Bridge.antt =====
-- The client side of the link, `ZygiskAIRuntime/ai_analyzer/bridge`: sessions, end points and the
-- client.
pub mod Session
pub mod Transport
pub mod Client
pub mod Handshake
pub mod Calls
pub mod Jobs
pub mod Heartbeat
pub mod Connect
pub mod Lifecycle
