-- ===== src/Mock.antt =====
-- The runtime that stands in for a device, `ZygiskAIRuntime/ai_analyzer/mock`.
pub mod Device
pub mod State
pub mod Initial
pub mod Commands
pub mod Queries
pub mod Hooking
pub mod Server
pub mod Serving
