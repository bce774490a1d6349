-- ===== src/Host.antt =====
-- The host, `ZygiskAIRuntime/ai_analyzer/host`: the tool surfaces and the registration.
pub mod Surfaces
pub mod Registry
pub mod RuntimeBridge
pub mod ErrorMapping
pub mod Adb
