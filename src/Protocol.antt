-- ===== src/Protocol.antt =====
-- The protocol layer, `ZygiskAIRuntime/ai_analyzer/protocol`: errors, constants, commands, frames
-- and messages.
pub mod Errors
pub mod Constants
pub mod Commands
pub mod Frame
pub mod Messages
