-- ===== src/Tests.antt =====
-- Runs of the definitions on concrete inputs, and the theorems applied to some.
mod Frames
mod Messages
mod Tables
mod Sessions
mod Runtime
mod Commands
mod Client
mod Given
mod Server
mod Calls
mod Lifecycle
mod Host
