-- ===== src/Tests.antt =====
-- Runs of the code at concrete inputs.
pub mod Data
pub mod Channels
pub mod Registry
pub mod Server
pub mod Agent
pub mod Owners
pub mod Traffic
pub mod Lifetime
pub mod Interleavings
pub mod Feed
pub mod Watcher
pub mod Startup
pub mod Rpc
pub mod Preview
pub mod Runs
