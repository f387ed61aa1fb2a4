-- ===== src/Tests.antt =====
-- Runs at fixed inputs, and the theorems at concrete inputs.
pub mod Wire
pub mod Mdns
pub mod Lifecycle
pub mod Cli
pub mod Client
pub mod Server
pub mod Format
pub mod Gui
pub mod Network
