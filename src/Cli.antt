-- ===== src/Cli.antt =====
-- The command line of src/main.cpp.
pub mod Flags
pub mod Port
pub mod Commands
pub mod Console
