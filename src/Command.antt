-- ===== src/Command.antt =====
-- cmd: what the commands do behind their flags.
pub mod Paths
pub mod Setup
pub mod Configure
pub mod Flags
pub mod Daemon
