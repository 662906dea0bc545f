-- ===== src/Daemon.antt =====
-- internal/daemon: the lifecycle of the daemon process.
pub mod State
pub mod Watcher
pub mod Config
pub mod PidLock
pub mod Lifecycle
pub mod Health
