-- ===== src/Runtime.antt =====
-- The container runtimes: internal/runtime, which enables CDI in a runtime's configuration, takes
-- the change back, judges whether CDI is ready, and finds out which runtime is installed.
pub mod Disk
pub mod Document
pub mod SpecDir
pub mod Backup
pub mod Version
pub mod Detect
pub mod Containerd
pub mod Crio
pub mod Docker
pub mod Configurator
