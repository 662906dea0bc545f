-- ===== src/Tests.antt =====
-- Concrete runs of the parts, to which the theorems apply.
mod Daemon
mod Cdi
mod Discover
mod Installer
mod Ldconfig
mod Runtime
mod Setup
mod Command
mod Hook
mod Config
