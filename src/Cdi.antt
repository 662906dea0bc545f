-- ===== src/Cdi.antt =====
-- internal/cdi: the CDI specification that the toolkit generates.
pub mod Spec
pub mod Device
pub mod Entries
pub mod Fold
pub mod Edits
pub mod Generator
pub mod Writer
pub mod Validator
pub mod Setup
