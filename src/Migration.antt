-- ===== src/Migration.antt =====
-- The import of backups of other panels, of agent/migration_adapters.py.
pub mod Names
pub mod Archive
pub mod Detect
pub mod Inspect
pub mod Normalize
mod Paths
pub mod Inside
pub mod Sizes
mod Tests
