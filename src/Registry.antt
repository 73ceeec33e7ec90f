-- ===== src/Registry.antt =====
-- sandbox_manager/registry.py: the SQLite routing registry, with the tables of
-- sandbox_manager/migrations/001_initial.sql.
pub mod Tables
pub mod Sandboxes
pub mod Sessions
pub mod Deletions
pub mod Validity
pub mod Upserts
pub mod Batches
pub mod Spared
pub mod Bindings
pub mod Reconcile
mod Samples
