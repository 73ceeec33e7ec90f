-- ===== src/Operations.antt =====
-- The operations service: operations/src/store.py, operations/main.py, operations/src/recovery.py
-- and operations/src/load_test_store.py.
pub mod LoadTables
pub mod Database
pub mod Jobs
pub mod LoadTests
pub mod Workflow
pub mod Recovery
pub mod RecoveryPolicy
pub mod Admission
pub mod Reconcile
