-- ===== src/FileService.antt =====
-- The file service: the journal of cleanups in file_service/coordination.py, and the cleanup handlers
-- of file_service/main.py.
pub mod Journal
pub mod Cleanups
pub mod Once
pub mod Replays
mod Samples
