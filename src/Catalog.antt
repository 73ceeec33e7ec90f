-- ===== src/Catalog.antt =====
-- The catalog: catalog_service/main.py and catalog_service/src/management.py.
pub mod Replies
pub mod Documents
pub mod Edits
pub mod Names
pub mod Agents
pub mod Secrets
pub mod Files
pub mod Models
pub mod Templates
pub mod Releases
pub mod Lifecycles
pub mod Bindings
pub mod Validation
pub mod Drafts
pub mod Calls
pub mod Effects
pub mod Numbering
pub mod Commits
pub mod Recommits
pub mod Serving
pub mod Retired
pub mod Deletion
pub mod Revisions
mod Samples
pub mod Hooks
pub mod Resources
