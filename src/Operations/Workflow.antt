-- ===== src/Operations/Workflow.antt =====
-- The durable job of operations/main.py: `Workflows.run`, over an environment that answers each call
-- to another service, may land a cancel request while the call is awaited, and may stop the worker.
pub mod World
pub mod Body
pub mod Run
pub mod Keeps
pub mod Outcomes
pub mod Leaves
pub mod Calm
pub mod Returns
mod Samples
