-- ===== src/ModelGateway.antt =====
-- The model gateway: model_gateway/src/state.py.
pub mod Releases
pub mod State
pub mod Accepted
pub mod Restart
pub mod Repeats
mod Samples
