-- ===== src/Cloud.antt =====
-- The package bridge/device/cloud: the manager that registers the device with the plgd cloud.
pub mod State
pub mod Monad
pub mod Session
pub mod Publish
pub mod Requests
pub mod Connect
pub mod Hoare
pub mod Ready
pub mod Invariant
pub mod Keeps
pub mod History
pub mod Online
pub mod Outcome
pub mod Batches
pub mod Renewal
pub mod Persist
mod Examples
