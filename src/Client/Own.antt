-- ===== src/Client/Own.antt =====
-- client/core/ownDevice.go and client/core/otm/client.go: the transfer of a device's ownership.
pub mod Requests
pub mod Monad
pub mod Credentials
pub mod Transfer
pub mod Trace
pub mod Steps
pub mod Script
pub mod Success
mod Examples
