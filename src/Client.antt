-- ===== src/Client.antt =====
-- The packages client and client/core: owning and provisioning a device, its connections, observing its
-- resources, the devices that are known and what is found of them. The observer of online devices
-- stands in Observer.
pub mod Own
pub mod Observation
pub mod Shared
pub mod Connections
pub mod Cache
pub mod Provision
pub mod Discovery
pub mod Details
