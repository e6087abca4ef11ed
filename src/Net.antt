-- ===== src/Net.antt =====
-- The package bridge/net: the configuration of the listeners, the servers, the endpoints that a
-- request is told, the queries of a request, and the messages that come twice.
pub mod Query
pub mod Config
pub mod Endpoints
pub mod Servers
pub mod Duplicates
mod Examples
