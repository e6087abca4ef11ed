-- ===== src/Schema.antt =====
-- The package schema: resource links and what the client and the bridge read from them.
pub mod Link
pub mod Endpoints
