-- ===== src/Discovery.antt =====
-- internal/discovery: filtering the discovery documents, and the map of scopes.
pub mod Documents
pub mod Flat
pub mod Aggregated
pub mod Filter
pub mod Scoper
pub mod Fetch
mod Tests
