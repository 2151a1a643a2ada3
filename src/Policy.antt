-- ===== src/Policy.antt =====
-- internal/policy: the pure authorization engine. One module for each file of the package.
pub mod Types
pub mod Rule
pub mod Modes
pub mod Scope
pub mod NonResource
pub mod Extension
pub mod Engine
mod Tests
