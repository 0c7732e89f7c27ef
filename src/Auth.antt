-- ===== src/Auth.antt =====
-- src/auth.ts: access levels, API keys, permissions and namespaces.
pub mod Levels
pub mod Keys
pub mod Scope
mod Tests
