-- ===== src/Connector.antt =====
-- The connectors (src/connectors): retries, stored state and the paging loop.
pub mod Retry
pub mod State
pub mod Lock
pub mod Page
pub mod Sources
pub mod Media
pub mod Attribution
mod Example
mod Tests
