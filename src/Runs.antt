-- ===== src/Runs.antt =====
-- The runs platform: internal/platform/runs.
pub mod Types
pub mod Config
pub mod Failure
pub mod Status
pub mod CycleKey
pub mod Refs
pub mod Namespace
pub mod Normalize
pub mod Merge
pub mod Policy
pub mod Compact
pub mod Payloads
pub mod Timeouts
pub mod Store
pub mod Repository
pub mod Service
pub mod Clients
mod Tests
