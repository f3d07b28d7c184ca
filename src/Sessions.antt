-- ===== src/Sessions.antt =====
-- Sessions: src/core/session/ and src/storage/session-policy.ts.
pub mod Policy
pub mod Order
pub mod Inserted
pub mod Bounds
pub mod Eviction
pub mod Store
pub mod Storage
pub mod Manager
pub mod Lifecycle
pub mod Removed
