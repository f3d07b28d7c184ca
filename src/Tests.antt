-- ===== src/Tests.antt =====
-- The theorems at concrete inputs.
pub mod Samples
pub mod Sessions
pub mod Manager
pub mod Users
pub mod Permissions
pub mod Factors
pub mod StepUp
pub mod File
pub mod Audit
pub mod Bootstrap
pub mod Invitations
pub mod Retirement
pub mod Activity
