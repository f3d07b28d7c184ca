-- ===== src/Retirement.antt =====
-- The journalled retirement of a second factor: src/storage/file-totp-retirement.ts.
pub mod Material
pub mod Records
pub mod Store
pub mod Apply
pub mod Operations
pub mod Checks
pub mod Owner
pub mod Effects
pub mod Keeps
pub mod Writes
pub mod Deletions
pub mod Valid
pub mod Completes
pub mod Sound
pub mod Authorized
