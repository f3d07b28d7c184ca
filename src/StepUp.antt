-- ===== src/StepUp.antt =====
-- Step-up permits for single actions: src/storage/action-step-up.ts.
pub mod Outcome
pub mod Records
pub mod Store
pub mod Prune
pub mod Operations
pub mod Spent
pub mod Keeping
pub mod Written
pub mod Once
pub mod Sound
pub mod Approval
pub mod Reading
pub mod Valid
pub mod Budget
