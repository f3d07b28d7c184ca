-- ===== src/Permissions.antt =====
-- Permissions: src/types/permissions.ts and src/core/permissions/.
pub mod Catalog
pub mod Check
pub mod Predicates
pub mod Visibility
pub mod Spelling
pub mod Floor
pub mod Management
pub mod Viewing
pub mod Display
pub mod Grants
