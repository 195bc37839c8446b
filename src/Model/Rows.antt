-- ===== src/Model/Rows.antt =====
-- The rows of app/models.
pub mod Domain
pub mod Tree
pub mod Assessment
pub mod Lifecycle
pub mod Knowledge
