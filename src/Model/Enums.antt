-- ===== src/Model/Enums.antt =====
-- The enums of app/models/base.py.
pub mod Lifecycle
pub mod Assessment
pub mod Knowledge
