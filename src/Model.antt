-- ===== src/Model.antt =====
-- The data model (app/models): enums, rows and the tables of a session.
pub mod Enums
pub mod Rows
pub mod Session
