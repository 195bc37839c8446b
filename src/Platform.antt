-- ===== src/Platform.antt =====
-- The services of app/services together, on one session.
pub mod Lawful
pub mod Requests
pub mod Granting
pub mod Clearances
pub mod Runs
