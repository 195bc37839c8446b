-- ===== src/Gates.antt =====
-- The gate predicates (app/services/lifecycle_gates.py): reads of the session that never write.
pub mod Verdict
pub mod Clearance
pub mod Readiness
pub mod Feeders
pub mod Structure
pub mod Treatment
pub mod Authorisation
pub mod Frame
