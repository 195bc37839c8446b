-- ===== src/Authoring.antt =====
-- The authoring of assessments (app/services/assessment_service.py): creation of AIIAs and feeders,
-- sections, amendments, links, deletion, and the view of an AIIA.
pub mod Rows
pub mod Sections
pub mod Creation
pub mod Feeders
pub mod Amend
pub mod Links
pub mod Deletion
pub mod Assembly
pub mod Filling
pub mod Prefill
pub mod Alters
pub mod Overwritten
pub mod Performed
pub mod Amended
pub mod RoundTrip
pub mod Pristine
pub mod Recreate
pub mod Intact
pub mod Requests
pub mod Steps
pub mod Runs
