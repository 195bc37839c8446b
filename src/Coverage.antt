-- ===== src/Coverage.antt =====
-- Control coverage (app/services/coverage_service.py): a read of the current links, never stored.
pub mod Links
pub mod Matrix
pub mod Counts
pub mod Rollup
pub mod Partition
pub mod Evidence
pub mod Ladder
pub mod Strictness
