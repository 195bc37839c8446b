-- ===== src/Lifecycle.antt =====
-- The lifecycle state machine (app/services/lifecycle_service.py).
pub mod Legality
pub mod Edges
pub mod Transition
pub mod Frame
pub mod Advance
pub mod Resting
pub mod ReEvaluate
pub mod Target
pub mod Arrival
pub mod Settling
pub mod Fixpoint
pub mod Outcomes
pub mod Repeat
pub mod Trail
pub mod Sound
pub mod Kept
pub mod Integrity
pub mod Elsewhere
