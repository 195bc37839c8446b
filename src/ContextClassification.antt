-- ===== src/ContextClassification.antt =====
-- app/services/context_classification.py: the classification of a use case by a decision tree.
pub mod Tree
pub mod Walk
pub mod Resolver
pub mod Blob
pub mod Recording
pub mod SignOff
pub mod Kept
pub mod Recorded
pub mod Ratified
pub mod Prohibited
pub mod Ladder
pub mod Search
pub mod Judgement
