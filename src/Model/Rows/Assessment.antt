-- ===== src/Model/Rows/Assessment.antt =====
-- Classifications, assessments, their items and reviews (app/models/assessment.py).
use aigov.Model.Enums.Assessment.{
  AssessmentStatus, AssessmentType, ProvenanceConfidence, ReviewDecision, TreatmentDecision,
}
use aigov.Model.Enums.Knowledge.{CoverageStatus}
use aigov.Model.Enums.Lifecycle.{ClassificationStatus, EuAiActTier}
use aigov.Model.Rows.Tree.{AnswersBlob}
use aigov.Prelude.{Bool, Message, Option, String, ℕ}

pub record Classification : Type 0 where
  pub id : ℕ
  pub tenant_id : ℕ
  pub use_case_id : ℕ
  pub tier : EuAiActTier
  pub rationale : Message
  pub answers_blob : Option AnswersBlob
  pub version : ℕ
  pub is_current : Bool
  pub overridden : Bool
  pub proposed_tier : Option EuAiActTier
  pub basis_subcategory_code : Option String
  pub basis_legal_ref : Option String
  pub status : ClassificationStatus
  pub off_label : Bool

pub record Assessment : Type 0 where
  pub id : ℕ
  pub tenant_id : ℕ
  pub use_case_id : ℕ
  pub type : AssessmentType
  pub parent_aiia_id : Option ℕ
  pub status : AssessmentStatus
  pub version : ℕ
  pub approved_by_user_id : Option ℕ
  pub approved_at : Option ℕ
  pub tier_snapshot : EuAiActTier
  pub classification_version : ℕ
  pub is_current : Bool
  pub lock_version : ℕ
  pub submitted_by_user_id : Option ℕ
  pub submitted_at : Option ℕ
  pub submission_round : ℕ
  pub created_by : Option ℕ

pub record AssessmentReview : Type 0 where
  pub id : ℕ
  pub tenant_id : ℕ
  pub assessment_id : ℕ
  pub reviewer_user_id : ℕ
  pub decision : ReviewDecision
  pub note : Option String
  pub submission_round : ℕ

pub record AssessmentItem : Type 0 where
  pub id : ℕ
  pub tenant_id : ℕ
  pub assessment_id : ℕ
  pub section_key : Option String
  pub risk_id : Option ℕ
  pub prompt : Option Message
  pub response : Option String
  pub likelihood : Option ℕ
  pub severity : Option ℕ
  pub residual_likelihood : Option ℕ
  pub residual_severity : Option ℕ
  pub mitigation_plan : Option String
  pub provenance : ProvenanceConfidence
  pub selection_basis : Option Message
  pub source_ref : Option Message
  pub created_by : Option ℕ
  pub treatment_decision : Option TreatmentDecision
  pub treatment_rationale : Option String
  pub lock_version : ℕ

pub record AssessmentItemControl : Type 0 where
  pub id : ℕ
  pub tenant_id : ℕ
  pub item_id : ℕ
  pub control_id : ℕ
  pub coverage : CoverageStatus

pub record AssessmentItemEvidence : Type 0 where
  pub id : ℕ
  pub tenant_id : ℕ
  pub item_id : ℕ
  pub evidence_id : ℕ
