-- ===== src/Model/Rows/Knowledge.antt =====
-- Controls, their framework clauses and risks (app/models/knowledge.py), the section templates
-- (app/models/assessment.py), catalogue products (app/models/domain.py), the vocabularies of the
-- register (app/models/intake.py) and evidence (app/models/lifecycle.py).
use aigov.Model.Enums.Assessment.{AssessmentType, SectionApplicability}
use aigov.Model.Enums.Knowledge.{Framework, RiskLayer}
use aigov.Model.Enums.Lifecycle.{EuAiActTier}
use aigov.Prelude.{Message, Option, String, ℕ}

pub record Control : Type 0 where
  pub id : ℕ
  pub code : String
  pub title : String

pub record ControlFrameworkMap : Type 0 where
  pub control_id : ℕ
  pub framework : Framework
  pub clause_ref : String

pub record Risk : Type 0 where
  pub id : ℕ
  pub layer : RiskLayer

pub record AssessmentSectionTemplate : Type 0 where
  pub type : AssessmentType
  pub tier : EuAiActTier
  pub section_key : String
  pub title : String
  pub applicability : SectionApplicability
  pub prompt : Option Message
  pub iso_42005_clause : Option String
  pub aiia_target_section_key : Option String
  pub sort_order : ℕ

pub record CatalogueProduct : Type 0 where
  pub id : ℕ
  pub vendor_id : ℕ
  pub name : String

pub record CatalogueVendor : Type 0 where
  pub id : ℕ
  pub name : String

pub record CatalogueProductRisk : Type 0 where
  pub product_id : ℕ
  pub risk_id : ℕ

-- HostingModel, UsageContext, HumanOversightType and AffectedParty, which differ in the table.
pub record Term : Type 0 where
  pub id : ℕ
  pub label : String

pub record UseCaseAffectedParty : Type 0 where
  pub id : ℕ
  pub use_case_id : ℕ
  pub affected_party_id : ℕ

pub record Evidence : Type 0 where
  pub id : ℕ
  pub tenant_id : ℕ
  pub title : String
  pub sha256 : String
  pub content_type : Option String
  pub size_bytes : ℕ
