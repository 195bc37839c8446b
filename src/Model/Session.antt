-- ===== src/Model/Session.antt =====
-- A database session as the services see it: the tables, in the order in which queries return
-- their rows, the clock that `_now()` reads, and the supply of `uuid.uuid4()`.
use aigov.Model.Rows.Assessment.{
  Assessment, AssessmentItem, AssessmentItemControl, AssessmentItemEvidence, AssessmentReview,
  Classification,
}
use aigov.Model.Rows.Domain.{
  Approval, DataCategory, EuAiActSubcategory, EuOperatorRole, ProductCategoryEuMapping,
  ProductCategoryMembership, System, UseCase, UseCaseDataCategory,
}
use aigov.Model.Rows.Knowledge.{
  AssessmentSectionTemplate, CatalogueProduct, CatalogueProductRisk, CatalogueVendor, Control,
  ControlFrameworkMap, Evidence, Risk, Term, UseCaseAffectedParty,
}
use aigov.Model.Rows.Lifecycle.{
  AuditEvent, DeploymentAuthorisation, GovernanceRole, GovernanceRoleAssignment,
  GovernanceRoleConflict, LifecycleTransition, Membership, User,
}
use aigov.Model.Rows.Tree.{DecisionTree}
use aigov.Prelude.{Exec, List, Option, String, find?, nat_eq, ok, ℕ, ◌+◌, ◌==◌}

pub record Session : Type 0 where
  pub now : ℕ
  pub uuids : ℕ → ℕ
  pub drawn : ℕ
  pub systems : List System
  pub use_cases : List UseCase
  pub vendor_approvals : List Approval
  pub product_approvals : List Approval
  pub operator_roles : List EuOperatorRole
  pub data_categories : List DataCategory
  pub use_case_data_categories : List UseCaseDataCategory
  pub subcategories : List EuAiActSubcategory
  pub category_memberships : List ProductCategoryMembership
  pub eu_mappings : List ProductCategoryEuMapping
  pub classifications : List Classification
  pub assessments : List Assessment
  pub reviews : List AssessmentReview
  pub items : List AssessmentItem
  pub item_controls : List AssessmentItemControl
  pub item_evidence : List AssessmentItemEvidence
  pub evidence : List Evidence
  pub section_templates : List AssessmentSectionTemplate
  pub controls : List Control
  pub framework_maps : List ControlFrameworkMap
  pub risks : List Risk
  pub catalogue_vendors : List CatalogueVendor
  pub catalogue_products : List CatalogueProduct
  pub catalogue_product_risks : List CatalogueProductRisk
  pub hosting_models : List Term
  pub usage_contexts : List Term
  pub human_oversight_types : List Term
  pub affected_parties : List Term
  pub use_case_affected_parties : List UseCaseAffectedParty
  pub decision_trees : List DecisionTree
  pub transitions : List LifecycleTransition
  pub authorisations : List DeploymentAuthorisation
  pub audit_events : List AuditEvent
  pub governance_roles : List GovernanceRole
  pub role_conflicts : List GovernanceRoleConflict
  pub role_assignments : List GovernanceRoleAssignment
  pub users : List User
  pub memberships : List Membership

-- The caller of a request (app/auth/context.py).
pub record TenantContext : Type 0 where
  pub user_id : ℕ
  pub membership_id : ℕ
  pub tenant_id : ℕ
  pub role : String

-- `uuid.uuid4()`: the next value of the supply.
abbrev pub uuid4 : Exec Session ℕ
uuid4 db = (ok (db.uuids db.drawn), record db { drawn = db.drawn + 1 })

-- `db.get(T, id)` for the tables that the services address by their key.
abbrev pub get_system : Session → ℕ → Option System
get_system db id = find? (λ row. row.id == id) db.systems

abbrev pub get_use_case : Session → ℕ → Option UseCase
get_use_case db id = find? (λ row. row.id == id) db.use_cases

abbrev pub get_assessment : Session → ℕ → Option Assessment
get_assessment db id = find? (λ row. row.id == id) db.assessments
