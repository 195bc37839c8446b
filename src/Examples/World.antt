-- ===== src/Examples/World.antt =====
-- One tenant with a cleared vendor system, a use case and its approved AIIA: rows of the tables of
-- app/models/domain.py, app/models/assessment.py and app/models/governance.py.
use aigov.Model.Enums.Assessment.{AssessmentStatus, AssessmentType}
use aigov.Model.Enums.Lifecycle.{ApprovalStatus, ClassificationStatus, EuAiActTier, LifecycleState}
use aigov.Model.Rows.Assessment.{Assessment, Classification}
use aigov.Model.Rows.Domain.{Approval, System, UseCase}
use aigov.Model.Session.{Session}
use aigov.Prelude.{[], false, lit, none, some, true, ℕ, ◌+◌, ◌∷◌}

abbrev pub chat_system : System
chat_system = record {
  id = 5;
  tenant_id = 1;
  name = "Chat";
  catalogue_vendor_id = some 10;
  catalogue_product_id = some 20;
  operator_role_id = none;
  hosting_model_id = some 90;
}

abbrev pub use_case_in : LifecycleState → UseCase
use_case_in s = record {
  id = 7;
  tenant_id = 1;
  system_id = 5;
  title = "Support";
  product_category_id = none;
  usage_context_id = none;
  human_oversight_type_id = none;
  state = s;
  eu_tier = EuAiActTier.minimal;
  held_from_state = none;
  held_reason = none;
}

abbrev pub approval_of : ℕ → ℕ → Approval
approval_of id catalogue_id = record {
  id = id;
  tenant_id = 1;
  catalogue_id = catalogue_id;
  status = ApprovalStatus.approved;
  valid_until = none;
  decided_by_user_id = some 2;
  decided_at = some 90;
  note = none;
}

abbrev pub snapshot_of : EuAiActTier → Classification
snapshot_of tier = record {
  id = 30;
  tenant_id = 1;
  use_case_id = 7;
  tier = tier;
  rationale = lit "Catalogue mapping" ∷ [];
  answers_blob = none;
  version = 1;
  is_current = true;
  overridden = false;
  proposed_tier = some tier;
  basis_subcategory_code = none;
  basis_legal_ref = none;
  status = ClassificationStatus.approved;
  off_label = false;
}

abbrev pub aiia_in : AssessmentStatus → Assessment
aiia_in status = record {
  id = 40;
  tenant_id = 1;
  use_case_id = 7;
  type = AssessmentType.aiia;
  parent_aiia_id = none;
  status = status;
  version = 1;
  approved_by_user_id = some 3;
  approved_at = some 95;
  tier_snapshot = EuAiActTier.minimal;
  classification_version = 1;
  is_current = true;
  lock_version = 4;
  submitted_by_user_id = some 2;
  submitted_at = some 93;
  submission_round = 1;
  created_by = some 2;
}

-- A session with nothing in it.
abbrev pub empty_session : Session
empty_session = record {
  now = 100;
  uuids = λ n. 1000 + n;
  drawn = 0;
  systems = [];
  use_cases = [];
  vendor_approvals = [];
  product_approvals = [];
  operator_roles = [];
  data_categories = [];
  use_case_data_categories = [];
  subcategories = [];
  category_memberships = [];
  eu_mappings = [];
  classifications = [];
  assessments = [];
  reviews = [];
  items = [];
  item_controls = [];
  item_evidence = [];
  evidence = [];
  section_templates = [];
  controls = [];
  framework_maps = [];
  risks = [];
  catalogue_vendors = [];
  catalogue_products = [];
  catalogue_product_risks = [];
  hosting_models = [];
  usage_contexts = [];
  human_oversight_types = [];
  affected_parties = [];
  use_case_affected_parties = [];
  decision_trees = [];
  transitions = [];
  authorisations = [];
  audit_events = [];
  governance_roles = [];
  role_conflicts = [];
  role_assignments = [];
  users = [];
  memberships = [];
}

-- The system is known and its use case is in a state, but nobody has cleared the vendor.
abbrev pub uncleared : LifecycleState → Session
uncleared s = record empty_session {
  systems = chat_system ∷ [];
  use_cases = use_case_in s ∷ [];
  classifications = snapshot_of EuAiActTier.minimal ∷ [];
}

-- The vendor is cleared and the product is not.
abbrev pub half_cleared : LifecycleState → Session
half_cleared s = record (uncleared s) { vendor_approvals = approval_of 50 10 ∷ [] }

-- Both are cleared, and the AIIA is approved.
abbrev pub cleared : LifecycleState → Session
cleared s = record (half_cleared s) {
  product_approvals = approval_of 51 20 ∷ [];
  assessments = aiia_in AssessmentStatus.approved ∷ [];
}

-- A prohibited practice was found.
abbrev pub forbidden : LifecycleState → Session
forbidden s = record (cleared s) { classifications = snapshot_of EuAiActTier.prohibited ∷ [] }
