-- ===== src/Gates/Feeders.antt =====
-- `feeder_recommendations_for` of app/services/assessment_service.py.
use aigov.Model.Enums.Assessment.{
  AssessmentType, SectionApplicability, assessment_type_eq, dpia, fria, model_risk, not_applicable,
  recommended, required,
}
use aigov.Model.Enums.Lifecycle.{EuAiActTier, eu_ai_act_tier_eq}
use aigov.Model.Rows.Assessment.{Assessment}
use aigov.Model.Rows.Domain.{DataCategory, System, UseCase}
use aigov.Model.Session.{Session, get_system, get_use_case}
use aigov.Prelude.{
  Bool, List, Option, String, [], any_row, false, find?, holds, if◌then◌else◌, join_rows, map,
  nat_eq, none, some, string_eq, true, where_rows, ◌&&◌, ◌==◌, ◌∷◌,
}

pub record FeederRecommendation : Type 0 where
  pub type : AssessmentType
  pub applicability : SectionApplicability
  pub basis : String
  pub exists : Bool

-- The operator role's code is "deployer".
abbrev pub role_is_deployer : Session → Option System → Bool
role_is_deployer db none = false
role_is_deployer db (some s) = elim s.operator_role_id [
  | none ↦ false
  | some role_id ↦ elim (find? (λ role. role.id == role_id) db.operator_roles) [
    | none ↦ false
    | some role ↦ role.code == "deployer"
  ]
]

-- `db.get(System, use_case.system_id) if use_case else None`
abbrev pub system_of : Session → Option UseCase → Option System
system_of db none = none
system_of db (some use_case) = get_system db use_case.system_id

-- The data categories that a use case is linked to.
abbrev pub categories_of : Session → Option UseCase → List DataCategory
categories_of db none = []
categories_of db (some use_case) =
    join_rows (λ link. where_rows (λ c. c.id == link.data_category_id) db.data_categories)
      (where_rows (λ link. link.use_case_id == use_case.id) db.use_case_data_categories)

-- The types of the feeders that an AIIA has.
abbrev pub existing_types : Assessment → Session → List AssessmentType
existing_types parent db =
    map (λ a. a.type) (where_rows (λ a. holds a.parent_aiia_id parent.id) db.assessments)

abbrev pub has_type : AssessmentType → List AssessmentType → Bool
has_type t = any_row (λ u. u == t)

unfoldable pub fria_applicability : Bool → Bool → SectionApplicability × String
fria_applicability is_high is_deployer =
    if is_high && is_deployer
    then (required, "EU AI Act Art. 27 — high-risk system with deployer obligations")
    else if is_high
    then (recommended, "EU AI Act Art. 27 — high-risk system")
    else (not_applicable, "EU AI Act Art. 27 — not triggered at this tier")

unfoldable pub dpia_applicability : Bool → List DataCategory → SectionApplicability × String
dpia_applicability is_high categories =
    if is_high && any_row (λ c. c.is_special_category) categories
    then (required, "GDPR Art. 35 — special-category data + high-risk processing")
    else if any_row (λ _. true) categories
    then (recommended, "GDPR Art. 35 — personal data present")
    else (not_applicable, "GDPR Art. 35 — no personal data registered")

unfoldable pub feeder_recommendations_for : Assessment → Session → List FeederRecommendation
unfolding fria_applicability dpia_applicability
feeder_recommendations_for parent db =
    let use_case = get_use_case db parent.use_case_id in
    let is_high = parent.tier_snapshot == EuAiActTier.high in
    let existing = existing_types parent db in
    let fria_app = fria_applicability is_high (role_is_deployer db (system_of db use_case)) in
    let dpia_app = dpia_applicability is_high (categories_of db use_case) in
    record {
      type = fria;
      applicability = fria_app.0;
      basis = fria_app.1;
      exists = has_type fria existing;
    }
    ∷ record {
      type = dpia;
      applicability = dpia_app.0;
      basis = dpia_app.1;
      exists = has_type dpia existing;
    }
    ∷ record {
      type = model_risk;
      applicability = recommended;
      basis = "NIST AI RMF / ISO 42001 — applies to any deployed model";
      exists = has_type model_risk existing;
    }
    ∷ []
