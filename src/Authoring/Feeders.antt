-- ===== src/Authoring/Feeders.antt =====
-- The creation of a feeder of an AIIA (app/services/assessment_service.py).
use aigov.Authoring.Creation.{dimension_fact, insert_assessment, no_template, risk_ids}
use aigov.Authoring.Rows.{
  Fact, ProposedRisk, add_proposed_risk_items, add_snapshot_items, instantiate_required_sections,
  new_assessment, propose_risk_set, resolve_label,
}
use aigov.Authoring.Sections.{templates_for}
use aigov.Gates.Feeders.{system_of}
use aigov.Items.{stage_audit}
use aigov.Model.Enums.Assessment.{AssessmentType, assessment_type_eq, assessment_type_value}
use aigov.Model.Enums.Lifecycle.{EuAiActTier}
use aigov.Model.Rows.Assessment.{Assessment}
use aigov.Model.Rows.Domain.{System, UseCase}
use aigov.Model.Rows.Knowledge.{AssessmentSectionTemplate, Term}
use aigov.Model.Rows.Lifecycle.{Detail}
use aigov.Model.Session.{Session, TenantContext, get_use_case}
use aigov.Prelude.{
  Bool, Error, Exec, List, Option, String, [], any_row, contains, find?, gets, guard, holds, http,
  if◌then◌else◌, is_empty, join_rows, lit, map, nat_eq, none, not, pure, read, some, uid,
  where_rows, ℕ, ◌&&◌, ◌++◌, ◌==◌, ◌>>=◌, ◌>>◌, ◌∷◌,
}
use aigov.Review.{load_assessment}

abbrev pub feeder_types : List AssessmentType
feeder_types = AssessmentType.fria ∷ AssessmentType.dpia ∷ AssessmentType.model_risk ∷ []

-- `_RISK_SECTION_BY_TYPE.get(type)`
abbrev pub risk_section_of : AssessmentType → Option String
risk_section_of AssessmentType.aiia = some "risk_identification"
risk_section_of AssessmentType.model_risk = some "model_risk_identified_risks"
risk_section_of AssessmentType.fria = none
risk_section_of AssessmentType.dpia = none

abbrev pub not_a_feeder : AssessmentType → Error
not_a_feeder type =
    http 422
      (lit "type=" ∷ lit (assessment_type_value type) ∷ lit " cannot be created as a feeder" ∷ [])

abbrev pub feeder_exists : AssessmentType → Error
feeder_exists type =
    http 409 (
      lit "A " ∷ lit (assessment_type_value type) ∷ lit " feeder already exists for this AIIA" ∷ [])

-- The unique constraint on the parent and the type.
abbrev pub is_feeder_of : ℕ → AssessmentType → Assessment → Bool
is_feeder_of parent_id type row = holds row.parent_aiia_id parent_id && row.type == type

abbrev pub category_terms : Session → List Term
category_terms db = map (λ c. record { id = c.id; label = c.label }) db.data_categories

abbrev pub labelled_fact : String → String → ℕ → Option String → List Fact
labelled_fact label_prefix ref id none = []
labelled_fact label_prefix ref id (some label) =
    record {
      prompt = lit label_prefix ∷ lit ": " ∷ lit label ∷ [];
      response = label;
      source_ref = lit ref ∷ lit ":" ∷ uid id ∷ [];
    }
    ∷ []

abbrev pub affected_party_facts : UseCase → Session → List Fact
affected_party_facts use_case db =
    join_rows
      (λ link.
        labelled_fact "Affected party" "use_case_affected_party" link.id
          (resolve_label db.affected_parties (some link.affected_party_id)))
      (where_rows (λ link. link.use_case_id == use_case.id) db.use_case_affected_parties)

abbrev pub data_category_facts : UseCase → Session → List Fact
data_category_facts use_case db =
    join_rows
      (λ link.
        labelled_fact "Data category" "use_case_data_category" link.id
          (resolve_label (category_terms db) (some link.data_category_id)))
      (where_rows (λ link. link.use_case_id == use_case.id) db.use_case_data_categories)

abbrev pub product_facts : Option ℕ → Session → List Fact
product_facts none db = []
product_facts (some product_id) db =
    elim (find? (λ row. row.id == product_id) db.catalogue_products) [
      | none ↦ []
      | some product ↦
          labelled_fact "Catalogue product" "system.catalogue_product_id" product.id
            (some product.name)
    ]

abbrev pub model_facts : System → Session → List Fact
model_facts system db =
    product_facts system.catalogue_product_id db
    ++ dimension_fact "Hosting model" db.hosting_models system.hosting_model_id
        "system.hosting_model_id"

abbrev pub facts_of : (UseCase → Session → List Fact) → Option UseCase → Session → List Fact
facts_of f none db = []
facts_of f (some use_case) db = f use_case db

abbrev pub model_facts_of : Option System → Session → List Fact
model_facts_of none db = []
model_facts_of (some system) db = model_facts system db

-- The register facts that a feeder takes over, by its type, and the section that they go to.
unfoldable pub feeder_facts : AssessmentType → Option UseCase → Option System → Session → List Fact
feeder_facts AssessmentType.fria use_case system db = facts_of affected_party_facts use_case db
feeder_facts AssessmentType.dpia use_case system db = facts_of data_category_facts use_case db
feeder_facts AssessmentType.model_risk use_case system db = model_facts_of system db
feeder_facts AssessmentType.aiia use_case system db = []

abbrev pub feeder_section : AssessmentType → String
feeder_section AssessmentType.fria = "fria_affected_persons"
feeder_section AssessmentType.dpia = "dpia_data_categories"
feeder_section AssessmentType.model_risk = "model_risk_model_description"
feeder_section AssessmentType.aiia = "system_overview"

-- Only a model-risk feeder of a known system has risks proposed.
unfoldable pub feeder_risks :
    AssessmentType → EuAiActTier → Option System → Session → List ProposedRisk
unfolding propose_risk_set
feeder_risks type tier none db = []
feeder_risks type tier (some system) db =
    if type == AssessmentType.model_risk
    then propose_risk_set AssessmentType.model_risk tier [] system.catalogue_product_id db
    else []

abbrev pub feeder_detail : ℕ → AssessmentType → ℕ → ℕ → List ProposedRisk → List (String × Detail)
feeder_detail parent_id type required_count snapshot_count proposed =
    ("parent_aiia_id", Detail.message (uid parent_id ∷ []))
    ∷ ("type", Detail.text (assessment_type_value type))
    ∷ ("required_sections", Detail.num required_count)
    ∷ ("snapshotted_facts", Detail.num snapshot_count)
    ∷ ("proposed_risk_ids", risk_ids proposed)
    ∷ []

-- The items of a new feeder, and the audit row.
unfoldable pub prefill_feeder :
    Assessment
    → List AssessmentSectionTemplate
    → Assessment
    → TenantContext
    → Exec Session Assessment
unfolding instantiate_required_sections feeder_facts add_snapshot_items feeder_risks
    add_proposed_risk_items
prefill_feeder parent template_rows feeder ctx = do
  required_count ←
      instantiate_required_sections ctx feeder.id (risk_section_of feeder.type) template_rows
  use_case ← gets (λ db. get_use_case db parent.use_case_id)
  system ← gets (λ db. system_of db use_case)
  facts ← gets (feeder_facts feeder.type use_case system)
  snapshot_count ← add_snapshot_items ctx feeder.id (feeder_section feeder.type) facts
  proposed ← gets (feeder_risks feeder.type parent.tier_snapshot system)
  add_proposed_risk_items ctx feeder.id "model_risk_identified_risks" proposed
  stage_audit ctx "assessment.feeder_created" "assessment" feeder.id
      (feeder_detail parent.id feeder.type required_count snapshot_count proposed)
  pure feeder

-- The scope is copied from the parent, never resolved anew.
abbrev pub new_feeder : Assessment → AssessmentType → TenantContext → ℕ → Assessment
new_feeder parent type ctx id =
    record (new_assessment id ctx parent.use_case_id type parent.tier_snapshot
      parent.classification_version) { parent_aiia_id = some parent.id }

unfoldable pub create_feeder : ℕ → AssessmentType → TenantContext → Exec Session Assessment
unfolding load_assessment templates_for prefill_feeder
create_feeder parent_aiia_id feeder_type ctx = do
  guard (contains feeder_type feeder_types) (not_a_feeder feeder_type)
  parent ← read (load_assessment parent_aiia_id ctx)
  guard (parent.type == AssessmentType.aiia)
      (http 422 (lit "A feeder cannot parent another feeder" ∷ []))
  taken ← gets (λ db. any_row (is_feeder_of parent.id feeder_type) db.assessments)
  guard (not taken) (feeder_exists feeder_type)
  template_rows ← gets (templates_for feeder_type parent.tier_snapshot)
  guard (not (is_empty template_rows))
      (no_template (assessment_type_value feeder_type) parent.tier_snapshot)
  feeder ←
      insert_assessment (is_feeder_of parent.id feeder_type) (feeder_exists feeder_type)
        (new_feeder parent feeder_type ctx)
  prefill_feeder parent template_rows feeder ctx
