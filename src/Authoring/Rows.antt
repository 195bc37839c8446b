-- ===== src/Authoring/Rows.antt =====
-- New rows of assessments and items, with the defaults of their columns (app/models/assessment.py),
-- and the helpers that add them (app/services/assessment_service.py).
use aigov.Model.Enums.Assessment.{
  AssessmentStatus, AssessmentType, ProvenanceConfidence, SectionApplicability,
  section_applicability_eq,
}
use aigov.Model.Enums.Knowledge.{RiskLayer, risk_layer_eq}
use aigov.Model.Enums.Lifecycle.{EuAiActTier, eu_ai_act_tier_value}
use aigov.Model.Rows.Assessment.{Assessment, AssessmentItem}
use aigov.Model.Rows.Knowledge.{AssessmentSectionTemplate, CatalogueProductRisk, Term}
use aigov.Model.Session.{Session, TenantContext}
use aigov.Prelude.{
  Bool, Exec, List, Message, Option, String, [], contains, find?, holds, if◌then◌else◌, lit, map,
  nat_eq, none, not, ok, pure, some, string_eq, true, uid, where_rows, ℕ, ◌&&◌, ◌++◌, ◌+◌, ◌==◌,
  ◌>>=◌, ◌∷◌,
}

abbrev pub new_assessment : ℕ → TenantContext → ℕ → AssessmentType → EuAiActTier → ℕ → Assessment
new_assessment id ctx use_case_id type tier_snapshot classification_version = record {
  id = id;
  tenant_id = ctx.tenant_id;
  use_case_id = use_case_id;
  type = type;
  parent_aiia_id = none;
  status = AssessmentStatus.draft;
  version = 1;
  approved_by_user_id = none;
  approved_at = none;
  tier_snapshot = tier_snapshot;
  classification_version = classification_version;
  is_current = true;
  lock_version = 0;
  submitted_by_user_id = none;
  submitted_at = none;
  submission_round = 0;
  created_by = some ctx.user_id;
}

abbrev pub new_item : ℕ → TenantContext → ℕ → String → ProvenanceConfidence → AssessmentItem
new_item id ctx assessment_id section_key provenance = record {
  id = id;
  tenant_id = ctx.tenant_id;
  assessment_id = assessment_id;
  section_key = some section_key;
  risk_id = none;
  prompt = none;
  response = none;
  likelihood = none;
  severity = none;
  residual_likelihood = none;
  residual_severity = none;
  mitigation_plan = none;
  provenance = provenance;
  selection_basis = none;
  source_ref = none;
  created_by = none;
  treatment_decision = none;
  treatment_rationale = none;
  lock_version = 0;
}

-- `db.add(AssessmentItem(id=uuid.uuid4(), ...))`
abbrev pub add_item : (ℕ → AssessmentItem) → Exec Session AssessmentItem
add_item item_with db =
    let item = item_with (db.uuids db.drawn) in
    (ok item, record db { items = db.items ++ item ∷ []; drawn = db.drawn + 1 })

-- `_resolve_label`, on a vocabulary.
abbrev pub resolve_label : List Term → Option ℕ → Option String
resolve_label terms none = none
resolve_label terms (some id) = elim (find? (λ row. row.id == id) terms) [
  | none ↦ none
  | some row ↦ some row.label
]

-- A register fact: its prompt, its frozen value, and where it comes from.
pub record Fact : Type 0 where
  pub prompt : Message
  pub response : String
  pub source_ref : Message

abbrev pub snapshot_item : TenantContext → ℕ → String → Fact → ℕ → AssessmentItem
snapshot_item ctx assessment_id section_key fact id =
    record (new_item id ctx assessment_id section_key ProvenanceConfidence.user_confirmed) {
      prompt = some fact.prompt;
      response = some fact.response;
      source_ref = some fact.source_ref;
    }

-- `_add_snapshot_item` for each of the facts; the number of them.
unfoldable pub add_snapshot_items : TenantContext → ℕ → String → List Fact → Exec Session ℕ
add_snapshot_items ctx assessment_id section_key [] = pure 0
add_snapshot_items ctx assessment_id section_key (fact ∷ facts) = do
  item ← add_item (snapshot_item ctx assessment_id section_key fact)
  count ← add_snapshot_items ctx assessment_id section_key facts
  pure (count + 1)

abbrev pub section_item : TenantContext → ℕ → AssessmentSectionTemplate → ℕ → AssessmentItem
section_item ctx assessment_id tmpl id =
    record (new_item id ctx assessment_id tmpl.section_key ProvenanceConfidence.catalogue_curated) {
      prompt = tmpl.prompt;
    }

-- The template rows that are instantiated: required, and not the section of the risks.
abbrev pub is_instantiated : Option String → AssessmentSectionTemplate → Bool
is_instantiated skip_section_key tmpl =
    tmpl.applicability == SectionApplicability.required
    && not (holds skip_section_key tmpl.section_key)

-- `_instantiate_required_sections`
unfoldable pub instantiate_required_sections :
    TenantContext → ℕ → Option String → List AssessmentSectionTemplate → Exec Session ℕ
instantiate_required_sections ctx assessment_id skip_section_key [] = pure 0
instantiate_required_sections ctx assessment_id skip_section_key (tmpl ∷ rows) =
    let skipped = instantiate_required_sections ctx assessment_id skip_section_key rows in
    let counted = (do
      item ← add_item (section_item ctx assessment_id tmpl)
      count ← skipped
      pure (count + 1)) in
    if is_instantiated skip_section_key tmpl then counted else skipped

-- Identity and shown reasoning only, never scores.
pub record ProposedRisk : Type 0 where
  pub risk_id : ℕ
  pub selection_basis : Message

abbrev pub proposed_item : TenantContext → ℕ → String → ProposedRisk → ℕ → AssessmentItem
proposed_item ctx assessment_id section_key p id =
    record (new_item id ctx assessment_id section_key ProvenanceConfidence.ai_suggested) {
      risk_id = some p.risk_id;
      selection_basis = some p.selection_basis;
    }

-- `_add_proposed_risk_items`
unfoldable pub add_proposed_risk_items :
    TenantContext → ℕ → String → List ProposedRisk → Exec Session (Unit {0})
add_proposed_risk_items ctx assessment_id section_key [] = pure tt
add_proposed_risk_items ctx assessment_id section_key (p ∷ proposed) = do
  item ← add_item (proposed_item ctx assessment_id section_key p)
  add_proposed_risk_items ctx assessment_id section_key proposed

-- `CatalogueProductRisk` rows whose risk has not been seen.
unfoldable pub product_risks : ℕ → List ℕ → List CatalogueProductRisk → List ProposedRisk
product_risks product_id seen [] = []
product_risks product_id seen (row ∷ rows) =
    let repeated = product_risks product_id seen rows in
    let fresh =
      record {
        risk_id = row.risk_id;
        selection_basis = lit "CatalogueProductRisk, product " ∷ uid product_id ∷ [];
      }
      ∷ product_risks product_id (row.risk_id ∷ seen) rows in
    if contains row.risk_id seen then repeated else fresh

abbrev pub risks_in_layer : RiskLayer → Session → List ℕ
risks_in_layer layer db = map (λ row. row.id) (where_rows (λ row. row.layer == layer) db.risks)

abbrev pub with_basis : Message → ℕ → ProposedRisk
with_basis basis risk_id = record { risk_id = risk_id; selection_basis = basis }

abbrev pub product_risks_of : Option ℕ → List ℕ → Session → List ProposedRisk
product_risks_of none seen db = []
product_risks_of (some product_id) seen db =
    product_risks product_id seen
      (where_rows (λ row. row.product_id == product_id) db.catalogue_product_risks)

-- `propose_risk_set`; the modality tags are accepted and unused.
unfoldable pub propose_risk_set :
    AssessmentType → EuAiActTier → List String → Option ℕ → Session → List ProposedRisk
unfolding product_risks
propose_risk_set AssessmentType.aiia tier modality_tags product_id db =
    let governance = risks_in_layer RiskLayer.governance_rights db in
    map
      (with_basis
        (lit "Governance-layer risk (NIST/ISO), tier " ∷ lit (eu_ai_act_tier_value tier) ∷ []))
      governance
    ++ product_risks_of product_id governance db
propose_risk_set AssessmentType.model_risk tier modality_tags product_id db =
    map (with_basis (lit "Technical-layer risk (OWASP LLM Top 10)" ∷ []))
      (risks_in_layer RiskLayer.technical_security db)
propose_risk_set AssessmentType.fria tier modality_tags product_id db = []
propose_risk_set AssessmentType.dpia tier modality_tags product_id db = []
