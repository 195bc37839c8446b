-- ===== src/Authoring/Overwritten.antt =====
-- What an amendment of an item changes in its row (app/services/assessment_service.py).
use aigov.Authoring.Alters.{
  AltersAuthoring, Holds, authoring-Alters, not_authoring-Alters, set_if-Holds,
}
use aigov.Authoring.Amend.{AssessmentItemAmend, amended, authoring_changes}
use aigov.Model.Enums.Assessment.{
  ProvenanceConfidence, provenance_confidence_eq, treatment_decision_eq,
}
use aigov.Model.Rows.Assessment.{AssessmentItem}
use aigov.Prelude.{
  Bool, Bool-cases, false, inl, inr, is_empty, nat_eq, not, refl, string_eq, true, ◌+◌, ◌==◌, ◌≡◌,
  ◌≢◌, ◌⊎◌,
}

-- The row `now` is `item` as the patch amends it.
pub record Overwritten (patch : AssessmentItemAmend) (item now : AssessmentItem) : Type 0 where
  pub lock_version : now.lock_version ≡ item.lock_version + 1
  pub response : Holds patch.response item.response now.response
  pub likelihood : Holds patch.likelihood item.likelihood now.likelihood
  pub severity : Holds patch.severity item.severity now.severity
  pub residual_likelihood :
      Holds patch.residual_likelihood item.residual_likelihood now.residual_likelihood
  pub residual_severity : Holds patch.residual_severity item.residual_severity now.residual_severity
  pub mitigation_plan : Holds patch.mitigation_plan item.mitigation_plan now.mitigation_plan
  pub treatment_decision :
      Holds patch.treatment_decision item.treatment_decision now.treatment_decision
  pub treatment_rationale :
      Holds patch.treatment_rationale item.treatment_rationale now.treatment_rationale
  pub provenance :
      ((item.provenance ≡ ProvenanceConfidence.catalogue_curated)
        × AltersAuthoring patch item
        × (now.provenance ≡ ProvenanceConfidence.user_amended))
      ⊎ (((item.provenance ≢ ProvenanceConfidence.catalogue_curated)
            ⊎ (¬ AltersAuthoring patch item))
          × (now.provenance ≡ item.provenance))
  pub id : now.id ≡ item.id
  pub tenant_id : now.tenant_id ≡ item.tenant_id
  pub assessment_id : now.assessment_id ≡ item.assessment_id
  pub section_key : now.section_key ≡ item.section_key
  pub risk_id : now.risk_id ≡ item.risk_id
  pub prompt : now.prompt ≡ item.prompt
  pub selection_basis : now.selection_basis ≡ item.selection_basis
  pub source_ref : now.source_ref ≡ item.source_ref
  pub created_by : now.created_by ≡ item.created_by

not_curated :
    (p : ProvenanceConfidence)
    → (p == ProvenanceConfidence.catalogue_curated) ≡ false
    → p ≢ ProvenanceConfidence.catalogue_curated
not_curated p h e = let met = (provenance_confidence_eq.beq_iff _ _).1 e in cc

amended-provenance :
    (patch : AssessmentItemAmend) (item : AssessmentItem) (authored : Bool)
    → not (is_empty (authoring_changes patch item)) ≡ authored
    → ((item.provenance ≡ ProvenanceConfidence.catalogue_curated)
        × AltersAuthoring patch item
        × ((amended patch item authored item).provenance ≡ ProvenanceConfidence.user_amended))
      ⊎ (((item.provenance ≢ ProvenanceConfidence.catalogue_curated)
            ⊎ (¬ AltersAuthoring patch item))
          × ((amended patch item authored item).provenance ≡ item.provenance))
amended-provenance patch item false e = inr (inr (not_authoring-Alters patch item e), refl)
amended-provenance patch item true e =
    elim (Bool-cases (item.provenance == ProvenanceConfidence.catalogue_curated)) [
      | inl curated ↦ inl (
        (provenance_confidence_eq.beq_iff item.provenance ProvenanceConfidence.catalogue_curated).0
            curated,
        authoring-Alters patch item e,
        rw curated refl,
      )
      | inr other ↦ inr (inl (not_curated item.provenance other), rw other refl)
    ]

pub amended-Overwritten :
    (patch : AssessmentItemAmend) (item : AssessmentItem)
    → Overwritten patch item
        (amended patch item (not (is_empty (authoring_changes patch item))) item)
amended-Overwritten patch item = record {
  lock_version = refl;
  response = set_if-Holds patch.response item.response;
  likelihood = set_if-Holds patch.likelihood item.likelihood;
  severity = set_if-Holds patch.severity item.severity;
  residual_likelihood = set_if-Holds patch.residual_likelihood item.residual_likelihood;
  residual_severity = set_if-Holds patch.residual_severity item.residual_severity;
  mitigation_plan = set_if-Holds patch.mitigation_plan item.mitigation_plan;
  treatment_decision = set_if-Holds patch.treatment_decision item.treatment_decision;
  treatment_rationale = set_if-Holds patch.treatment_rationale item.treatment_rationale;
  provenance = amended-provenance patch item (not (is_empty (authoring_changes patch item))) refl;
  id = refl;
  tenant_id = refl;
  assessment_id = refl;
  section_key = refl;
  risk_id = refl;
  prompt = refl;
  selection_basis = refl;
  source_ref = refl;
  created_by = refl;
}
