-- ===== src/Examples/Items.antt =====
-- Items of the small tenant's AIIA (app/services/assessment_service.py).
use aigov.Examples.World.{aiia_in, cleared}
use aigov.Gates.Feeders.{feeder_recommendations_for}
use aigov.Gates.Readiness.{classification_readiness}
use aigov.Gates.Structure.{assessment_approved, assessment_gate, structural_assessment_readiness}
use aigov.Items.{confirm_item, confirmed, delete_item, load_item}
use aigov.Items.Lock.{Unlocked, confirm_item-Unlocked, delete_item-ignores_lock}
use aigov.Lifecycle.Advance.{advance_loop, gate_for_state}
use aigov.Model.Enums.Assessment.{AssessmentStatus, ProvenanceConfidence}
use aigov.Model.Enums.Lifecycle.{LifecycleState}
use aigov.Model.Rows.Assessment.{AssessmentItem}
use aigov.Model.Session.{Session, TenantContext}
use aigov.Prelude.{[], any_row, false, nat_eq, none, ok, refl, some, ◌==◌, ◌∷◌, ◌≡◌}
use aigov.Review.{use_case_of}

abbrev pub risk_item : ProvenanceConfidence → AssessmentItem
risk_item provenance = record {
  id = 70;
  tenant_id = 1;
  assessment_id = 40;
  section_key = some "risk_identification";
  risk_id = some 80;
  prompt = none;
  response = none;
  likelihood = none;
  severity = none;
  residual_likelihood = none;
  residual_severity = none;
  mitigation_plan = none;
  provenance = provenance;
  selection_basis = none;
  source_ref = none;
  created_by = none;
  treatment_decision = none;
  treatment_rationale = none;
  lock_version = 0;
}

abbrev pub contributor : TenantContext
contributor = record { user_id = 2; membership_id = 22; tenant_id = 1; role = "member" }

-- The AIIA is a draft, with a proposed risk.
abbrev proposed : Session
proposed = record (cleared LifecycleState.under_assessment) {
  assessments = aiia_in AssessmentStatus.draft ∷ [];
  items = risk_item ProvenanceConfidence.ai_suggested ∷ [];
}

confirm-returns :
    (confirm_item 70 0 contributor proposed).0
    ≡ ok (confirmed (risk_item ProvenanceConfidence.ai_suggested))
unfolding confirm_item load_item use_case_of classification_readiness assessment_gate advance_loop
    gate_for_state structural_assessment_readiness feeder_recommendations_for assessment_approved
confirm-returns = refl

confirm_item-Unlocked_example : Unlocked 70 contributor proposed
confirm_item-Unlocked_example =
    confirm_item-Unlocked 70 0 contributor proposed
      (confirmed (risk_item ProvenanceConfidence.ai_suggested)) confirm-returns

-- The AIIA is approved, with a risk that a user has confirmed.
abbrev approved_with_item : Session
approved_with_item = record (cleared LifecycleState.treatment_pending) {
  items = risk_item ProvenanceConfidence.user_confirmed ∷ [];
}

loaded_item :
    load_item 70 contributor approved_with_item ≡ ok (risk_item ProvenanceConfidence.user_confirmed)
unfolding load_item
loaded_item = refl

delete_item-ignores_lock_example :
    ((delete_item 70 contributor approved_with_item).0 ≡ ok tt)
    × (any_row (λ row. row.id == 70) (delete_item 70 contributor approved_with_item).1.items
        ≡ false)
delete_item-ignores_lock_example =
    delete_item-ignores_lock 70 contributor approved_with_item
      (risk_item ProvenanceConfidence.user_confirmed) loaded_item
