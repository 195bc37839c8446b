-- ===== src/Examples/Authoring.antt =====
-- The authoring of the small tenant's AIIA (app/services/assessment_service.py).
use aigov.Authoring.Amend.{AssessmentItemAmend, Synchronised, amend_item, amended}
use aigov.Authoring.Amended.{Amended, amend_item-Amended}
use aigov.Authoring.Creation.{create_aiia}
use aigov.Authoring.Deletion.{delete_assessment}
use aigov.Authoring.Feeders.{create_feeder}
use aigov.Authoring.Intact.{IsIntact}
use aigov.Authoring.Links.{create_control_link, delete_control_link, new_control_link}
use aigov.Authoring.Prefill.{HasUnusedSupply}
use aigov.Authoring.Recreate.{delete_assessment-create_aiia}
use aigov.Authoring.RoundTrip.{delete_control_link-create_control_link}
use aigov.Authoring.Rows.{new_assessment}
use aigov.Authoring.Runs.{AuthoringRequest, AuthoringRun, AuthoringRun-IsIntact}
use aigov.Examples.Items.{contributor, risk_item}
use aigov.Examples.World.{aiia_in, cleared}
use aigov.Gates.Feeders.{feeder_recommendations_for}
use aigov.Gates.Readiness.{classification_readiness}
use aigov.Gates.Structure.{assessment_approved, assessment_gate, structural_assessment_readiness}
use aigov.Items.{delete_item}
use aigov.Lifecycle.Advance.{advance_loop, gate_for_state}
use aigov.Model.Enums.Assessment.{
  AssessmentStatus, AssessmentType, ProvenanceConfidence, SectionApplicability, TreatmentDecision,
}
use aigov.Model.Enums.Knowledge.{CoverageStatus, RiskLayer}
use aigov.Model.Enums.Lifecycle.{EuAiActTier, LifecycleState}
use aigov.Model.Rows.Assessment.{Assessment, AssessmentItem}
use aigov.Model.Rows.Knowledge.{AssessmentSectionTemplate}
use aigov.Model.Session.{Session}
use aigov.Prelude.{
  IsKeyedBy, String, [], arith, lit, nat_eq, none, ok, refl, some, true, ℕ, ◌∷◌, ◌≡◌,
}

abbrev template_of : String → SectionApplicability → ℕ → AssessmentSectionTemplate
template_of key applicability sort_order = record {
  type = AssessmentType.aiia;
  tier = EuAiActTier.minimal;
  section_key = key;
  title = key;
  applicability = applicability;
  prompt = some (lit key ∷ []);
  iso_42005_clause = none;
  aiia_target_section_key = none;
  sort_order = sort_order;
}

-- The use case has no AIIA yet; another use case has one, with an item.
abbrev unassessed : Session
unassessed = record (cleared LifecycleState.under_assessment) {
  assessments = record (aiia_in AssessmentStatus.approved) { use_case_id = 8 } ∷ [];
  items = risk_item ProvenanceConfidence.user_confirmed ∷ [];
  section_templates =
      template_of "risk_identification" SectionApplicability.required 3
      ∷ template_of "system_overview" SectionApplicability.required 1
      ∷ [];
  risks =
      record { id = 80; layer = RiskLayer.governance_rights }
      ∷ record { id = 81; layer = RiskLayer.technical_security }
      ∷ [];
}

abbrev created : Assessment
created = new_assessment 1000 contributor 7 AssessmentType.aiia EuAiActTier.minimal 1

unassessed-HasUnusedSupply : HasUnusedSupply unassessed
unassessed-HasUnusedSupply = λ n h. record {
  no_assessment = ground arith;
  no_item = ground arith;
  no_review = refl;
  no_authorisation = refl;
  no_control_link = refl;
  no_evidence_link = refl;
  no_feeder = refl;
}

create-returns : (create_aiia 7 contributor unassessed).0 ≡ ok created
unfolding create_aiia
create-returns = refl

delete_assessment-create_aiia_example :
    let after = (create_aiia 7 contributor unassessed).1 in
    ((delete_assessment 1000 contributor after).0 ≡ ok tt)
    × ((delete_assessment 1000 contributor after).1.assessments ≡ unassessed.assessments)
    × ((delete_assessment 1000 contributor after).1.items ≡ unassessed.items)
delete_assessment-create_aiia_example =
    delete_assessment-create_aiia 7 contributor unassessed created unassessed-HasUnusedSupply
      create-returns

-- A draft with a curated item, and a control of the library.
abbrev drafted : Session
drafted = record (cleared LifecycleState.under_assessment) {
  assessments = aiia_in AssessmentStatus.draft ∷ [];
  items = risk_item ProvenanceConfidence.catalogue_curated ∷ [];
  controls = record { id = 300; code = "C"; title = "Control" } ∷ [];
  item_controls =
      record {
        id = 200;
        tenant_id = 1;
        item_id = 71;
        control_id = 300;
        coverage = CoverageStatus.partial;
      }
      ∷ [];
}

link-returns :
    (create_control_link 70 300 CoverageStatus.satisfied contributor drafted).0
    ≡ ok (new_control_link contributor 70 300 CoverageStatus.satisfied 1000)
unfolding create_control_link
link-returns = refl

delete_control_link-create_control_link_example :
    let linked = (create_control_link 70 300 CoverageStatus.satisfied contributor drafted).1 in
    ((delete_control_link 1000 contributor linked).0 ≡ ok tt)
    × ((delete_control_link 1000 contributor linked).1.item_controls ≡ drafted.item_controls)
delete_control_link-create_control_link_example =
    delete_control_link-create_control_link 70 300 CoverageStatus.satisfied contributor drafted
      (new_control_link contributor 70 300 CoverageStatus.satisfied 1000) refl link-returns

-- An answer and a treatment in one patch.
abbrev answer : AssessmentItemAmend
answer = record {
  response = some "None";
  likelihood = none;
  severity = some 2;
  residual_likelihood = none;
  residual_severity = none;
  mitigation_plan = none;
  treatment_decision = some TreatmentDecision.accept;
  treatment_rationale = none;
}

abbrev as_written : Synchronised
as_written before after = after

abbrev answered : AssessmentItem
answered =
    amended answer (risk_item ProvenanceConfidence.catalogue_curated) true
      (risk_item ProvenanceConfidence.catalogue_curated)

amend-returns : (amend_item as_written 70 answer 0 contributor drafted).0 ≡ ok answered
unfolding amend_item classification_readiness advance_loop gate_for_state assessment_gate
    structural_assessment_readiness feeder_recommendations_for assessment_approved
amend-returns = refl

drafted-keyed : IsKeyedBy (λ row. row.id) drafted.items
drafted-keyed = (tt, tt)

amend_item-Amended_example :
    Amended 70 0 answer contributor drafted answered
      (amend_item as_written 70 answer 0 contributor drafted).1
amend_item-Amended_example =
    amend_item-Amended as_written 70 0 answer contributor drafted answered drafted-keyed
      amend-returns

unassessed-IsIntact : IsIntact unassessed
unassessed-IsIntact = record { apart = (tt, tt); anchored = (refl, tt) }

-- The AIIA is created, gets a feeder, loses it, and loses its item.
AuthoringRun-IsIntact_example :
    let scoped = (create_aiia 7 contributor unassessed).1 in
    let fed = (create_feeder 1000 AssessmentType.fria contributor scoped).1 in
    let removed = (delete_assessment 1000 contributor fed).1 in
    IsIntact (delete_item 70 contributor removed).1
AuthoringRun-IsIntact_example =
    AuthoringRun-IsIntact
      (AuthoringRun.and_next (AuthoringRequest.scopes 7 contributor) (
        AuthoringRun.and_next (AuthoringRequest.feeds 1000 AssessmentType.fria contributor) (
          AuthoringRun.and_next (AuthoringRequest.removes_assessment 1000 contributor) (
            AuthoringRun.and_next (AuthoringRequest.removes_item 70 contributor)
              AuthoringRun.at_rest))))
      unassessed-IsIntact
