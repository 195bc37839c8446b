-- ===== src/Examples/Duties.antt =====
-- app/services/governance.py and app/services/authorisation_service.py at work on the small tenant.
use aigov.Authorisation.{authorise_use_case, is_ready, load_current_aiia, load_use_case}
use aigov.Authorisation.Grant.{Cleared, Granted, authorise_use_case-Granted}
use aigov.Authorisation.Guards.{Authorisable, authorise_use_case-Cleared}
use aigov.Examples.World.{aiia_in, cleared, empty_session, use_case_in}
use aigov.Gates.Clearance.{product_gate, vendor_gate}
use aigov.Gates.Feeders.{feeder_recommendations_for}
use aigov.Gates.Readiness.{classification_readiness}
use aigov.Gates.Structure.{assessment_approved, assessment_gate, structural_assessment_readiness}
use aigov.Gates.Treatment.{treatment_gate}
use aigov.Governance.{assert_distinct_workflow_actor, assert_governance_assignable, held_role_ids}
use aigov.Governance.Actors.{assert_distinct_workflow_actor-ok_iff}
use aigov.Governance.Conflicts.{NoConflict, assert_governance_assignable-ok_iff}
use aigov.Lifecycle.Arrival.{Succeeds}
use aigov.Lifecycle.ReEvaluate.{full_vector}
use aigov.Model.Enums.Assessment.{AssessmentStatus}
use aigov.Model.Enums.Lifecycle.{LifecycleState}
use aigov.Model.Rows.Assessment.{Assessment}
use aigov.Model.Rows.Domain.{UseCase}
use aigov.Model.Session.{Session, TenantContext}
use aigov.Prelude.{All, Option, [], ap, arith, none, ok, refl, some, ℕ, ◌↔◌, ◌∷◌, ◌≡◌, ◌≢◌}

-- Membership 21 holds role 1, which conflicts with role 2.
abbrev with_conflict : Session
with_conflict = record empty_session {
  role_conflicts = record { role_a_id = 1; role_b_id = 2 } ∷ [];
  role_assignments =
      record { id = 60; tenant_id = 1; membership_id = 21; governance_role_id = 1 } ∷ [];
}

assert_governance_assignable-ok_iff_example :
    (assert_governance_assignable 20 21 2 with_conflict ≡ ok tt)
    ↔ (◌≢◌ {A = ℕ} 20 21 × NoConflict with_conflict 2 (held_role_ids with_conflict 21))
assert_governance_assignable-ok_iff_example =
    assert_governance_assignable-ok_iff 20 21 2 with_conflict (omega arith, tt)

assert_distinct_workflow_actor-ok_iff_example :
    (assert_distinct_workflow_actor 4 (some 3 ∷ none ∷ []) "authorise" ≡ ok tt)
    ↔ All (λ (o : Option ℕ). o ≢ some 4) (some 3 ∷ none ∷ [])
assert_distinct_workflow_actor-ok_iff_example =
    assert_distinct_workflow_actor-ok_iff 4 (some 3 ∷ none ∷ []) "authorise"

abbrev authoriser : TenantContext
authoriser = record { user_id = 4; membership_id = 24; tenant_id = 1; role = "admin" }

abbrev waiting : Session
waiting = cleared LifecycleState.pending_authorisation

guards_met :
    Cleared 7 authoriser waiting
      (use_case_in LifecycleState.pending_authorisation)
      (aiia_in AssessmentStatus.approved)
unfolding is_ready load_use_case load_current_aiia assert_distinct_workflow_actor
    classification_readiness full_vector vendor_gate product_gate assessment_gate treatment_gate
    structural_assessment_readiness assessment_approved feeder_recommendations_for
guards_met = record { loaded = refl; assessed = refl; ready = refl; distinct = refl }

authorise_use_case-Granted_example :
    Succeeds (authorise_use_case 7 "Residual risk accepted" authoriser) waiting (
      Granted
        (use_case_in LifecycleState.pending_authorisation)
        (aiia_in AssessmentStatus.approved)
        "Residual risk accepted"
        authoriser)
authorise_use_case-Granted_example =
    authorise_use_case-Granted 7 "Residual risk accepted" authoriser waiting
      (use_case_in LifecycleState.pending_authorisation) (aiia_in AssessmentStatus.approved)
      guards_met

authorise_use_case-Cleared_example :
    (u : UseCase) × (a : Assessment) × Authorisable 7 authoriser waiting u a
authorise_use_case-Cleared_example =
    authorise_use_case-Cleared 7 "Residual risk accepted" authoriser waiting
      authorise_use_case-Granted_example.result
      (ap (λ r. r.0) authorise_use_case-Granted_example.returns)
