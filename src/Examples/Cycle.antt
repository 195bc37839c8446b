-- ===== src/Examples/Cycle.antt =====
-- app/services/assessment_review_service.py at work on the small tenant.
use aigov.Examples.World.{aiia_in, cleared, use_case_in}
use aigov.Gates.Authorisation.{authorises}
use aigov.Gates.Feeders.{feeder_recommendations_for}
use aigov.Gates.Readiness.{classification_readiness}
use aigov.Gates.Structure.{structural_assessment_readiness}
use aigov.Gates.Treatment.{is_blank, treatment_gate}
use aigov.Governance.{assert_distinct_workflow_actor}
use aigov.Lifecycle.Arrival.{Moved, Succeeds}
use aigov.Lifecycle.ReEvaluate.{re_evaluate}
use aigov.Model.Enums.Assessment.{
  AssessmentStatus, AssessmentType, ReviewDecision, assessment_status_eq, assessment_type_eq,
}
use aigov.Model.Enums.Lifecycle.{LifecycleState}
use aigov.Model.Rows.Assessment.{Assessment}
use aigov.Model.Session.{Session, TenantContext}
use aigov.Prelude.{
  Exec, [], any_row, err, false, is_none, map, nat_eq, none, ok, refl, some, ◌&&◌, ◌==◌, ◌∷◌, ◌≡◌,
}
use aigov.Review.{
  load_assessment, record_review, reopen, submit_for_review, submittable_statuses, submitted_values,
  use_case_of, with_status,
}
use aigov.Review.Awaiting.{is_submitted_by_other, list_review_queue-awaits_review}
use aigov.Review.Cycle.{Submitted, submit_for_review-Submitted, submit_for_review-outdates}
use aigov.Review.Decision.{Reviewed, record_review-Reviewed}
use aigov.Review.InOrder.{AreInOrder}
use aigov.Review.Locking.{conditional_status_update-Exclusive}
use aigov.Review.Queue.{list_review_queue}
use aigov.Review.Reopening.{needs_refresh_values, reopen-regresses}
use aigov.Review.Update.{bumped, conditional_status_update, stale_if_match}

abbrev owner : TenantContext
owner = record { user_id = 2; membership_id = 22; tenant_id = 1; role = "member" }

-- The AIIA is a draft.
abbrev drafted : Session
drafted = record (cleared LifecycleState.under_assessment) {
  assessments = aiia_in AssessmentStatus.draft ∷ [];
}

abbrev submit_update : Exec Session Assessment
submit_update =
    conditional_status_update (aiia_in AssessmentStatus.draft) owner 4 submittable_statuses
      (submitted_values 2 2 100)

abbrev submitted_aiia : Assessment
submitted_aiia = bumped (submitted_values 2 2 100) (aiia_in AssessmentStatus.draft)

submit_update-returns : (submit_update drafted).0 ≡ ok submitted_aiia
unfolding conditional_status_update
submit_update-returns = refl

conditional_status_update-Exclusive_example :
    conditional_status_update
      (aiia_in AssessmentStatus.draft)
      owner
      4
      submittable_statuses
      (submitted_values 2 9 100)
      (submit_update drafted).1
    ≡ (err stale_if_match, (submit_update drafted).1)
conditional_status_update-Exclusive_example =
    conditional_status_update-Exclusive (aiia_in AssessmentStatus.draft) owner 4
      submittable_statuses (submitted_values 2 2 100) (λ r. refl) drafted (tt, tt) submitted_aiia
      submit_update-returns (aiia_in AssessmentStatus.draft) owner submittable_statuses
      (submitted_values 2 9 100) refl

submit-returns : (submit_for_review 40 4 owner drafted).0 ≡ ok submitted_aiia
unfolding submit_for_review load_assessment use_case_of structural_assessment_readiness
    treatment_gate feeder_recommendations_for
submit-returns = refl

submit_for_review-Submitted_example :
    Submitted 40 4 owner drafted submitted_aiia (submit_for_review 40 4 owner drafted).1
submit_for_review-Submitted_example =
    submit_for_review-Submitted 40 4 owner drafted submitted_aiia (tt, tt) submit-returns

loaded_draft : load_assessment 40 owner drafted ≡ ok (aiia_in AssessmentStatus.draft)
unfolding load_assessment
loaded_draft = refl

submit_for_review-outdates_example :
    any_row
      (authorises (use_case_in LifecycleState.under_assessment) 2)
      (submit_for_review 40 4 owner drafted).1.authorisations
    ≡ false
submit_for_review-outdates_example =
    submit_for_review-outdates 40 4 owner drafted (aiia_in AssessmentStatus.draft) submitted_aiia
      (use_case_in LifecycleState.under_assessment) (tt, tt) loaded_draft tt submit-returns

abbrev deployed : Session
deployed = cleared LifecycleState.authorised

abbrev reopened_aiia : Assessment
reopened_aiia = bumped needs_refresh_values (aiia_in AssessmentStatus.approved)

reopen-returns : (reopen 40 4 owner deployed).0 ≡ ok reopened_aiia
unfolding reopen load_assessment
reopen-returns = refl

loaded_approved : load_assessment 40 owner deployed ≡ ok (aiia_in AssessmentStatus.approved)
unfolding load_assessment
loaded_approved = refl

reopen-regresses_example :
    Succeeds
      (re_evaluate (use_case_in LifecycleState.authorised) 2)
      (reopen 40 4 owner deployed).1
      (Moved
        (use_case_in LifecycleState.authorised)
        (reopen 40 4 owner deployed).1
        LifecycleState.held)
unfolding classification_readiness
reopen-regresses_example =
    reopen-regresses 40 4 owner deployed (aiia_in AssessmentStatus.approved) reopened_aiia
      (use_case_in LifecycleState.authorised) 2 (tt, tt) loaded_approved refl reopen-returns refl
      refl refl

abbrev reviewer : TenantContext
reviewer = record { user_id = 3; membership_id = 23; tenant_id = 1; role = "member" }

-- The AIIA is in review, submitted by the owner.
abbrev in_review : Session
in_review = record (cleared LifecycleState.under_assessment) {
  assessments = aiia_in AssessmentStatus.in_review ∷ [];
}

abbrev returned_aiia : Assessment
returned_aiia = bumped (with_status AssessmentStatus.draft) (aiia_in AssessmentStatus.in_review)

review-returns :
    (record_review 40 ReviewDecision.changes_requested
      (some "Treat the bias risk")
      4
      reviewer
      in_review).0
    ≡ ok returned_aiia
unfolding record_review load_assessment assert_distinct_workflow_actor is_blank
review-returns = refl

record_review-Reviewed_example :
    Reviewed 40 ReviewDecision.changes_requested
      (some "Treat the bias risk")
      4
      reviewer
      in_review
      returned_aiia
record_review-Reviewed_example =
    record_review-Reviewed 40 ReviewDecision.changes_requested (some "Treat the bias risk") 4
      reviewer in_review returned_aiia (tt, tt) review-returns

-- The submitter is a member, and a user without a name.
abbrev queued : Session
queued = record in_review {
  users = record { id = 2; email = "owner@tenant"; display_name = none } ∷ [];
  memberships = record { id = 22; user_id = 2; tenant_id = 1 } ∷ [];
}

list_review_queue-awaits_review_example :
    (any_row (λ e. e.assessment_id == 40) (list_review_queue reviewer queued)
      ≡ any_row
          (λ a.
            a.id == 40
            && a.tenant_id == reviewer.tenant_id
            && a.type == AssessmentType.aiia
            && is_none a.parent_aiia_id
            && a.status == AssessmentStatus.in_review
            && is_submitted_by_other reviewer queued a)
          queued.assessments)
    × AreInOrder (list_review_queue reviewer queued)
list_review_queue-awaits_review_example = list_review_queue-awaits_review reviewer queued 40

shown_email :
    map (λ e. e.submitted_by_email) (list_review_queue reviewer queued) ≡ "owner@tenant" ∷ []
unfolding list_review_queue
shown_email = refl
