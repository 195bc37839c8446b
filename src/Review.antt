-- ===== src/Review.antt =====
-- Submission, review and reopening of assessments (app/services/assessment_review_service.py).
pub mod Update
pub mod Locking
pub mod Cycle
pub mod Reopening
pub mod Decision
pub mod Queue
pub mod InOrder
pub mod Awaiting
use aigov.Gates.Structure.{advances, structural_assessment_readiness}
use aigov.Gates.Treatment.{is_blank_or_none, treatment_gate}
use aigov.Gates.Verdict.{GateResult}
use aigov.Governance.{assert_distinct_workflow_actor}
use aigov.Lifecycle.Advance.{advance_use_case}
use aigov.Model.Enums.Assessment.{
  AssessmentStatus, ReviewDecision, assessment_status_eq, assessment_status_value,
  review_decision_eq, review_decision_value,
}
use aigov.Model.Rows.Assessment.{Assessment}
use aigov.Model.Rows.Domain.{UseCase}
use aigov.Model.Rows.Lifecycle.{Detail}
use aigov.Model.Session.{Session, TenantContext, get_use_case}
use aigov.Prelude.{
  Error, Exec, List, Option, Result, String, [], attribute_error, find?, gets, guard, http, lift,
  lit, nat_eq, not, ok, or_error, pure, read, some, ℕ, ◌&&◌, ◌++◌, ◌+◌, ◌==◌, ◌>>=◌, ◌>>◌, ◌∷◌,
}
use aigov.Review.Update.{conditional_status_update}

-- `load_assessment` of app/services/assessment_service.py.
unfoldable pub load_assessment : ℕ → TenantContext → Session → Result Assessment
load_assessment assessment_id ctx db =
    or_error (http 404 (lit "Assessment not found" ∷ []))
      (find? (λ row. row.id == assessment_id && row.tenant_id == ctx.tenant_id) db.assessments)

-- `db.get(UseCase, assessment.use_case_id)`: the gates would fail on None.
unfoldable pub use_case_of : Assessment → Session → Result UseCase
use_case_of a db = or_error attribute_error (get_use_case db a.use_case_id)

-- `raise HTTPException(409, detail=gate.reason)` unless the gate advances.
abbrev pub require_gate : GateResult → Exec Session (Unit {0})
require_gate gate = guard (advances gate) (http 409 gate.reason)

abbrev pub stage_event :
    TenantContext → String → ℕ → List (String × Detail) → Exec Session (Unit {0})
stage_event ctx action assessment_id detail db = (
  ok tt,
  record db {
    audit_events =
        db.audit_events
        ++ record {
          id = db.uuids db.drawn;
          tenant_id = ctx.tenant_id;
          actor_user_id = ctx.user_id;
          action = action;
          entity_type = "assessment";
          entity_id = assessment_id;
          detail = detail;
        }
          ∷ [];
    drawn = db.drawn + 1;
  },
)

abbrev pub submittable_statuses : List AssessmentStatus
submittable_statuses = AssessmentStatus.draft ∷ AssessmentStatus.needs_refresh ∷ []

abbrev pub submitted_values : ℕ → ℕ → ℕ → Assessment → Assessment
submitted_values round user_id now a = record a {
  status = AssessmentStatus.in_review;
  submission_round = round;
  submitted_by_user_id = some user_id;
  submitted_at = some now;
}

abbrev pub approved_values : ℕ → ℕ → Assessment → Assessment
approved_values user_id now a = record a {
  status = AssessmentStatus.approved;
  approved_by_user_id = some user_id;
  approved_at = some now;
}

abbrev pub with_status : AssessmentStatus → Assessment → Assessment
with_status s a = record a { status = s }

unfoldable pub submit_for_review : ℕ → ℕ → TenantContext → Exec Session Assessment
unfolding conditional_status_update
submit_for_review assessment_id expected_lock_version ctx = do
  assessment ← read (load_assessment assessment_id ctx)
  use_case ← read (use_case_of assessment)
  structural ← gets (structural_assessment_readiness use_case)
  require_gate structural
  treatment ← gets (treatment_gate use_case)
  require_gate treatment
  now ← gets (λ db. db.now)
  updated ←
      conditional_status_update assessment ctx expected_lock_version submittable_statuses
        (submitted_values (assessment.submission_round + 1) ctx.user_id now)
  stage_event ctx "assessment.submitted" updated.id
      (("submission_round", Detail.num (assessment.submission_round + 1)) ∷ [])
  pure updated

abbrev pub expected_in_review : Assessment → Error
expected_in_review a = http 409 (
    lit "Assessment status is "
    ∷ lit (assessment_status_value a.status)
    ∷ lit "; expected in_review"
    ∷ [])

-- The write of the decision on the assessment itself.
unfoldable pub decide :
    ReviewDecision → Assessment → TenantContext → ℕ → ℕ → Exec Session Assessment
unfolding conditional_status_update
decide ReviewDecision.approved assessment ctx expected_lock_version now =
    conditional_status_update assessment ctx expected_lock_version (AssessmentStatus.in_review ∷ [])
      (approved_values ctx.user_id now)
decide ReviewDecision.changes_requested assessment ctx expected_lock_version now =
    conditional_status_update assessment ctx expected_lock_version (AssessmentStatus.in_review ∷ [])
      (with_status AssessmentStatus.draft)

-- `db.add(AssessmentReview(...))`
abbrev pub add_review :
    TenantContext → Assessment → ReviewDecision → Option String → ℕ → Exec Session (Unit {0})
add_review ctx a decision note round db = (
  ok tt,
  record db {
    reviews =
        db.reviews
        ++ record {
          id = db.uuids db.drawn;
          tenant_id = ctx.tenant_id;
          assessment_id = a.id;
          reviewer_user_id = ctx.user_id;
          decision = decision;
          note = note;
          submission_round = round;
        }
          ∷ [];
    drawn = db.drawn + 1;
  },
)

-- An approval drives the use case on in the same transaction; its result is not used.
unfoldable pub after_decision :
    ReviewDecision → Assessment → TenantContext → Exec Session (Unit {0})
unfolding advance_use_case
after_decision ReviewDecision.approved a ctx = do
  use_case ← read (use_case_of a)
  advance_use_case use_case ctx.user_id
  pure tt
after_decision ReviewDecision.changes_requested a ctx = pure tt

unfoldable pub record_review :
    ℕ → ReviewDecision → Option String → ℕ → TenantContext → Exec Session Assessment
unfolding decide after_decision
record_review assessment_id decision note expected_lock_version ctx = do
  assessment ← read (load_assessment assessment_id ctx)
  lift (assert_distinct_workflow_actor ctx.user_id (assessment.submitted_by_user_id ∷ []) "review")
  guard (assessment.status == AssessmentStatus.in_review) (expected_in_review assessment)
  guard (not (decision == ReviewDecision.changes_requested && is_blank_or_none note))
      (http 422 (lit "note is required when requesting changes" ∷ []))
  now ← gets (λ db. db.now)
  updated ← decide decision assessment ctx expected_lock_version now
  add_review ctx updated decision note assessment.submission_round
  stage_event ctx "assessment.review_recorded" updated.id (
      ("decision", Detail.text (review_decision_value decision))
      ∷ ("submission_round", Detail.num assessment.submission_round)
      ∷ [])
  after_decision decision updated ctx
  pure updated

unfoldable pub reopen : ℕ → ℕ → TenantContext → Exec Session Assessment
unfolding conditional_status_update
reopen assessment_id expected_lock_version ctx = do
  assessment ← read (load_assessment assessment_id ctx)
  updated ←
      conditional_status_update assessment ctx expected_lock_version
        (AssessmentStatus.approved ∷ []) (with_status AssessmentStatus.needs_refresh)
  stage_event ctx "assessment.reopened" updated.id []
  stage_event ctx "assessment.needs_refresh" updated.id []
  pure updated
