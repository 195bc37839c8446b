-- ===== src/Review/Awaiting.antt =====
-- Who is in the queue of `list_review_queue` (app/services/assessment_review_service.py).
use aigov.Model.Enums.Assessment.{
  AssessmentStatus, AssessmentType, assessment_status_eq, assessment_type_eq,
}
use aigov.Model.Rows.Assessment.{Assessment}
use aigov.Model.Rows.Lifecycle.{Membership}
use aigov.Model.Session.{Session, TenantContext}
use aigov.Prelude.{
  Bool, List, Option, [], any_row, any_row-congr, arith, false, holds, is_none, join_rows, nat_eq,
  none, not, refl, some, sym, ℕ, ◌&&◌, ◌==◌, ◌∙◌, ◌∷◌, ◌≡◌,
}
use aigov.Review.InOrder.{AreInOrder, by_submission-AreInOrder}
use aigov.Review.Queue.{
  has_submitter, is_by_another, is_queued, list_review_queue, list_review_queue-is_queued,
  queue_entries,
}

-- A member of the tenant other than the caller, with a user, has submitted the assessment.
abbrev pub is_submitted_by_other : TenantContext → Session → Assessment → Bool
is_submitted_by_other ctx db a =
    any_row
      (λ m.
        holds a.submitted_by_user_id m.user_id
        && m.tenant_id == ctx.tenant_id
        && not (m.user_id == ctx.user_id)
        && any_row (λ u. u.id == m.user_id) db.users)
      db.memberships

no_holder :
    (q : Membership → Bool) (rows : List Membership)
    → any_row (λ m. holds none m.user_id && q m) rows ≡ false
no_holder q [] = refl
no_holder q (m ∷ rows) = no_holder q rows

and_false : (a : Bool) → (a && false) ≡ false
and_false a = ground arith

other_submitter :
    (ctx : TenantContext) (db : Session) (submitter : Option ℕ) (rows : List Membership)
    → (is_by_another ctx submitter
        && any_row
            (λ m.
              (holds submitter m.user_id && m.tenant_id == ctx.tenant_id)
              && any_row (λ u. u.id == m.user_id) db.users)
            rows)
      ≡ any_row
          (λ m.
            holds submitter m.user_id
            && m.tenant_id == ctx.tenant_id
            && not (m.user_id == ctx.user_id)
            && any_row (λ u. u.id == m.user_id) db.users)
          rows
other_submitter ctx db none rows = sym (
    no_holder
      (λ m.
        m.tenant_id == ctx.tenant_id
        && not (m.user_id == ctx.user_id)
        && any_row (λ u. u.id == m.user_id) db.users)
      rows)
other_submitter ctx db (some user_id) [] = and_false (not (user_id == ctx.user_id))
other_submitter ctx db (some user_id) (m ∷ rows) =
    let rest = other_submitter ctx db (some user_id) rows in ground arith

each_row :
    (ctx : TenantContext) (db : Session) (id : ℕ) (a : Assessment)
    → (is_queued ctx a && has_submitter ctx db a && (a.id == id)) ≡ (
        a.id == id
        && a.tenant_id == ctx.tenant_id
        && a.type == AssessmentType.aiia
        && is_none a.parent_aiia_id
        && a.status == AssessmentStatus.in_review
        && is_submitted_by_other ctx db a)
unfolding is_queued
each_row ctx db id a =
    let others = other_submitter ctx db a.submitted_by_user_id db.memberships in ground arith

-- The queue has an entry for an id exactly when there is an AIIA of the caller's tenant with that id,
-- of no parent, that is in review and was submitted by a member of the tenant, other than the caller,
-- who has a user. The entries come in the order of their submission, and those without an instant
-- come last.
pub list_review_queue-awaits_review :
    (ctx : TenantContext) (db : Session) (id : ℕ)
    → (any_row (λ e. e.assessment_id == id) (list_review_queue ctx db)
        ≡ any_row
            (λ a.
              a.id == id
              && a.tenant_id == ctx.tenant_id
              && a.type == AssessmentType.aiia
              && is_none a.parent_aiia_id
              && a.status == AssessmentStatus.in_review
              && is_submitted_by_other ctx db a)
            db.assessments)
      × AreInOrder (list_review_queue ctx db)
unfolding list_review_queue
list_review_queue-awaits_review ctx db id = (
  list_review_queue-is_queued ctx db id
      ∙ any_row-congr _ _ db.assessments (λ a. each_row ctx db id a),
  by_submission-AreInOrder (join_rows (queue_entries ctx db) db.assessments),
)
