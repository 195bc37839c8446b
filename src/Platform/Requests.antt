-- ===== src/Platform/Requests.antt =====
-- The requests of app/services/assessment_review_service.py and
-- app/services/authorisation_service.py, on a lawful session.
use aigov.Lifecycle.Kept.{advance_use_case-Keeps}
use aigov.Model.Enums.Assessment.{AssessmentStatus, ReviewDecision}
use aigov.Model.Rows.Assessment.{Assessment}
use aigov.Model.Rows.Lifecycle.{Detail}
use aigov.Model.Session.{Session, TenantContext}
use aigov.Platform.Lawful.{IsLawful, IsLawful-same, IsLawful-step}
use aigov.Prelude.{
  Exec, Keeps, List, Option, String, any_row, err, keeps_rules, kept_if, refl, ℕ, ◌≡◌,
}
use aigov.Review.{
  add_review, after_decision, decide, record_review, reopen, stage_event, submit_for_review,
}
use aigov.Review.Update.{
  apply_update, conditional_status_update, refresh, update_applies, update_error,
}

-- A write that leaves the three tables alone.
pub only_other_tables :
    {A : Type 0} (m : Exec Session A)
    → ((db : Session) → (m db).1.use_cases ≡ db.use_cases)
    → ((db : Session) → (m db).1.transitions ≡ db.transitions)
    → ((db : Session) → (m db).1.authorisations ≡ db.authorisations)
    → Keeps IsLawful m
only_other_tables m e f g = record { at = λ db. IsLawful-same db (m db).1 (e db) (f db) (g db) }

stage_event-Keeps :
    (ctx : TenantContext) (action : String) (id : ℕ) (detail : List (String × Detail))
    → Keeps IsLawful (stage_event ctx action id detail)
stage_event-Keeps ctx action id detail =
    only_other_tables (stage_event ctx action id detail) (λ db. refl) (λ db. refl) (λ db. refl)

add_review-Keeps :
    (ctx : TenantContext) (a : Assessment) (decision : ReviewDecision) (remark : Option String)
    (round : ℕ)
    → Keeps IsLawful (add_review ctx a decision remark round)
add_review-Keeps ctx a decision remark round =
    only_other_tables (add_review ctx a decision remark round) (λ db. refl) (λ db. refl)
      (λ db. refl)

conditional_status_update-Keeps :
    (a : Assessment) (ctx : TenantContext) (expected : ℕ) (from_statuses : List AssessmentStatus)
    (values : Assessment → Assessment)
    → Keeps IsLawful (conditional_status_update a ctx expected from_statuses values)
unfolding conditional_status_update
conditional_status_update-Keeps a ctx expected from_statuses values = record {
  at = λ db h.
      kept_if IsLawful (any_row (update_applies a ctx expected from_statuses) db.assessments)
        (
          refresh a (apply_update a ctx expected from_statuses values db),
          apply_update a ctx expected from_statuses values db,
        )
        (err (update_error expected from_statuses (refresh a db)), db)
        (IsLawful-same db (apply_update a ctx expected from_statuses values db) refl refl refl h) h;
}

ruleset request_rules =
    (keeps_rules, stage_event-Keeps, add_review-Keeps, conditional_status_update-Keeps)

pub submit_for_review-Keeps :
    (id expected : ℕ) (ctx : TenantContext) → Keeps IsLawful (submit_for_review id expected ctx)
unfolding submit_for_review
submit_for_review-Keeps id expected ctx = search request_rules depth 20

pub reopen-Keeps : (id expected : ℕ) (ctx : TenantContext) → Keeps IsLawful (reopen id expected ctx)
unfolding reopen
reopen-Keeps id expected ctx = search request_rules

decide-Keeps :
    (decision : ReviewDecision) (a : Assessment) (ctx : TenantContext) (expected now : ℕ)
    → Keeps IsLawful (decide decision a ctx expected now)
unfolding decide
decide-Keeps ReviewDecision.approved a ctx expected now = search request_rules
decide-Keeps ReviewDecision.changes_requested a ctx expected now = search request_rules

after_decision-Keeps :
    (decision : ReviewDecision) (a : Assessment) (ctx : TenantContext)
    → Keeps IsLawful (after_decision decision a ctx)
unfolding after_decision
after_decision-Keeps ReviewDecision.approved a ctx =
    let advance = advance_use_case-Keeps IsLawful IsLawful-step in search (request_rules, advance)
after_decision-Keeps ReviewDecision.changes_requested a ctx = search request_rules

pub record_review-Keeps :
    (id : ℕ) (decision : ReviewDecision) (remark : Option String) (expected : ℕ)
    (ctx : TenantContext)
    → Keeps IsLawful (record_review id decision remark expected ctx)
unfolding record_review
record_review-Keeps id decision remark expected ctx =
    search (request_rules, decide-Keeps, after_decision-Keeps) depth 24
