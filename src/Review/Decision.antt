-- ===== src/Review/Decision.antt =====
-- The guards and the effect of a review (app/services/assessment_review_service.py).
use aigov.Gates.Treatment.{is_blank_or_none}
use aigov.Governance.{assert_distinct_workflow_actor}
use aigov.Governance.Actors.{assert_distinct_workflow_actor-ok_iff}
use aigov.Model.Enums.Assessment.{
  AssessmentStatus, ReviewDecision, assessment_status_eq, review_decision_eq, review_decision_value,
}
use aigov.Model.Rows.Assessment.{Assessment}
use aigov.Model.Rows.Lifecycle.{Detail}
use aigov.Model.Session.{Session, TenantContext}
use aigov.Prelude.{
  Bool, List, Option, Result, String, [], and_then, and_then-ok, ap, arith, err, false, guard-ok,
  http, lit, not, ok, ok_eq, pure, refl, some, some_eq, sym, true, ℕ, ◌&&◌, ◌+◌, ◌==◌, ◌∙◌, ◌∷◌,
  ◌≡◌, ◌≢◌,
}
use aigov.Review.{
  add_review, after_decision, approved_values, decide, expected_in_review, load_assessment,
  record_review, stage_event, with_status,
}
use aigov.Review.Cycle.{load_assessment-get_assessment}
use aigov.Review.Locking.{HasKeys, conditional_status_update-Updated}

abbrev pub decided_status : ReviewDecision → AssessmentStatus
decided_status ReviewDecision.approved = AssessmentStatus.approved
decided_status ReviewDecision.changes_requested = AssessmentStatus.draft

-- What a review that returned has passed, and what it has made of the assessment.
pub record Reviewed (id : ℕ) (decision : ReviewDecision) (remark : Option String) (expected : ℕ)
    (ctx : TenantContext) (db : Session) (b : Assessment) : Type 0 where
  pub a : Assessment
  pub loaded : load_assessment id ctx db ≡ ok a
  pub not_own : a.submitted_by_user_id ≢ some ctx.user_id
  pub in_review : a.status ≡ AssessmentStatus.in_review
  pub noted : (decision == ReviewDecision.changes_requested && is_blank_or_none remark) ≡ false
  pub unlocked : a.lock_version ≡ expected
  pub status : b.status ≡ decided_status decision
  pub version : b.lock_version ≡ expected + 1
  pub same_round : b.submission_round ≡ a.submission_round

-- The write of the decision, past the guards.
record Decided (decision : ReviewDecision) (expected : ℕ) (a b : Assessment) : Type 0 where
  unlocked : a.lock_version ≡ expected
  status : b.status ≡ decided_status decision
  version : b.lock_version ≡ expected + 1
  same_round : b.submission_round ≡ a.submission_round

decide-Decided :
    (decision : ReviewDecision) (id : ℕ) (a b : Assessment) (ctx : TenantContext) (expected now : ℕ)
    (db : Session)
    → HasKeys db
    → load_assessment id ctx db ≡ ok a
    → (decide decision a ctx expected now db).0 ≡ ok b
    → Decided decision expected a b
unfolding decide
decide-Decided ReviewDecision.approved id a b ctx expected now db keys loaded h =
    let u' =
      conditional_status_update-Updated a ctx expected (AssessmentStatus.in_review ∷ [])
        (approved_values ctx.user_id now) (λ r. refl) db keys b h in
    let same : u'.row ≡ a =
      some_eq (sym u'.found ∙ load_assessment-get_assessment id ctx db a keys loaded) in
    record {
      unlocked = rw (sym same) u'.applies.unlocked;
      status = rw u'.returned refl;
      version = rw (u'.returned, u'.applies.unlocked) refl;
      same_round = rw (u'.returned, same) refl;
    }
decide-Decided ReviewDecision.changes_requested id a b ctx expected now db keys loaded h =
    let u' =
      conditional_status_update-Updated a ctx expected (AssessmentStatus.in_review ∷ [])
        (with_status AssessmentStatus.draft) (λ r. refl) db keys b h in
    let same : u'.row ≡ a =
      some_eq (sym u'.found ∙ load_assessment-get_assessment id ctx db a keys loaded) in
    record {
      unlocked = rw (sym same) u'.applies.unlocked;
      status = rw u'.returned refl;
      version = rw (u'.returned, u'.applies.unlocked) refl;
      same_round = rw (u'.returned, same) refl;
    }

pure_last :
    {v b : Assessment} (x : Result (Unit {0}) × Session)
    → (and_then (λ _. pure v) x).0 ≡ ok b
    → v ≡ b
pure_last (ok a, s) h = ok_eq h
pure_last (err e, s) h = cc

-- What follows the write of the decision returns the assessment that it has written.
recorded :
    (decision : ReviewDecision) (remark : Option String) (ctx : TenantContext) (round : ℕ)
    (detail : List (String × Detail)) (updated b : Assessment) (db : Session)
    → (and_then
        (λ _. pure updated)
        (after_decision decision updated ctx
          (stage_event ctx "assessment.review_recorded" updated.id detail
            (add_review ctx updated decision remark round db).1).1)).0
      ≡ ok b
    → updated ≡ b
recorded decision remark ctx round detail updated b db h =
    pure_last
      (after_decision decision updated ctx
        (stage_event ctx "assessment.review_recorded" updated.id detail
          (add_review ctx updated decision remark round db).1).1)
      h

negated : (b : Bool) → not b ≡ true → b ≡ false
negated b h = ground arith

-- Ids of assessments being unique: a review that returns was made on an assessment of the own
-- tenant that was in review with the expected lock version, by somebody who had not submitted it,
-- and with a note where changes were requested; the assessment is then approved or a draft, by the
-- decision, in the same round and with the next lock version.
pub record_review-Reviewed :
    (id : ℕ) (decision : ReviewDecision) (remark : Option String) (expected : ℕ)
    (ctx : TenantContext) (db : Session) (b : Assessment)
    → HasKeys db
    → (record_review id decision remark expected ctx db).0 ≡ ok b
    → Reviewed id decision remark expected ctx db b
unfolding record_review
record_review-Reviewed id decision remark expected ctx db b keys h =
    let (a, loaded, h1) = and_then-ok _ (load_assessment id ctx db) db h in
    let (_, distinct, h2) =
      and_then-ok _
        (assert_distinct_workflow_actor ctx.user_id (a.submitted_by_user_id ∷ []) "review") db h1 in
    let (in_review, h3) =
      guard-ok _ (a.status == AssessmentStatus.in_review) (expected_in_review a) db h2 in
    let (noted, h4) =
      guard-ok _ (not (decision == ReviewDecision.changes_requested && is_blank_or_none remark))
        (http 422 (lit "note is required when requesting changes" ∷ [])) db h3 in
    let written = decide decision a ctx expected db.now db in
    let (updated, done, h5) = and_then-ok _ written.0 written.1 h4 in
    let now = decide-Decided decision id a updated ctx expected db.now db keys loaded done in
    let detail =
      ("decision", Detail.text (review_decision_value decision))
      ∷ ("submission_round", Detail.num a.submission_round)
      ∷ [] in
    let same : updated ≡ b =
      recorded decision remark ctx a.submission_round detail updated b written.1 h5 in
    record {
      a = a;
      loaded = loaded;
      not_own =
          ((assert_distinct_workflow_actor-ok_iff ctx.user_id (a.submitted_by_user_id ∷ [])
              "review").0
            distinct).0;
      in_review = (assessment_status_eq.beq_iff a.status AssessmentStatus.in_review).0 in_review;
      noted = negated _ noted;
      unlocked = now.unlocked;
      status = ap (λ x. x.status) (sym same) ∙ now.status;
      version = ap (λ x. x.lock_version) (sym same) ∙ now.version;
      same_round = ap (λ x. x.submission_round) (sym same) ∙ now.same_round;
    }
