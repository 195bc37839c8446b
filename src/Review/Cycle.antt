-- ===== src/Review/Cycle.antt =====
-- The submission cycle of app/services/assessment_review_service.py: what a submission does.
use aigov.Gates.Authorisation.{authorises}
use aigov.Gates.Structure.{advances, structural_assessment_readiness}
use aigov.Gates.Treatment.{treatment_gate}
use aigov.Gates.Verdict.{GateResult, Verdict, verdict_eq}
use aigov.Model.Enums.Assessment.{AssessmentStatus, assessment_status_eq}
use aigov.Model.Rows.Assessment.{Assessment}
use aigov.Model.Rows.Domain.{UseCase}
use aigov.Model.Rows.Lifecycle.{DeploymentAuthorisation}
use aigov.Model.Session.{Session, TenantContext, get_assessment}
use aigov.Prelude.{
  All, All-map, Bool-cases, List, [], and_then-ok, any_row, any_row-of_All, ap, arith, false, find?,
  find?-by_key, find?-holds, guard-ok, http, inl, inr, lit, nat_eq, ok, ok_eq, or_error-ok, refl,
  some, some_eq, sym, true, ℕ, ◌&&◌, ◌+◌, ◌==◌, ◌∙◌, ◌∷◌, ◌≡◌, ◌≤◌, ◌⊎◌,
}
use aigov.Review.{
  load_assessment, submit_for_review, submittable_statuses, submitted_values, use_case_of,
}
use aigov.Review.Locking.{HasKeys, conditional_status_update-Updated}
use aigov.Review.Update.{bumped, conditional_status_update}
use mathlib.Core.Path.{subst}

-- What a submission that returned has found and left.
pub record Submitted (assessment_id expected : ℕ) (ctx : TenantContext) (db : Session)
    (b : Assessment) (db' : Session) : Type 0 where
  pub a : Assessment
  pub use_case : UseCase
  pub loaded : load_assessment assessment_id ctx db ≡ ok a
  pub id : a.id ≡ assessment_id
  pub tenant_id : a.tenant_id ≡ ctx.tenant_id
  pub of_use_case : find? (λ row. row.id == a.use_case_id) db.use_cases ≡ some use_case
  pub complete : (structural_assessment_readiness use_case db).verdict ≡ Verdict.advance
  pub treated : (treatment_gate use_case db).verdict ≡ Verdict.advance
  pub was : (a.status ≡ AssessmentStatus.draft) ⊎ (a.status ≡ AssessmentStatus.needs_refresh)
  pub unlocked : a.lock_version ≡ expected
  pub same_id : b.id ≡ assessment_id
  pub status : b.status ≡ AssessmentStatus.in_review
  pub lock_version : b.lock_version ≡ expected + 1
  pub round : b.submission_round ≡ a.submission_round + 1
  pub submitted_by : b.submitted_by_user_id ≡ some ctx.user_id
  pub submitted_at : b.submitted_at ≡ some db.now
  pub stored : find? (λ row. row.id == assessment_id) db'.assessments ≡ some b
  pub authorisations : db'.authorisations ≡ db.authorisations

pub load_assessment-get_assessment :
    (assessment_id : ℕ) (ctx : TenantContext) (db : Session) (a : Assessment)
    → HasKeys db
    → load_assessment assessment_id ctx db ≡ ok a
    → get_assessment db a.id ≡ some a
unfolding load_assessment
load_assessment-get_assessment assessment_id ctx db a keys h =
    find?-by_key (λ row. row.id) (λ row. row.id == assessment_id && row.tenant_id == ctx.tenant_id)
      db.assessments keys (or_error-ok (http 404 (lit "Assessment not found" ∷ [])) _ h)

submittable :
    (s : AssessmentStatus)
    → any_row (λ t. t == s) submittable_statuses ≡ true
    → (s ≡ AssessmentStatus.draft) ⊎ (s ≡ AssessmentStatus.needs_refresh)
submittable AssessmentStatus.draft h = inl refl
submittable AssessmentStatus.in_review h = cc
submittable AssessmentStatus.approved h = cc
submittable AssessmentStatus.needs_refresh h = inr refl

gate_passed : (g : GateResult) → advances g ≡ true → g.verdict ≡ Verdict.advance
gate_passed g h = (verdict_eq.beq_iff g.verdict Verdict.advance).0 h

load_assessment-own :
    (assessment_id : ℕ) (ctx : TenantContext) (db : Session) (a : Assessment)
    → load_assessment assessment_id ctx db ≡ ok a
    → (a.id ≡ assessment_id) × (a.tenant_id ≡ ctx.tenant_id)
unfolding load_assessment
load_assessment-own assessment_id ctx db a h =
    let own =
      find?-holds (λ row. row.id == assessment_id && row.tenant_id == ctx.tenant_id) db.assessments
        a (or_error-ok _ _ h) in
    (ground arith, ground arith)

use_case_of-found :
    (a : Assessment) (db : Session) (u : UseCase)
    → use_case_of a db ≡ ok u
    → find? (λ row. row.id == a.use_case_id) db.use_cases ≡ some u
unfolding use_case_of
use_case_of-found a db u h = or_error-ok _ _ h

-- The writes of a submission, past its guards.
submitted :
    (assessment_id expected : ℕ) (ctx : TenantContext) (db : Session) (a updated : Assessment)
    (u : UseCase)
    → HasKeys db
    → load_assessment assessment_id ctx db ≡ ok a
    → use_case_of a db ≡ ok u
    → advances (structural_assessment_readiness u db) ≡ true
    → advances (treatment_gate u db) ≡ true
    → (conditional_status_update a ctx expected submittable_statuses
        (submitted_values (a.submission_round + 1) ctx.user_id db.now)
        db).0
      ≡ ok updated
    → Submitted assessment_id expected ctx db updated
        (submit_for_review assessment_id expected ctx db).1
unfolding submit_for_review
submitted assessment_id expected ctx db a updated u keys loaded of_use_case complete treated done =
    let values = submitted_values (a.submission_round + 1) ctx.user_id db.now in
    let u' =
      conditional_status_update-Updated a ctx expected submittable_statuses values (λ r. refl) db
        keys updated done in
    let same : u'.row ≡ a =
      some_eq (sym u'.found ∙ load_assessment-get_assessment assessment_id ctx db a keys loaded) in
    let written : updated ≡ bumped values a = u'.returned ∙ ap (bumped values) same in
    let unlocked : a.lock_version ≡ expected = rw (sym same) u'.applies.unlocked in
    let (id, tenant_id) = load_assessment-own assessment_id ctx db a loaded in
    rw (loaded, of_use_case, complete, treated, done)
      record {
        a = a;
        use_case = u;
        loaded = loaded;
        id = id;
        tenant_id = tenant_id;
        of_use_case = use_case_of-found a db u of_use_case;
        complete = gate_passed (structural_assessment_readiness u db) complete;
        treated = gate_passed (treatment_gate u db) treated;
        was = submittable a.status (rw (sym same) u'.applies.in_status);
        unlocked = unlocked;
        same_id = rw written id;
        status = rw written refl;
        lock_version = rw (written, unlocked) refl;
        round = rw written refl;
        submitted_by = rw written refl;
        submitted_at = rw written refl;
        stored = rw (sym id) u'.stored;
        authorisations = rw u'.session refl;
      }

-- Ids of assessments being unique: a submission that returns was of an assessment of the own tenant
-- whose use case exists and passes the structural check and the treatment gate, that was a draft or
-- needed a refresh, and that had the lock version that the caller expected. The assessment that it
-- returns, and that is now stored under the id, is in review with the next lock version, in the next
-- round, submitted by the caller now; and no authorisation has been touched.
pub submit_for_review-Submitted :
    (assessment_id expected : ℕ) (ctx : TenantContext) (db : Session) (b : Assessment)
    → HasKeys db
    → (submit_for_review assessment_id expected ctx db).0 ≡ ok b
    → Submitted assessment_id expected ctx db b (submit_for_review assessment_id expected ctx db).1
unfolding submit_for_review
submit_for_review-Submitted assessment_id expected ctx db b keys h =
    let (a, loaded, h1) = and_then-ok _ (load_assessment assessment_id ctx db) db h in
    let (u, of_use_case, h2) = and_then-ok _ (use_case_of a db) db h1 in
    let structural = structural_assessment_readiness u db in
    let (complete, h3) = guard-ok _ (advances structural) (http 409 structural.reason) db h2 in
    let treatment = treatment_gate u db in
    let (treated, h4) = guard-ok _ (advances treatment) (http 409 treatment.reason) db h3 in
    let values = submitted_values (a.submission_round + 1) ctx.user_id db.now in
    let update = conditional_status_update a ctx expected submittable_statuses values db in
    let (updated, done, h5) = and_then-ok _ update.0 update.1 h4 in
    subst
      (λ v.
        Submitted assessment_id expected ctx db v
          (submit_for_review assessment_id expected ctx db).1)
      (ok_eq h5)
      (submitted assessment_id expected ctx db a updated u keys loaded of_use_case complete treated
        done)

-- The authorisations of a use case are of rounds that an assessment has come to.
abbrev pub RoundsUpTo : ℕ → ℕ → List DeploymentAuthorisation → Type 0
RoundsUpTo use_case_id round =
    All (λ row. (row.use_case_id == use_case_id) ≡ true → row.submission_round ≤ round)

no_next_round :
    (u : UseCase) (round : ℕ) (rows : List DeploymentAuthorisation)
    → RoundsUpTo u.id round rows
    → any_row (authorises u (round + 1)) rows ≡ false
no_next_round u round rows h = any_row-of_All (authorises u (round + 1)) rows (
    All-map (λ row. (row.use_case_id == u.id) ≡ true → row.submission_round ≤ round)
      (λ row. authorises u (round + 1) row ≡ false) (λ row bound. later row bound) rows h)
  where
    later :
        (row : DeploymentAuthorisation)
        → ((row.use_case_id == u.id) ≡ true → row.submission_round ≤ round)
        → authorises u (round + 1) row ≡ false
    later row bound = elim (Bool-cases (row.use_case_id == u.id)) [
      | inl mine ↦ let le = bound mine in ground arith
      | inr other ↦ rw other
    ]

-- Ids of assessments being unique: where every authorisation of a use case is of a round that the
-- assessment has come to, none counts for the round that a submission that returned has opened.
pub submit_for_review-outdates :
    (assessment_id expected : ℕ) (ctx : TenantContext) (db : Session) (a b : Assessment)
    (u : UseCase)
    → HasKeys db
    → load_assessment assessment_id ctx db ≡ ok a
    → RoundsUpTo u.id a.submission_round db.authorisations
    → (submit_for_review assessment_id expected ctx db).0 ≡ ok b
    → any_row
        (authorises u b.submission_round)
        (submit_for_review assessment_id expected ctx db).1.authorisations
      ≡ false
submit_for_review-outdates assessment_id expected ctx db a b u keys loaded bound h =
    let done = submit_for_review-Submitted assessment_id expected ctx db b keys h in
    let same : done.a ≡ a = ok_eq (sym done.loaded ∙ loaded) in
    rw (done.authorisations, done.round, same)
      (no_next_round u a.submission_round db.authorisations bound)
