-- ===== src/Authorisation/Guards.antt =====
-- The guards of `authorise_use_case`: what a successful call has passed.
use aigov.Authorisation.{authorise_use_case, is_ready, load_current_aiia, load_use_case, not_ready}
use aigov.Authorisation.Grant.{Cleared}
use aigov.Authorisation.Ready.{assessment_gate-approved, is_ready-AllAdvance}
use aigov.Gates.Clearance.{product_gate, vendor_gate}
use aigov.Gates.Readiness.{classification_readiness}
use aigov.Gates.Structure.{
  advances, assessment_approved, assessment_gate, current_aiia, has_approval,
}
use aigov.Gates.Treatment.{treatment_gate}
use aigov.Gates.Verdict.{GateResult, Verdict, verdict_eq}
use aigov.Governance.{assert_distinct_workflow_actor}
use aigov.Governance.Actors.{assert_distinct_workflow_actor-ok_iff}
use aigov.Model.Enums.Assessment.{
  AssessmentStatus, AssessmentType, assessment_status_eq, assessment_type_eq,
}
use aigov.Model.Enums.Lifecycle.{LifecycleState}
use aigov.Model.Rows.Assessment.{Assessment}
use aigov.Model.Rows.Domain.{UseCase}
use aigov.Model.Rows.Lifecycle.{DeploymentAuthorisation}
use aigov.Model.Session.{Session, TenantContext}
use aigov.Prelude.{
  Bool-cases, Option, String, [], and_then-ok, ap, arith, find?, find?-holds, guard-ok, inl, inr,
  is_none, nat_eq, none, ok, or_error-ok, refl, some, sym, true, ℕ, ◌&&◌, ◌==◌, ◌∙◌, ◌∷◌, ◌≡◌, ◌≢◌,
}

-- A use case and its AIIA that the caller may authorise.
pub record Authorisable (use_case_id : ℕ) (ctx : TenantContext) (db : Session) (u : UseCase)
    (a : Assessment) : Type 0 where
  pub found :
      find? (λ row. row.id == use_case_id && row.tenant_id == ctx.tenant_id) db.use_cases ≡ some u
  pub id : u.id ≡ use_case_id
  pub tenant_id : u.tenant_id ≡ ctx.tenant_id
  pub state : u.state ≡ LifecycleState.pending_authorisation
  pub vendor : (vendor_gate u db).verdict ≡ Verdict.advance
  pub product : (product_gate u db).verdict ≡ Verdict.advance
  pub intake : (classification_readiness u db).verdict ≡ Verdict.advance
  pub assessment : (assessment_gate u db).verdict ≡ Verdict.advance
  pub treatment : (treatment_gate u db).verdict ≡ Verdict.advance
  pub of_use_case : a.use_case_id ≡ use_case_id
  pub of_tenant : a.tenant_id ≡ ctx.tenant_id
  pub type : a.type ≡ AssessmentType.aiia
  pub top_level : a.parent_aiia_id ≡ none
  pub status : a.status ≡ AssessmentStatus.approved
  pub not_submitter : a.submitted_by_user_id ≢ some ctx.user_id
  pub not_approver : a.approved_by_user_id ≢ some ctx.user_id

advanced : (g : GateResult) → advances g ≡ true → g.verdict ≡ Verdict.advance
advanced g h = (verdict_eq.beq_iff g.verdict Verdict.advance).0 h

of_none : {A : Type 0} (o : Option A) → is_none o ≡ true → o ≡ none
of_none none h = refl
of_none (some a) h = cc

by_approval :
    (u : UseCase) (db : Session)
    → advances (assessment_approved u db) ≡ true
    → has_approval (current_aiia u db) ≡ true
unfolding assessment_approved
by_approval u db h = elim (Bool-cases (has_approval (current_aiia u db))) [
  | inl yes_it ↦ yes_it
  | inr no_it ↦ let parked = rw no_it at h in cc
]

approved_aiia :
    (u : UseCase) (db : Session) (a : Assessment)
    → current_aiia u db ≡ some a
    → has_approval (current_aiia u db) ≡ true
    → a.status ≡ AssessmentStatus.approved
approved_aiia u db a found h =
    (assessment_status_eq.beq_iff a.status AssessmentStatus.approved).0
      (ap has_approval (sym found) ∙ h)

Cleared-Authorisable :
    (use_case_id : ℕ) (ctx : TenantContext) (db : Session) (u : UseCase) (a : Assessment)
    → Cleared use_case_id ctx db u a
    → Authorisable use_case_id ctx db u a
unfolding load_use_case load_current_aiia
Cleared-Authorisable use_case_id ctx db u a h =
    let row = or_error-ok _ _ h.loaded in
    let own = find?-holds _ db.use_cases u row in
    let aiia = or_error-ok _ _ h.assessed in
    let current = find?-holds _ db.assessments a aiia in
    let (waiting, gates) = is_ready-AllAdvance u db h.ready in
    let others =
      (assert_distinct_workflow_actor-ok_iff ctx.user_id
          (a.approved_by_user_id ∷ a.submitted_by_user_id ∷ []) "authorise").0
        h.distinct in
    let id : u.id ≡ use_case_id = ground arith in
    let tenant_id : u.tenant_id ≡ ctx.tenant_id = ground arith in
    record {
      found = row;
      id = id;
      tenant_id = tenant_id;
      state = waiting;
      vendor = advanced (vendor_gate u db) gates.vendor;
      product = advanced (product_gate u db) gates.product;
      intake = advanced (classification_readiness u db) gates.intake;
      assessment = advanced (assessment_gate u db) gates.assessment;
      treatment = advanced (treatment_gate u db) gates.treatment;
      of_use_case = ground arith;
      of_tenant = ground arith;
      type = (assessment_type_eq.beq_iff a.type AssessmentType.aiia).0 (ground arith);
      top_level = of_none a.parent_aiia_id (ground arith);
      status =
          approved_aiia u db a aiia
            (by_approval u db (assessment_gate-approved u db gates.assessment));
      not_submitter = others.1.0;
      not_approver = others.0;
    }

-- Whoever is told that the authorisation was granted had a use case of the own tenant in
-- PENDING_AUTHORISATION whose vendor, product, classification, assessment and treatment gates all
-- advance, and whose AIIA, an assessment of the tenant without a parent, is approved; and is neither
-- the one who submitted the AIIA nor the one who approved it.
pub authorise_use_case-Cleared :
    (use_case_id : ℕ) (statement : String) (ctx : TenantContext) (db : Session)
    (ato : DeploymentAuthorisation)
    → (authorise_use_case use_case_id statement ctx db).0 ≡ ok ato
    → (u : UseCase) × (a : Assessment) × Authorisable use_case_id ctx db u a
unfolding authorise_use_case
authorise_use_case-Cleared use_case_id statement ctx db ato h =
    let (u, loaded, h1) = and_then-ok _ (load_use_case use_case_id ctx db) db h in
    let (a, assessed, h2) = and_then-ok _ (load_current_aiia u db) db h1 in
    let (ready, h3) = guard-ok _ (is_ready u db) not_ready db h2 in
    let (_, distinct, h4) =
      and_then-ok _
        (assert_distinct_workflow_actor ctx.user_id
          (a.approved_by_user_id ∷ a.submitted_by_user_id ∷ []) "authorise")
        db h3 in
    let cleared : Cleared use_case_id ctx db u a = record {
      loaded = loaded;
      assessed = assessed;
      ready = ready;
      distinct = distinct;
    } in
    (u, a, Cleared-Authorisable use_case_id ctx db u a cleared)
