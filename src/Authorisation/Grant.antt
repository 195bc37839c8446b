-- ===== src/Authorisation/Grant.antt =====
-- What a deployment authorisation needs and what it brings about.
use aigov.Authorisation.{
  add_authorisation, authorise_use_case, grant, is_ready, load_current_aiia, load_use_case,
  new_authorisation,
}
use aigov.Authorisation.Ready.{
  AllAdvance, add_authorisation-SameFacts, add_authorisation-authorises, assessment_gate-approved,
  find?-fresh, is_ready-AllAdvance, readiness-clear, unblocked,
}
use aigov.Gates.Authorisation.{authorisation_gate, authorises}
use aigov.Gates.Frame.{
  SameFacts, SameFacts-trans, SameReads, assessment_approved-same, assessment_gate-same,
  classification_readiness-same, current_aiia-same, product_gate-same, treatment_gate-same,
  vendor_gate-same,
}
use aigov.Gates.Structure.{advances, assessment_approved, current_aiia}
use aigov.Governance.{assert_distinct_workflow_actor}
use aigov.Lifecycle.Arrival.{Succeeds}
use aigov.Lifecycle.Frame.{commit_transition-SameReads, set_values-state}
use aigov.Lifecycle.Legality.{Event, is_legal}
use aigov.Lifecycle.ReEvaluate.{re_evaluate}
use aigov.Lifecycle.Repeat.{re_evaluate-of_IsSettled}
use aigov.Lifecycle.Resting.{IsFresh, apply_transition-of_legal, commit_transition-IsFresh}
use aigov.Lifecycle.Transition.{commit_transition, set_values}
use aigov.Model.Enums.Lifecycle.{LifecycleState}
use aigov.Model.Rows.Assessment.{Assessment}
use aigov.Model.Rows.Domain.{UseCase}
use aigov.Model.Rows.Lifecycle.{DeploymentAuthorisation}
use aigov.Model.Session.{Session, TenantContext}
use aigov.Prelude.{
  String, [], any_row, arith, find?, find?-holds, inr, lit, nat_eq, none, ok, or_error-ok, refl,
  some, true, ℕ, ◌&&◌, ◌==◌, ◌∷◌, ◌≡◌,
}

-- What the guards of `authorise_use_case` have established of the use case and its AIIA.
pub record Cleared (use_case_id : ℕ) (ctx : TenantContext) (db : Session) (u : UseCase)
    (a : Assessment) : Type 0 where
  pub loaded : load_use_case use_case_id ctx db ≡ ok u
  pub assessed : load_current_aiia u db ≡ ok a
  pub ready : is_ready u db ≡ true
  pub distinct :
      assert_distinct_workflow_actor ctx.user_id
        (a.approved_by_user_id ∷ a.submitted_by_user_id ∷ [])
        "authorise"
      ≡ ok tt

-- What a grant leaves: the use case in AUTHORISED, its row with it, one authorisation for the
-- current round, signed by the caller, and nothing that a re-evaluation would change.
pub record Granted (u : UseCase) (a : Assessment) (statement : String) (ctx : TenantContext)
    (ato : DeploymentAuthorisation) (db' : Session) : Type 0 where
  pub round : ato.submission_round ≡ a.submission_round
  pub signed : ato.authorised_by_user_id ≡ ctx.user_id
  pub accepted : ato.residual_risk_statement ≡ statement
  pub current : any_row (authorises u a.submission_round) db'.authorisations ≡ true
  pub use_case : UseCase
  pub in_state : use_case.state ≡ LifecycleState.authorised
  pub fresh : IsFresh use_case db'
  pub stable : (actor : ℕ) → re_evaluate use_case actor db' ≡ (ok use_case, db')

module _ (u : UseCase) (a : Assessment) (statement : String) (ctx : TenantContext)
    (db : Session) where
  authorised_use_case : UseCase
  authorised_use_case = set_values u.state Event.authorise LifecycleState.authorised none u

  authorised_session : Session
  authorised_session =
      commit_transition u Event.authorise LifecycleState.authorised ctx.user_id
        (some (lit "Deployment authorisation granted" ∷ [])) none
        (add_authorisation u a statement ctx db).1

  authorised_use_case-state : authorised_use_case.state ≡ LifecycleState.authorised
  unfolding authorised_use_case
  authorised_use_case-state =
      set_values-state u.state Event.authorise LifecycleState.authorised none u

  authorised-IsFresh : IsFresh u db → IsFresh authorised_use_case authorised_session
  unfolding authorised_use_case authorised_session
  authorised-IsFresh fresh =
      commit_transition-IsFresh u Event.authorise LifecycleState.authorised ctx.user_id
        (some (lit "Deployment authorisation granted" ∷ [])) none
        (add_authorisation u a statement ctx db).1 (unfold add_authorisation in fresh)

  same_reads :
      SameReads u authorised_use_case (add_authorisation u a statement ctx db).1 authorised_session
  unfolding authorised_use_case authorised_session
  same_reads =
      commit_transition-SameReads u Event.authorise LifecycleState.authorised ctx.user_id
        (some (lit "Deployment authorisation granted" ∷ [])) none
        (add_authorisation u a statement ctx db).1

  same_facts : SameFacts u authorised_use_case db authorised_session
  same_facts = SameFacts-trans (add_authorisation-SameFacts u a statement ctx db) same_reads.facts

  authorised_gate :
      ctx.tenant_id ≡ u.tenant_id
      → current_aiia u db ≡ some a
      → advances (assessment_approved u db) ≡ true
      → advances (authorisation_gate authorised_use_case authorised_session) ≡ true
  unfolding authorisation_gate
  authorised_gate tenant aiia approved =
      rw (assessment_approved-same same_facts, approved, current_aiia-same same_facts, aiia)
        (rw (
          same_reads.id,
          same_reads.tenant_id,
          same_reads.authorisations,
          add_authorisation-authorises u a statement ctx db tenant,
        ))

  still_advance : AllAdvance u db → AllAdvance authorised_use_case authorised_session
  still_advance h = record {
    vendor = rw (vendor_gate-same same_facts) h.vendor;
    product = rw (product_gate-same same_facts) h.product;
    intake = rw (classification_readiness-same same_facts) h.intake;
    assessment = rw (assessment_gate-same same_facts) h.assessment;
    treatment = rw (treatment_gate-same same_facts) h.treatment;
  }

load_use_case-found :
    (i : ℕ) (ctx : TenantContext) (db : Session) (u : UseCase)
    → load_use_case i ctx db ≡ ok u
    → find? (λ row. row.id == i && row.tenant_id == ctx.tenant_id) db.use_cases ≡ some u
unfolding load_use_case
load_use_case-found i ctx db u h =
    or_error-ok _ (find? (λ row. row.id == i && row.tenant_id == ctx.tenant_id) db.use_cases) h

tenant_of : (i t : ℕ) (u : UseCase) → (u.id == i && u.tenant_id == t) ≡ true → t ≡ u.tenant_id
tenant_of i t u h = ground arith

pub load_use_case-tenant :
    (i : ℕ) (ctx : TenantContext) (db : Session) (u : UseCase)
    → load_use_case i ctx db ≡ ok u
    → ctx.tenant_id ≡ u.tenant_id
load_use_case-tenant i ctx db u h = tenant_of i ctx.tenant_id u (
    find?-holds (λ (row : UseCase). row.id == i && row.tenant_id == ctx.tenant_id) db.use_cases u
      (load_use_case-found i ctx db u h))

load_current_aiia-found :
    (u : UseCase) (db : Session) (a : Assessment)
    → load_current_aiia u db ≡ ok a
    → current_aiia u db ≡ some a
unfolding load_current_aiia
load_current_aiia-found u db a h = or_error-ok _ (current_aiia u db) h

authorise-legal :
    (s : LifecycleState)
    → s ≡ LifecycleState.pending_authorisation
    → is_legal s Event.authorise LifecycleState.authorised ≡ true
unfolding is_legal
authorise-legal s e = rw e

-- The grant, past the guards.
grant-returns :
    (u : UseCase) (a : Assessment) (statement : String) (ctx : TenantContext) (db : Session)
    → u.state ≡ LifecycleState.pending_authorisation
    → IsFresh u db
    → grant u a statement ctx db
      ≡ (ok (new_authorisation u a statement ctx db), authorised_session u a statement ctx db)
unfolding grant authorised_session
grant-returns u a statement ctx db pending fresh =
    let moved =
      apply_transition-of_legal u Event.authorise LifecycleState.authorised ctx.user_id
        (some (lit "Deployment authorisation granted" ∷ [])) none
        (add_authorisation u a statement ctx db).1 (authorise-legal u.state pending) fresh in
    rw moved

-- With the guards met, `authorise_use_case` succeeds: it writes an authorisation of the current
-- submission round, signed by the caller, moves the use case into AUTHORISED, and a re-evaluation
-- that follows finds nothing to change.
pub authorise_use_case-Granted :
    (use_case_id : ℕ) (statement : String) (ctx : TenantContext) (db : Session) (u : UseCase)
    (a : Assessment)
    → Cleared use_case_id ctx db u a
    → Succeeds (authorise_use_case use_case_id statement ctx) db (Granted u a statement ctx)
authorise_use_case-Granted use_case_id statement ctx db u a c =
    let fresh =
      find?-fresh (λ (row : UseCase). row.id == use_case_id && row.tenant_id == ctx.tenant_id) u
        db.use_cases (load_use_case-found use_case_id ctx db u c.loaded) in
    let tenant = load_use_case-tenant use_case_id ctx db u c.loaded in
    let aiia = load_current_aiia-found u db a c.assessed in
    let (pending, gates) = is_ready-AllAdvance u db c.ready in
    let gate =
      authorised_gate u a statement ctx db tenant aiia
        (assessment_gate-approved u db gates.assessment) in
    let after = still_advance u a statement ctx db gates in
    record {
      result = new_authorisation u a statement ctx db;
      after = authorised_session u a statement ctx db;
      returns =
          unfold authorise_use_case in
          rw (c.loaded, c.assessed, c.ready, c.distinct)
            (grant-returns u a statement ctx db pending fresh);
      holds_after = record {
        round = refl;
        signed = refl;
        accepted = refl;
        current =
            rw (same_reads u a statement ctx db).authorisations
              (add_authorisation-authorises u a statement ctx db tenant);
        use_case = authorised_use_case u a statement ctx db;
        in_state = authorised_use_case-state u a statement ctx db;
        fresh = authorised-IsFresh u a statement ctx db fresh;
        stable = λ actor. re_evaluate-of_IsSettled _ actor _ (
            inr (
              inr (
                readiness-clear _ _ after.intake,
                authorised_use_case-state u a statement ctx db,
                unblocked _ _ after gate,
              )));
      };
    }
