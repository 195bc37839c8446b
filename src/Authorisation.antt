-- ===== src/Authorisation.antt =====
-- Deployment authorisations (app/services/authorisation_service.py).
pub mod Ready
pub mod Grant
pub mod Guards
use aigov.Gates.Structure.{current_aiia}
use aigov.Gates.Verdict.{GateResult, Verdict, verdict_eq}
use aigov.Governance.{assert_distinct_workflow_actor}
use aigov.Lifecycle.Legality.{Event}
use aigov.Lifecycle.ReEvaluate.{full_vector}
use aigov.Lifecycle.Transition.{apply_transition}
use aigov.Model.Enums.Lifecycle.{LifecycleState, eu_ai_act_tier_value, lifecycle_state_eq}
use aigov.Model.Rows.Assessment.{Assessment}
use aigov.Model.Rows.Domain.{UseCase}
use aigov.Model.Rows.Lifecycle.{AuditEvent, DeploymentAuthorisation, Detail, User}
use aigov.Model.Session.{Session, TenantContext}
use aigov.Prelude.{
  Bool, Error, Exec, List, Option, Result, String, [], any_row, find?, gets, guard, http, lift, lit,
  nat_eq, none, ok, or_error, pure, read, some, true, uid, ℕ, ◌&&◌, ◌++◌, ◌+◌, ◌==◌, ◌>>=◌, ◌>>◌,
  ◌∷◌,
}

-- `_load_use_case`
unfoldable pub load_use_case : ℕ → TenantContext → Session → Result UseCase
load_use_case use_case_id ctx db =
    or_error (http 404 (lit "Use case not found" ∷ []))
      (find? (λ row. row.id == use_case_id && row.tenant_id == ctx.tenant_id) db.use_cases)

-- `_load_current_aiia`
unfoldable pub load_current_aiia : UseCase → Session → Result Assessment
load_current_aiia use_case db =
    or_error (http 409 (lit "No assessment started for this use case" ∷ []))
      (current_aiia use_case db)

-- The user, joined with a membership of the tenant.
abbrev pub tenant_user : Session → ℕ → ℕ → Option User
tenant_user db tenant_id user_id =
    find?
      (λ user.
        user.id == user_id
        && any_row (λ m. m.user_id == user.id && m.tenant_id == tenant_id) db.memberships)
      db.users

-- `_resolve_actor_identity`
abbrev pub identity_of : Option User → Option String × Option String
identity_of none = (none, none)
identity_of (some row) = (row.display_name, some row.email)

unfoldable pub resolve_actor_identity : Session → ℕ → ℕ → Option String × Option String
resolve_actor_identity db tenant_id user_id = identity_of (tenant_user db tenant_id user_id)

-- `all(result.verdict == "advance" for _, result in vector[:-1])`
unfoldable pub all_but_last : List (LifecycleState × GateResult) → Bool
all_but_last [] = true
all_but_last ((s, g) ∷ []) = true
all_but_last ((s, g) ∷ rest) = g.verdict == Verdict.advance && all_but_last rest

abbrev pub not_ready : Error
not_ready = http 409 (lit "Use case is not ready for authorisation; recompute and retry" ∷ [])

unfoldable pub is_ready : UseCase → Session → Bool
unfolding all_but_last full_vector
is_ready use_case db =
    use_case.state == LifecycleState.pending_authorisation && all_but_last (full_vector use_case db)

-- The authorisation that is written.
abbrev pub new_authorisation :
    UseCase → Assessment → String → TenantContext → Session → DeploymentAuthorisation
new_authorisation use_case a statement ctx db = record {
  id = db.uuids db.drawn;
  tenant_id = ctx.tenant_id;
  use_case_id = use_case.id;
  assessment_id = a.id;
  submission_round = a.submission_round;
  tier = eu_ai_act_tier_value use_case.eu_tier;
  assessment_version = a.version;
  authorised_by_user_id = ctx.user_id;
  authorised_by_name = (resolve_actor_identity db ctx.tenant_id ctx.user_id).0;
  authorised_by_email = (resolve_actor_identity db ctx.tenant_id ctx.user_id).1;
  residual_risk_statement = statement;
}

abbrev pub granted_event : UseCase → DeploymentAuthorisation → TenantContext → Session → AuditEvent
granted_event use_case ato ctx db = record {
  id = db.uuids (db.drawn + 1);
  tenant_id = ctx.tenant_id;
  actor_user_id = ctx.user_id;
  action = "authorisation.granted";
  entity_type = "deployment_authorisation";
  entity_id = ato.id;
  detail =
      ("use_case_id", Detail.message (uid use_case.id ∷ []))
      ∷ ("submission_round", Detail.num ato.submission_round)
      ∷ ("tier", Detail.text ato.tier)
      ∷ ("assessment_version", Detail.num ato.assessment_version)
      ∷ [];
}

-- The inserts of the authorisation and of its audit row.
unfoldable pub add_authorisation :
    UseCase → Assessment → String → TenantContext → Exec Session DeploymentAuthorisation
add_authorisation use_case a statement ctx db =
    let ato = new_authorisation use_case a statement ctx db in
    (
      ok ato,
      record db {
        authorisations = db.authorisations ++ ato ∷ [];
        audit_events = db.audit_events ++ granted_event use_case ato ctx db ∷ [];
        drawn = db.drawn + 2;
      },
    )

-- Past the guards: the authorisation is written, and the use case moves into AUTHORISED.
unfoldable pub grant :
    UseCase → Assessment → String → TenantContext → Exec Session DeploymentAuthorisation
unfolding add_authorisation
grant use_case a statement ctx = do
  ato ← add_authorisation use_case a statement ctx
  apply_transition use_case Event.authorise LifecycleState.authorised ctx.user_id
      (some (lit "Deployment authorisation granted" ∷ [])) none
  pure ato

unfoldable pub authorise_use_case :
    ℕ → String → TenantContext → Exec Session DeploymentAuthorisation
unfolding grant
authorise_use_case use_case_id statement ctx = do
  use_case ← read (load_use_case use_case_id ctx)
  a ← read (load_current_aiia use_case)
  ready ← gets (is_ready use_case)
  guard ready not_ready
  lift (
      assert_distinct_workflow_actor ctx.user_id
        (a.approved_by_user_id ∷ a.submitted_by_user_id ∷ []) "authorise")
  grant use_case a statement ctx
